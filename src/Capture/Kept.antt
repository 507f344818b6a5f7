-- ===== src/Capture/Kept.antt =====
-- What a capture without `--force` leaves as it was.
use vinuchain_lists.Prelude.{
  ℕ, ◌≡◌, refl, sym, ap, ◌∙◌, subst, inl, inr, Bool, false, Option, none, some, List, [], ◌∷◌, Text,
  text_eq, to_lower, Bool-cases, if◌then◌else◌, Outcome, ok, threw, >>=-eq-ok,
}
use vinuchain_lists.Onchain.Rpc.{RpcValue, Failure, Platform, get_code, raw_json_rpc}
use vinuchain_lists.Onchain.Checks.{pinned, has_code, read_eip1967_impl}
use vinuchain_lists.Capture.{
  Entry, token, contract, address_of, chain_of, code_hash_of, impl_hash_of, with_pins, Tally,
  left_unpinned, apply_checked, apply_pin, hash_and_pin, after_impl_code, no_proxy, after_slot,
  capture_impl, capture_deployed, after_code, capture_entry, Target, endpoint_of, chain_ids,
  Captured, resolve_chains, visit, or_fatal, capture_all, capture,
}
use vinuchain_lists.Capture.Entries.{ok-value}
use vinuchain_lists.Capture.Laws.{fatal-ok}

-- A pin that counts stays as it is.
abbrev pub PinKept : Option Text → Option Text → Type 0
PinKept prior pin = (q : Text) → pinned prior ≡ some q → pin ≡ prior

-- The same entry, with the pins that it had.
pub record IsKept (c d : Entry) : Type 0 where
  pub same_rest : d ≡ with_pins c (code_hash_of d) (impl_hash_of d)
  pub code_kept : PinKept (code_hash_of c) (code_hash_of d)
  pub impl_kept : PinKept (impl_hash_of c) (impl_hash_of d)

same_pins : (c : Entry) → c ≡ with_pins c (code_hash_of c) (impl_hash_of c)
same_pins (token t) = refl
same_pins (contract c) = refl

unchanged-IsKept : (c : Entry) → IsKept c c
unchanged-IsKept c = record {
  same_rest = same_pins c;
  code_kept = λ q h. refl;
  impl_kept = λ q h. refl;
}

pins-IsKept :
    (c : Entry) (pin impl_pin : Option Text)
    → PinKept (code_hash_of c) pin
    → PinKept (impl_hash_of c) impl_pin
    → IsKept c (with_pins c pin impl_pin)
pins-IsKept (token t) pin impl_pin h k = record { same_rest = refl; code_kept = h; impl_kept = k }
pins-IsKept (contract c) pin impl_pin h k = record {
  same_rest = refl;
  code_kept = h;
  impl_kept = k;
}

apply-kept :
    (prior counts : Option Text) (live q : Text)
    → counts ≡ some q
    → (apply_checked false prior counts live).0 ≡ prior
unfolding apply_checked
apply-kept prior none live q h = cc h
apply-kept prior (some expected) live q h =
    elim (Bool-cases (text_eq (to_lower expected) (to_lower live))) [
      | inl same ↦ rw same refl
      | inr other ↦ rw other refl
    ]

module _ (p : Platform) (url : Text) where
  hash-kept :
      (prior pin : Option Text) (t : Tally) (o : Outcome Failure Text)
      → hash_and_pin false p url prior o ≡ ok (pin, t)
      → PinKept prior pin
  unfolding hash_and_pin apply_pin
  hash-kept prior pin t (threw e) h q counts = cc h
  hash-kept prior pin t (ok live) h q counts =
      sym (ap (λ z. z.0) (ok-value h)) ∙ apply-kept prior (pinned prior) live q counts

  impl-kept :
      (prior pin : Option Text) (t : Tally) (o : Outcome Failure RpcValue)
      → after_impl_code false p url prior o ≡ ok (pin, t)
      → PinKept prior pin
  unfolding after_impl_code
  impl-kept prior pin t (threw e) h q counts = sym (ap (λ z. z.0) (ok-value h))
  impl-kept prior pin t (ok code) h q counts = elim (Bool-cases (has_code code)) [
    | inl there ↦
        hash-kept prior pin t (p.keccak256 code)
          (ap
              (λ b.
                if b
                then hash_and_pin false p url prior (p.keccak256 code)
                else ok (prior, left_unpinned))
              (sym there)
            ∙ h)
          q counts
    | inr empty ↦ sym (
        ap (λ z. z.0)
          (ok-value (
            ap
              (λ b.
                if b
                then hash_and_pin false p url prior (p.keccak256 code)
                else ok (prior, left_unpinned))
              (sym empty)
            ∙ h)))
  ]

  no_proxy-kept : (prior counts : Option Text) → (no_proxy false p url prior counts).0 ≡ prior
  unfolding no_proxy
  no_proxy-kept prior none = refl
  no_proxy-kept prior (some stale) = refl

  slot-kept :
      (prior pin : Option Text) (t : Tally) (slot : Outcome Failure (Option Text))
      → after_slot false p url prior slot ≡ ok (pin, t)
      → PinKept prior pin
  unfolding after_slot
  slot-kept prior pin t (threw e) h q counts = sym (ap (λ z. z.0) (ok-value h))
  slot-kept prior pin t (ok none) h q counts =
      sym (ap (λ z. z.0) (ok-value h)) ∙ no_proxy-kept prior (pinned prior)
  slot-kept prior pin t (ok (some impl)) h q counts =
      impl-kept prior pin t (raw_json_rpc p url (get_code impl)) h q counts

  deployed-IsKept :
      (c d : Entry) (t : Tally) (code : RpcValue)
      → capture_deployed false p url c code ≡ ok (d, t)
      → IsKept c d
  unfolding capture_deployed capture_impl
  deployed-IsKept c d t code h =
      let ((code_pin, first), one, h₁) =
        >>=-eq-ok (hash_and_pin false p url (code_hash_of c) (p.keccak256 code)) _ h in
      let ((impl_pin, second), two, h₂) = >>=-eq-ok (capture_impl false p url c) _ h₁ in
      subst (IsKept c) (ap (λ z. z.0) (ok-value h₂)) (
        pins-IsKept c code_pin impl_pin
          (hash-kept (code_hash_of c) code_pin first (p.keccak256 code) one)
          (slot-kept (impl_hash_of c) impl_pin second (read_eip1967_impl p url (address_of c)) two))

  code-IsKept :
      (c d : Entry) (t : Tally) (o : Outcome Failure RpcValue)
      → after_code false p url c o ≡ ok (d, t)
      → IsKept c d
  unfolding after_code
  code-IsKept c d t (threw e) h = subst (IsKept c) (ap (λ z. z.0) (ok-value h)) (unchanged-IsKept c)
  code-IsKept c d t (ok code) h = elim (Bool-cases (has_code code)) [
    | inl there ↦ deployed-IsKept c d t code (
        ap (λ b. if b then capture_deployed false p url c code else ok (c, left_unpinned))
          (sym there)
        ∙ h)
    | inr empty ↦
        subst (IsKept c)
          (ap (λ z. z.0)
            (ok-value (
              ap (λ b. if b then capture_deployed false p url c code else ok (c, left_unpinned))
                (sym empty)
              ∙ h)))
          (unchanged-IsKept c)
  ]

-- The entries of the result are those of the targets, in their files.
abbrev pub AllKept : List Target → List Target → Type 0
AllKept [] [] = Unit
AllKept (t ∷ ts) (u ∷ us) = (u.file ≡ t.file) × IsKept t.entry u.entry × AllKept ts us
AllKept _ _ = ⊥

module _ (p : Platform) (strict : Bool) where
  visit-IsKept :
      (endpoint : Option Text) (c d : Entry) (t : Tally)
      → visit p false strict endpoint c ≡ ok (d, t)
      → IsKept c d
  unfolding visit capture_entry
  visit-IsKept none c d t h = subst (IsKept c) (ap (λ z. z.0) (ok-value h)) (unchanged-IsKept c)
  visit-IsKept (some url) c d t h =
      code-IsKept p url c d t (raw_json_rpc p url (get_code (address_of c))) h

  all-kept :
      (urls : List (ℕ × Text)) (ts : List Target) (r : Captured)
      → capture_all p false strict urls ts ≡ ok r
      → AllKept ts r.targets
  unfolding capture_all
  all-kept urls [] r h = subst (λ z. AllKept [] z.targets) (ok-value h) tt
  all-kept urls (t ∷ ts) r h =
      let ((entry, tally), one, h₁) =
        >>=-eq-ok
          (or_fatal p false strict
            (visit p false strict (endpoint_of urls (chain_of t.entry)) t.entry))
          _ h in
      let (rest, two, h₂) = >>=-eq-ok (capture_all p false strict urls ts) _ h₁ in
      subst (λ z. AllKept (t ∷ ts) z.targets) (ok-value h₂)
        (
          refl,
          visit-IsKept (endpoint_of urls (chain_of t.entry)) t.entry entry tally
              (fatal-ok p false strict _ _ one),
          all-kept urls ts rest two,
        )

  -- A capture that is not forced writes the same entries to the same files, in their order, with every
  -- pin that they had, whatever the chain answers.
  pub capture-kept :
      (ts : List Target) (r : Captured) → capture p false strict ts ≡ ok r → AllKept ts r.targets
  unfolding capture
  capture-kept ts r h =
      let (urls, _, two) = >>=-eq-ok (resolve_chains p false strict (chain_ids ts)) _ h in
      all-kept urls ts r two
