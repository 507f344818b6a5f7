-- ===== src/Capture/Entries.antt =====
-- What a capture makes of one entry.
use vinuchain_lists.Prelude.{
  ◌+◌, ◌≡◌, refl, sym, ap, ◌∙◌, subst, inl, inr, Bool, Option, none, some, Text, text_eq,
  text_eq_iff, to_lower, arith, Bool-cases, Outcome-cases, if◌then◌else◌, Outcome, ok, threw,
  >>=-eq-ok,
}
use vinuchain_lists.Onchain.Rpc.{RpcValue, Failure, Platform, get_code, raw_json_rpc}
use vinuchain_lists.Onchain.Checks.{pinned, has_code, read_eip1967_impl}
use vinuchain_lists.Onchain.Checks.Spec.{
  HashIs, HasCodeAt, PinHolds, ImplHolds, ProxyHolds, IsVerifiedContract,
}
use vinuchain_lists.Capture.{
  Entry, token, contract, address_of, code_hash_of, impl_hash_of, with_pins, Tally, left_unpinned,
  apply_checked, apply_pin, hash_and_pin, after_impl_code, no_proxy, after_slot, capture_impl,
  capture_deployed, after_code, capture_entry,
}

pub ok-value : {E A : Type 0} {a b : A} → ◌≡◌ {A = Outcome E A} (ok a) (ok b) → a ≡ b
ok-value h = cc h

-- A hash is not the empty text.
abbrev pub Hashes : Platform → Type 0
Hashes p =
    (value : RpcValue) (hash : Text) → p.keccak256 value ≡ ok hash → pinned (some hash) ≡ some hash

-- The pin counts, and is the live hash, case apart.
abbrev Live : Option Text → Text → Type 0
Live pin live = (q : Text) × (pinned pin ≡ some q) × (to_lower live ≡ to_lower q)

-- Nothing is left to look into.
abbrev pub IsSettled : Tally → Type 0
IsSettled t = (t.conflicts ≡ 0) × (t.unpinned ≡ 0)

-- Code stands at the address, and it and the implementation agree with the pins.
pub record PinsHold (p : Platform) (url address : Text) (pin impl_pin : Option Text) : Type 0 where
  pub code : RpcValue
  pub deployed : HasCodeAt p url address code
  pub type_pinned : PinHolds p (pinned pin) code
  pub proxy : ProxyHolds p url address impl_pin

-- What a capture can bring about: all that is asked of a contract, and of a token what is asked of
-- its code. Its decimals, its symbol and its name are not read.
abbrev pub IsCaptured : Platform → Text → Entry → Type 0
IsCaptured p url (token t) = PinsHold p url t.address t.code_hash t.impl_code_hash
IsCaptured p url (contract c) = IsVerifiedContract p url c

pins-IsCaptured :
    (p : Platform) (url : Text) (e : Entry) (pin impl_pin : Option Text)
    → PinsHold p url (address_of e) pin impl_pin
    → IsCaptured p url (with_pins e pin impl_pin)
pins-IsCaptured p url (token t) pin impl_pin h = h
pins-IsCaptured p url (contract c) pin impl_pin h = record {
  code = h.code;
  deployed = h.deployed;
  type_pinned = h.type_pinned;
  proxy = h.proxy;
}

module _ (force : Bool) where
  apply-Live :
      (prior counts : Option Text) (live : Text)
      → pinned prior ≡ counts
      → pinned (some live) ≡ some live
      → ((apply_checked force prior counts live).1).conflicts ≡ 0
      → Live ((apply_checked force prior counts live).0) live
  unfolding apply_checked
  apply-Live prior none live e full settled = (live, full, refl)
  apply-Live prior (some expected) live e full settled =
      elim (Bool-cases (text_eq (to_lower expected) (to_lower live))) [
        | inl same ↦ rw same (expected, e, sym ((text_eq_iff _ _).0 same))
        | inr other ↦ elim (Bool-cases force) [
          | inl forced ↦ rw (other, forced) (live, full, refl)
          | inr free ↦ let bad = rw (other, free) at settled in absurd (omega (arith, bad))
        ]
      ]

  module _ (p : Platform) (url : Text) (hashes : Hashes p) where
    hash-Live :
        (prior pin : Option Text) (t : Tally) (code : RpcValue)
        → hash_and_pin force p url prior (p.keccak256 code) ≡ ok (pin, t)
        → t.conflicts ≡ 0
        → (q : Text) × (pinned pin ≡ some q) × HashIs p code q
    unfolding hash_and_pin apply_pin
    hash-Live prior pin t code h settled = elim (Outcome-cases (p.keccak256 code)) [
      | inr (e, stopped) ↦ cc (ap (hash_and_pin force p url prior) (sym stopped) ∙ h)
      | inl (live, hashed) ↦
          let made : apply_pin force prior live ≡ (pin, t) =
            ok-value (ap (hash_and_pin force p url prior) (sym hashed) ∙ h) in
          let (q, counts, same) =
            apply-Live prior (pinned prior) live refl (hashes code live hashed)
              (ap (λ z. (z.1).conflicts) made ∙ settled) in
          (q, ap (λ z. pinned (z.0)) (sym made) ∙ counts, (live, hashed, same))
    ]

    -- A step that leaves the entry as it is and reports it is not settled.
    unsettled :
        {A : Type 0} {a b : A} {t : Tally}
        → ◌≡◌ {A = Outcome Failure (A × Tally)} (ok (a, left_unpinned)) (ok (b, t))
        → t.unpinned ≡ 0
        → ⊥
    unsettled h settled = omega (arith, settled, ap (λ z. (z.1).unpinned) (ok-value h))

    impl-Holds :
        (prior pin : Option Text) (t : Tally) (impl : Text)
        → after_impl_code force p url prior (raw_json_rpc p url (get_code impl)) ≡ ok (pin, t)
        → IsSettled t
        → ImplHolds p url (pinned pin) (some impl)
    unfolding after_impl_code
    impl-Holds prior pin t impl h (quiet, full) =
        elim (Outcome-cases (raw_json_rpc p url (get_code impl))) [
          | inr (e, stopped) ↦
              absurd (unsettled (ap (after_impl_code force p url prior) (sym stopped) ∙ h) full)
          | inl (code, read) ↦
              let h₁ = ap (after_impl_code force p url prior) (sym read) ∙ h in
              elim (Bool-cases (has_code code)) [
                | inr empty ↦ absurd (
                    unsettled
                      (ap
                          (λ b.
                            if b
                            then hash_and_pin force p url prior (p.keccak256 code)
                            else ok (prior, left_unpinned))
                          (sym empty)
                        ∙ h₁)
                      full)
                | inl there ↦
                    let (q, counts, is) =
                      hash-Live prior pin t code
                        (ap
                            (λ b.
                              if b
                              then hash_and_pin force p url prior (p.keccak256 code)
                              else ok (prior, left_unpinned))
                            (sym there)
                          ∙ h₁)
                        quiet in
                    subst (λ z. ImplHolds p url z (some impl)) (sym counts)
                      (code, (read, there), is)
              ]
        ]

    no_proxy-Holds :
        (prior counts pin : Option Text) (t : Tally)
        → pinned prior ≡ counts
        → no_proxy force p url prior counts ≡ (pin, t)
        → t.unpinned ≡ 0
        → ImplHolds p url (pinned pin) none
    unfolding no_proxy
    no_proxy-Holds prior none pin t e h full =
        subst (λ z. ImplHolds p url z none) (sym e ∙ ap (λ z. pinned (z.0)) h) tt
    no_proxy-Holds prior (some stale) pin t e h full =
        absurd (omega (arith, full, ap (λ z. (z.1).unpinned) h))

    slot-Holds :
        (prior pin : Option Text) (t : Tally) (slot : Outcome Failure (Option Text))
        → after_slot force p url prior slot ≡ ok (pin, t)
        → IsSettled t
        → (impl : Option Text) × (slot ≡ ok impl) × ImplHolds p url (pinned pin) impl
    unfolding after_slot
    slot-Holds prior pin t (threw e) h (quiet, full) = absurd (unsettled h full)
    slot-Holds prior pin t (ok none) h (quiet, full) =
        (none, refl, no_proxy-Holds prior (pinned prior) pin t refl (ok-value h) full)
    slot-Holds prior pin t (ok (some impl)) h settled =
        (some impl, refl, impl-Holds prior pin t impl h settled)

    capture_deployed-verified :
        (c d : Entry) (code : RpcValue) (t : Tally)
        → HasCodeAt p url (address_of c) code
        → capture_deployed force p url c code ≡ ok (d, t)
        → IsSettled t
        → IsCaptured p url d
    unfolding capture_deployed capture_impl
    capture_deployed-verified c d code t deployed h (quiet, full) =
        let ((code_pin, first), one, h₁) =
          >>=-eq-ok (hash_and_pin force p url (code_hash_of c) (p.keccak256 code)) _ h in
        let ((impl_pin, second), two, h₂) = >>=-eq-ok (capture_impl force p url c) _ h₁ in
        let made = ok-value h₂ in
        let entry = ap (λ z. z.0) made in
        let conflicts : first.conflicts + second.conflicts ≡ 0 =
          ap (λ z. (z.1).conflicts) made ∙ quiet in
        let unpinned : first.unpinned + second.unpinned ≡ 0 =
          ap (λ z. (z.1).unpinned) made ∙ full in
        let (q, counts, is) =
          hash-Live (code_hash_of c) code_pin first code one (omega (arith, conflicts)) in
        let (impl, read, holds) =
          slot-Holds (impl_hash_of c) impl_pin second (read_eip1967_impl p url (address_of c)) two
            (omega (arith, conflicts), omega (arith, unpinned)) in
        subst (IsCaptured p url) entry (
          pins-IsCaptured p url c code_pin impl_pin (record {
            code = code;
            deployed = deployed;
            type_pinned = subst (λ z. PinHolds p z code) (sym counts) is;
            proxy = (impl, read, holds);
          }))

    -- An entry that is captured with no conflict and with nothing left unpinned is in the state that
    -- the on-chain validator asks for.
    pub capture_entry-verified :
        (c d : Entry) (t : Tally)
        → capture_entry force p url c ≡ ok (d, t)
        → IsSettled t
        → IsCaptured p url d
    unfolding capture_entry after_code
    capture_entry-verified c d t h settled =
        elim (Outcome-cases (raw_json_rpc p url (get_code (address_of c)))) [
          | inr (e, stopped) ↦
              absurd (unsettled (ap (after_code force p url c) (sym stopped) ∙ h) (settled.1))
          | inl (code, read) ↦
              let h₁ = ap (after_code force p url c) (sym read) ∙ h in
              elim (Bool-cases (has_code code)) [
                | inr empty ↦ absurd (
                    unsettled
                      (ap
                          (λ b.
                            if b
                            then capture_deployed force p url c code
                            else ok (c, left_unpinned))
                          (sym empty)
                        ∙ h₁)
                      (settled.1))
                | inl there ↦
                    capture_deployed-verified c d code t (read, there)
                      (ap
                          (λ b.
                            if b
                            then capture_deployed force p url c code
                            else ok (c, left_unpinned))
                          (sym there)
                        ∙ h₁)
                      settled
              ]
        ]
