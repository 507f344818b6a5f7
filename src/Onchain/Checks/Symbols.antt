-- ===== src/Onchain/Checks/Symbols.antt =====
-- The steps of `checkToken` that read symbol() and name().
use vinuchain_lists.Prelude.{
  ℕ, ◌≡◌, refl, ap, ◌⊎◌, inl, inr, false, Option, none, some, List, [], ◌∷◌, ◌++◌, Text, Outcome,
  ok, threw, arith, text_eq, text_eq_iff, text_eq_refl, Bool-cases, append-eq-nil,
}
use vinuchain_lists.Onchain.Rpc.{Failure, Platform}
use vinuchain_lists.Onchain.Checks.{
  Token, Report, Finding, symbol_failed, selector_name, lost_identity, read_symbol, read_name,
  call_string, check_impl, check_name, check_identity,
}
use vinuchain_lists.Onchain.Checks.Spec.{Decodes, Undecoded, NameMatches}
use vinuchain_lists.Onchain.Checks.Stages.{append-nil_of}

-- The name is read with no error, and identifies the token, exactly when it is the declared one.
read_name_sound :
    (declared : Option Text) (answer : Outcome Failure (Option Text))
    → (read_name declared answer).errors ≡ []
    → lost_identity false (read_name declared answer) ≡ []
    → NameMatches declared answer
unfolding read_name lost_identity
read_name_sound declared (threw e) h k = ground arith
read_name_sound declared (ok none) h k = ground arith
read_name_sound declared (ok (some [])) h k = ground arith
read_name_sound none (ok (some (c ∷ t))) h k = ground arith
read_name_sound (some name) (ok (some (c ∷ t))) h k =
    let same : c ∷ t ≡ name = ground (arith, text_eq_iff (c ∷ t) name) in
    (name, refl, (ap (λ z. ok (some z)) same, λ empty. cc (same, empty)))

read_name_complete :
    (declared : Option Text) (answer : Outcome Failure (Option Text))
    → NameMatches declared answer
    → ((read_name declared answer).errors ≡ [])
      × (lost_identity false (read_name declared answer) ≡ [])
unfolding read_name lost_identity
read_name_complete declared answer ([], is_declared, (answered, full)) = absurd (full refl)
read_name_complete declared answer (c ∷ t, is_declared, (answered, full)) =
    rw (is_declared, answered, text_eq_refl (c ∷ t)) (refl, refl)

-- What is asked of a text that `symbol()` decodes to: nothing, where the entry declares no symbol.
abbrev pub Agrees : Platform → Option Text → Text → Type 0
Agrees p none found = Unit
Agrees p (some symbol) found = p.upper_case found ≡ p.upper_case symbol

module _ (p : Platform) (url : Text) (token : Token) where
  check_name_sound :
      (report : Report)
      → (check_name p url token report false false).errors ≡ []
      → (report.errors ≡ [])
        × NameMatches token.name (call_string p url token.address selector_name)
        × (check_impl p url token.address token.impl_code_hash ≡ [])
  unfolding check_name
  check_name_sound report h =
      let n = read_name token.name (call_string p url token.address selector_name) in
      let (before, later) = append-eq-nil report.errors _ h in
      let (named, rest) = append-eq-nil n.errors _ later in
      let (kept, impl) = append-eq-nil (lost_identity false n) _ rest in
      (before, read_name_sound token.name _ named kept, impl)

  check_name_complete :
      (report : Report)
      → report.errors ≡ []
      → NameMatches token.name (call_string p url token.address selector_name)
      → check_impl p url token.address token.impl_code_hash ≡ []
      → (check_name p url token report false false).errors ≡ []
  unfolding check_name
  check_name_complete report before named impl =
      let (quiet, kept) = read_name_complete token.name _ named in simp (before, quiet, kept, impl)

  -- A text that agrees with the declared symbol, or the declared name where there is no text.
  abbrev pub Identified : Option Text → Outcome Failure (Option Text) → Type 0
  Identified declared answer =
      ((found : Text) × Decodes answer found × Agrees p declared found)
      ⊎ (Undecoded answer × NameMatches token.name (call_string p url token.address selector_name))

  -- What the symbol, the name and the slot establish together.
  abbrev pub Established : Option Text → Report → Outcome Failure (Option Text) → Type 0
  Established declared report answer =
      (report.errors ≡ [])
      × Identified declared answer
      × (check_impl p url token.address token.impl_code_hash ≡ [])

  abbrev pub identity_errors : Option Text → Report → Outcome Failure (Option Text) → List Finding
  identity_errors declared report answer =
      (check_identity p url token report (read_symbol p.upper_case declared answer)).errors

  found_sound :
      (declared : Option Text) (c : ℕ) (t : Text) (report : Report)
      → identity_errors declared report (ok (some (c ∷ t))) ≡ []
      → Established declared report (ok (some (c ∷ t)))
  unfolding check_identity read_symbol check_name
  found_sound none c t report h =
      let (before, impl) = append-eq-nil report.errors _ h in
      (before, inl (c ∷ t, (refl, λ empty. cc), tt), impl)
  found_sound (some symbol) c t report h =
      elim (Bool-cases (text_eq (p.upper_case (c ∷ t)) (p.upper_case symbol))) [
        | inl same ↦
            let (before, impl) = append-eq-nil report.errors _ (rw (same, identity_errors) at h) in
            (before, inl (c ∷ t, (refl, λ empty. cc), (text_eq_iff _ _).0 same), impl)
        | inr other ↦ cc ((append-eq-nil report.errors _ (rw (other, identity_errors) at h)).1)
      ]

  pub identity_sound :
      (declared : Option Text) (report : Report) (answer : Outcome Failure (Option Text))
      → identity_errors declared report answer ≡ []
      → Established declared report answer
  unfolding check_identity read_symbol
  identity_sound declared report (threw e) h =
      let (before, named, impl) =
        check_name_sound (record report { warnings = report.warnings ++ symbol_failed ∷ [] }) h in
      (before, inr (inr (inr (e, refl)), named), impl)
  identity_sound declared report (ok none) h =
      let (before, named, impl) =
        check_name_sound (record report { warnings = report.warnings ++ [] }) h in
      (before, inr (inl refl, named), impl)
  identity_sound declared report (ok (some [])) h =
      let (before, named, impl) =
        check_name_sound (record report { warnings = report.warnings ++ [] }) h in
      (before, inr (inr (inl refl), named), impl)
  identity_sound declared report (ok (some (c ∷ t))) h = found_sound declared c t report h

  found_complete :
      (declared : Option Text) (c : ℕ) (t : Text) (report : Report)
      → report.errors ≡ []
      → Agrees p declared (c ∷ t)
      → check_impl p url token.address token.impl_code_hash ≡ []
      → identity_errors declared report (ok (some (c ∷ t))) ≡ []
  unfolding check_identity read_symbol check_name
  found_complete none c t report before same impl = append-nil_of before impl
  found_complete (some symbol) c t report before same impl =
      rw ((text_eq_iff _ _).1 same, identity_errors) (append-nil_of before impl)

  pub identity_complete :
      (declared : Option Text) (report : Report) (answer : Outcome Failure (Option Text))
      → Established declared report answer
      → identity_errors declared report answer ≡ []
  unfolding check_identity read_symbol
  identity_complete declared report answer (before, inl ([], (answered, full), same), impl) =
      absurd (full refl)
  identity_complete declared report answer (before, inl (c ∷ t, (answered, full), same), impl) =
      rw answered (found_complete declared c t report before same impl)
  identity_complete declared report answer (before, inr (inl empty, named), impl) =
      rw empty (check_name_complete _ before named impl)
  identity_complete declared report answer (before, inr (inr (inl empty), named), impl) =
      rw empty (check_name_complete _ before named impl)
  identity_complete declared report answer (before, inr (inr (inr (e, failed)), named), impl) =
      rw failed (check_name_complete _ before named impl)
