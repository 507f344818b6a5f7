-- ===== src/Oracle/Update/Laws.antt =====
-- What the checks before an update let through, and what the contract then does.
use native.Mathlib.Nat.{div-lt_iff_lt-mul}
use vinuchain_lists.Prelude.{
  ℕ, ◌+◌, ◌*◌, ◌<◌, ◌≤◌, ◌≡◌, refl, sym, ap, ◌∙◌, ◌↔◌, inl, inr, true, ◌||◌, not, codes, text_eq,
  text_eq_iff, to_lower, ltb, ◌==◌, ==_iff, arith, Bool-cases, ok, require-eq-ok,
}
use vinuchain_lists.Oracle.Update.{
  ℤ, pos, negsuc, no_code, wrong_owner, wrong_decimals, wrong_description, wrong_version,
  wrong_max_age, outside_bounds, distance, deviation_bps_big, OracleView, Expected, allowed_bps,
  check_deviation, verify_oracle_for_update,
}

-- A previous answer that is positive, and by how much the new one may differ, in basis points: less
-- than one more than the bound, since the fraction of the deviation is dropped.
abbrev pub IsSmallStep : ℤ → ℕ → ℕ → Type 0
IsSmallStep previous allowed answer =
    (p : ℕ) → previous ≡ pos p → 0 < p → distance p answer * 10000 < (allowed + 1) * p

pub record IsUpdatable (x : Expected) (o : OracleView) (answer : ℕ) : Type 0 where
  pub has_code : o.has_code ≡ true
  pub same_owner : to_lower o.owner ≡ to_lower x.signer
  pub decimals : o.decimals ≡ 8
  pub description : o.description ≡ codes "VC / USD"
  pub version : o.version ≡ 1
  pub max_age : o.max_age ≡ x.max_age
  pub over_min : o.min_answer ≤ answer
  pub under_max : answer ≤ o.max_answer
  pub small_step : IsSmallStep o.previous (allowed_bps x o) answer

pub pos-injective : {p q : ℕ} → pos p ≡ pos q → p ≡ q
pos-injective h = cc h

positive-step_iff :
    (q allowed answer : ℕ)
    → 0 < q
    → (check_deviation (pos q) allowed answer ≡ ok tt)
      ↔ (distance q answer * 10000 < (allowed + 1) * q)
unfolding check_deviation deviation_bps_big
positive-step_iff q allowed answer h =
    let positive : ltb 0 q ≡ true = ground (arith, h) in
    let bound = div-lt_iff_lt-mul {k = q} {x = distance q answer * 10000} {y = allowed + 1} h in
    elim (Bool-cases (ltb allowed (deviation_bps_big q answer))) [
      | inl far ↦ (λ e. cc (rw (positive, far) at e), λ b. absurd (ground (arith, far, bound.1 b)))
      | inr near ↦ (λ _. bound.0 (ground (arith, near)), λ _. rw (positive, near) refl)
    ]

check_deviation_iff :
    (previous : ℤ) (allowed answer : ℕ)
    → (check_deviation previous allowed answer ≡ ok tt) ↔ IsSmallStep previous allowed answer
unfolding check_deviation
check_deviation_iff (negsuc n) allowed answer = (λ _ p h. cc h, λ _. refl)
check_deviation_iff (pos q) allowed answer = (
  λ h p same positive.
      let e = pos-injective same in
      (positive-step_iff p allowed answer positive).0
        (ap (λ x. check_deviation (pos x) allowed answer) (sym e) ∙ h),
  λ small. elim (Bool-cases (ltb 0 q)) [
    | inl positive ↦
        let h : 0 < q = ground (arith, positive) in
        (positive-step_iff q allowed answer h).1 (small q refl h)
    | inr empty ↦ rw empty refl
  ],
)

-- The checks of the script pass exactly when there is code, the owner is the signer, case apart,
-- decimals, description, version and age are the expected ones, the answer is within the bounds of the
-- oracle, and it differs from a positive previous answer by less than one basis point more than the
-- lesser of the two bounds.
pub verify_oracle_for_update_iff :
    (x : Expected) (o : OracleView) (answer : ℕ)
    → (verify_oracle_for_update x o answer ≡ ok tt) ↔ IsUpdatable x o answer
unfolding verify_oracle_for_update
verify_oracle_for_update_iff x o answer = (
  λ h.
      let (code, h₁) = require-eq-ok o.has_code no_code _ h in
      let (owner, h₂) =
        require-eq-ok (text_eq (to_lower o.owner) (to_lower x.signer)) wrong_owner _ h₁ in
      let (decimals, h₃) = require-eq-ok (o.decimals == 8) wrong_decimals _ h₂ in
      let (description, h₄) =
        require-eq-ok (text_eq o.description (codes "VC / USD")) wrong_description _ h₃ in
      let (version, h₅) = require-eq-ok (o.version == 1) wrong_version _ h₄ in
      let (age, h₆) = require-eq-ok (o.max_age == x.max_age) wrong_max_age _ h₅ in
      let (inside, h₇) =
        require-eq-ok (not (ltb answer o.min_answer || ltb o.max_answer answer)) outside_bounds _
          h₆ in
      record {
        has_code = code;
        same_owner = (text_eq_iff _ _).0 owner;
        decimals = (==_iff _ _).0 decimals;
        description = (text_eq_iff _ _).0 description;
        version = (==_iff _ _).0 version;
        max_age = (==_iff _ _).0 age;
        over_min = ground (arith, inside);
        under_max = ground (arith, inside);
        small_step = (check_deviation_iff o.previous (allowed_bps x o) answer).0 h₇;
      },
  λ u.
      let inside : not (ltb answer o.min_answer || ltb o.max_answer answer) ≡ true =
        ground (arith, u.over_min, u.under_max) in
      rw
        (
          u.has_code,
          (text_eq_iff _ _).1 u.same_owner,
          (==_iff _ _).1 u.decimals,
          (text_eq_iff _ _).1 u.description,
          (==_iff _ _).1 u.version,
          (==_iff _ _).1 u.max_age,
          inside,
        )
        ((check_deviation_iff o.previous (allowed_bps x o) answer).1 u.small_step),
)
