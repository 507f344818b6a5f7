-- ===== src/Oracle/Update/Contract.antt =====
-- The checks of the script beside those of the contract.
use native.Mathlib.Nat.{add-mul, mul_comm, mul-le-mul_right, mul-le-mul_left}
use vinuchain_lists.Prelude.{
  ℕ, ◌+◌, ◌-◌, ◌*◌, ◌/◌, ◌^◌, ◌<◌, ◌≤◌, ◌≡◌, refl, sym, ap, subst, ◌∙◌, ◌⊎◌, inl, inr, true, false,
  ◌||◌, Text, text_eq_refl, to_lower, ltb, le→leb, arith, Bool-cases, ok, threw, ◌>>◌,
}
use vinuchain_lists.Oracle.Update.{
  ℤ, pos, negsuc, Oracle, answer_change_too_large, distance, Expected, allowed_bps,
  verify_oracle_for_update, view_of, checked_product, require_answer_in_bounds,
  require_small_change, set_answer, set_latest_answer,
}
use vinuchain_lists.Oracle.Update.Laws.{pos-injective, IsUpdatable, verify_oracle_for_update_iff}

checked_product-ok : (a b : ℕ) → a * b < 2 ^ 256 → checked_product a b ≡ ok (a * b)
unfolding checked_product
checked_product-ok a b h =
    let fits : ltb (a * b) (2 ^ 256) ≡ true = ground (arith, h) in rw fits refl

-- The ceiling of the contract on its bound, and an answer far from the limit of its numbers.
abbrev pub IsOrdinary : Oracle → Type 0
IsOrdinary c = (c.max_change_bps ≤ 2000) × ((p : ℕ) → c.answer ≡ pos p → p < 2 ^ 240)

products_fit :
    (d p m allowed : ℕ)
    → m ≤ 2000
    → allowed ≤ m
    → p < 2 ^ 240
    → d * 10000 < (allowed + 1) * p
    → (d * 10000 < 2 ^ 256) × (p * m < 2 ^ 256)
products_fit d p m allowed ceiling within small near =
    let first : (allowed + 1) * p ≤ 2001 * p =
      mul-le-mul_right p (omega (arith, ceiling, within)) in
    let second : p * m ≤ p * 2000 = mul-le-mul_left p ceiling in
    (omega (arith, first, small, near), omega (arith, second, small))

allowed-le : (x : Expected) (c : Oracle) → allowed_bps x (view_of c) ≤ c.max_change_bps
allowed-le x c = ground arith

-- The contract takes the step, or rejects it as too large.
step_taken :
    (c : Oracle) (p a : ℕ)
    → 0 < p
    → distance p a * 10000 < 2 ^ 256
    → p * c.max_change_bps < 2 ^ 256
    → ((require_small_change c (pos p) a ≡ ok tt) × (distance p a * 10000 ≤ p * c.max_change_bps))
      ⊎ ((require_small_change c (pos p) a ≡ threw (answer_change_too_large p a))
          × (p * c.max_change_bps < distance p a * 10000))
unfolding require_small_change
step_taken c p a positive first second =
    let go : ltb 0 p ≡ true = ground (arith, positive) in
    let one = checked_product-ok (distance p a) 10000 first in
    let two = checked_product-ok p c.max_change_bps second in
    elim (Bool-cases (ltb (p * c.max_change_bps) (distance p a * 10000))) [
      | inl far ↦ inr (rw (go, one, two, far) refl, ground (arith, far))
      | inr near ↦ inl (rw (go, one, two, near) refl, ground (arith, near))
    ]

-- The contract after an update.
abbrev pub updated : Oracle → ℕ → ℕ → Text → Oracle
updated c now a tag = record c { answer = pos a; source = tag; updated_at = now }

module _ (byte_length : Text → ℕ) (now : ℕ) (c : Oracle) (a : ℕ) (tag : Text) where
  set-step :
      0 < a
      → byte_length tag ≤ 32
      → c.min_answer ≤ a
      → a ≤ c.max_answer
      → set_latest_answer byte_length now c.owner c (pos a) tag
        ≡ (require_small_change c c.answer a >> ok (updated c now a tag))
  unfolding set_latest_answer set_answer require_answer_in_bounds
  set-step positive short over under =
      let inside : (ltb a c.min_answer || ltb c.max_answer a) ≡ false =
        ground (arith, over, under) in
      let some_answer : ltb 0 a ≡ true = ground (arith, positive) in
      rw (text_eq_refl c.owner, some_answer, le→leb (byte_length tag) 32 short, inside) refl

  -- What the call of the contract comes to: an update, or the rejection of a change that is over
  -- the contract's bound by less than one basis point.
  abbrev pub Settles : Type 0
  Settles =
      (set_latest_answer byte_length now c.owner c (pos a) tag ≡ ok (updated c now a tag))
      ⊎ ((p : ℕ) × (c.answer ≡ pos p)
          × (set_latest_answer byte_length now c.owner c (pos a) tag
              ≡ threw (answer_change_too_large p a))
          × (p * c.max_change_bps < distance p a * 10000)
          × (distance p a * 10000 < (c.max_change_bps + 1) * p))

  settles :
      (x : Expected) (previous : ℤ)
      → c.answer ≡ previous
      → IsOrdinary c
      → 0 < a
      → byte_length tag ≤ 32
      → IsUpdatable x (view_of c) a
      → Settles
  unfolding require_small_change
  settles x (negsuc n) before ordinary positive short u = inl (
      set-step positive short u.over_min u.under_max
      ∙ ap (λ z. require_small_change c z a >> ok (updated c now a tag)) before)
  settles x (pos p) before (ceiling, small) positive short u =
      let taken =
        set-step positive short u.over_min u.under_max
        ∙ ap (λ z. require_small_change c z a >> ok (updated c now a tag)) before in
      elim (Bool-cases (ltb 0 p)) [
        | inr first ↦ inl (taken ∙ rw first refl)
        | inl later ↦
            let later_lt : 0 < p = ground (arith, later) in
            let near = u.small_step p before later_lt in
            let (one, two) =
              products_fit (distance p a) p c.max_change_bps (allowed_bps x (view_of c)) ceiling
                (allowed-le x c) (small p before) near in
            let wide : (allowed_bps x (view_of c) + 1) * p ≤ (c.max_change_bps + 1) * p =
              mul-le-mul_right p (omega (arith, allowed-le x c)) in
            elim (step_taken c p a later_lt one two) [
              | inl (fine, _) ↦ inl (taken ∙ ap (λ z. z >> ok (updated c now a tag)) fine)
              | inr (refused, far) ↦ inr (
                p,
                before,
                taken ∙ ap (λ z. z >> ok (updated c now a tag)) refused,
                far,
                omega (arith, near, wide),
              )
            ]
      ]

  -- Where the contract's bound on a change is within its ceiling of 2000 basis points and its stored
  -- answer, if positive, is below 2 ^ 240: if the checks of the script pass on the state of the
  -- contract, the answer is positive and the tag is within 32 bytes, then the owner's call of the
  -- contract stores the answer, the tag and the time, or it reverts for one reason alone: the change
  -- is over the contract's bound, by less than one basis point.
  pub set_latest_answer-verified :
      (x : Expected)
      → IsOrdinary c
      → 0 < a
      → byte_length tag ≤ 32
      → verify_oracle_for_update x (view_of c) a ≡ ok tt
      → Settles
  set_latest_answer-verified x ordinary positive short h =
      settles x c.answer refl ordinary positive short
        ((verify_oracle_for_update_iff x (view_of c) a).0 h)

  -- The contract accepts a change that is within its bound.
  accepted :
      (p : ℕ)
      → c.answer ≡ pos p
      → IsOrdinary c
      → 0 < p
      → 0 < a
      → byte_length tag ≤ 32
      → c.min_answer ≤ a
      → a ≤ c.max_answer
      → distance p a * 10000 ≤ p * c.max_change_bps
      → set_latest_answer byte_length now c.owner c (pos a) tag ≡ ok (updated c now a tag)
  accepted p before (ceiling, small) first positive short over under near =
      let widest : p * c.max_change_bps ≤ p * 2000 = mul-le-mul_left p ceiling in
      let fits : p < 2 ^ 240 = small p before in
      let two : p * c.max_change_bps < 2 ^ 256 = omega (arith, widest, fits) in
      set-step positive short over under
      ∙ ap (λ z. require_small_change c z a >> ok (updated c now a tag)) before
      ∙ (elim (step_taken c p a first (omega (arith, near, two)) two) [
        | inl (fine, _) ↦ ap (λ z. z >> ok (updated c now a tag)) fine
        | inr (_, far) ↦ absurd (omega (arith, near, far))
      ])

-- The least answer above `p` that is over the bound of the contract.
abbrev pub first_over : ℕ → ℕ → ℕ
first_over p m = p + (p * m / 10000 + 1)

first_over_lem :
    (p m : ℕ)
    → 10000 < p
    → (p * m < distance p (first_over p m) * 10000)
      × (distance p (first_over p m) * 10000 < (m + 1) * p)
first_over_lem p m large =
    let step : distance p (first_over p m) ≡ p * m / 10000 + 1 = ground arith in
    let same : (m + 1) * p ≡ p * m + p =
      add-mul m 1 p ∙ (ap (λ z. z + 1 * p) (mul_comm m p) ∙ omega arith) in
    (omega (arith, step), omega (arith, step, same, large))

below_over : (p m b : ℕ) → p ≤ b → b < first_over p m → distance p b * 10000 ≤ p * m
below_over p m b above below =
    let step : distance p b ≡ b - p = ground (arith, above) in omega (arith, step, below)

-- Where the stored answer is over 10000 and below 2 ^ 240, the contract's bound on a change is at most
-- 2000 basis points and at most the script's own, the owner and the age agree, the tag is within 32
-- bytes, and the stored answer and its change by the bound, rounded down, and 1 are together within
-- the contract's bounds on an answer: that answer passes the checks of the script, the owner's call
-- of the contract with it reverts as too large a change, and the call with any answer from the stored
-- one up to it, if not under the contract's least, is accepted.
pub verify_oracle_for_update-reverts :
    (byte_length : Text → ℕ) (now : ℕ) (x : Expected) (c : Oracle) (p : ℕ) (tag : Text)
    → c.answer ≡ pos p
    → 10000 < p
    → IsOrdinary c
    → to_lower c.owner ≡ to_lower x.signer
    → c.max_age ≡ x.max_age
    → c.max_change_bps ≤ x.max_update_bps
    → c.min_answer ≤ first_over p c.max_change_bps
    → first_over p c.max_change_bps ≤ c.max_answer
    → byte_length tag ≤ 32
    → (b : ℕ) → p ≤ b
    → b < first_over p c.max_change_bps
    → c.min_answer ≤ b
    → (verify_oracle_for_update x (view_of c) (first_over p c.max_change_bps) ≡ ok tt)
      × (set_latest_answer byte_length now c.owner c (pos (first_over p c.max_change_bps)) tag
          ≡ threw (answer_change_too_large p (first_over p c.max_change_bps)))
      × (set_latest_answer byte_length now c.owner c (pos b) tag ≡ ok (updated c now b tag))
verify_oracle_for_update-reverts byte_length now x c p tag before large (ceiling, small) owner age
      wide over under short b above below inside =
    let a = first_over p c.max_change_bps in
    let (far, near) = first_over_lem p c.max_change_bps large in
    let allowed : allowed_bps x (view_of c) ≡ c.max_change_bps = ground (arith, wide) in
    let (one, two) =
      products_fit (distance p a) p c.max_change_bps c.max_change_bps ceiling (omega arith)
        (small p before) near in
    (
      (verify_oracle_for_update_iff x (view_of c) a).1 (record {
        has_code = refl;
        same_owner = owner;
        decimals = refl;
        description = refl;
        version = refl;
        max_age = age;
        over_min = over;
        under_max = under;
        small_step = λ q same positive.
            subst (λ z. distance z a * 10000 < (allowed_bps x (view_of c) + 1) * z)
              (pos-injective (sym before ∙ same))
              (subst (λ w. distance p a * 10000 < (w + 1) * p) (sym allowed) near);
      }),
      set-step byte_length now c a tag (omega arith) short over under
          ∙ ap (λ z. require_small_change c z a >> ok (updated c now a tag)) before
          ∙ (elim (step_taken c p a (omega (arith, large)) one two) [
            | inl (_, within) ↦ absurd (omega (arith, within, far))
            | inr (refused, _) ↦ ap (λ z. z >> ok (updated c now a tag)) refused
          ]),
      accepted byte_length now c b tag p before (ceiling, small) (omega arith) (omega arith) short
          inside (omega arith) (below_over p c.max_change_bps b above below),
    )
