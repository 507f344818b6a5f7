-- ===== src/SafeJson/Terminal.antt =====
-- What is printed on the terminal.
use vinuchain_lists.Prelude.{
  ℕ, ◌≡◌, refl, ap, ◌∙◌, inl, inr, false, not, [], ◌∷◌, Text, filter_by, All, ◌==◌, arith,
  Bool-cases,
}
use vinuchain_lists.SafeJson.{code_length, drop_codes, is_control_unit, sanitize_for_terminal}

-- The code unit is none of the control characters.
abbrev pub IsPrintable : ℕ → Type 0
IsPrintable c = is_control_unit c ≡ false

filter-IsPrintable : (t : Text) → All IsPrintable (filter_by (λ c. not (is_control_unit c)) t)
filter-IsPrintable [] = tt
filter-IsPrintable (c ∷ t) = elim (Bool-cases (is_control_unit c)) [
  | inl control ↦ rw control (filter-IsPrintable t)
  | inr plain ↦ rw plain (plain, filter-IsPrintable t)
]

filter_same : (t : Text) → All IsPrintable t → filter_by (λ c. not (is_control_unit c)) t ≡ t
filter_same [] h = refl
filter_same (c ∷ t) (h, hs) = rw h (ap (λ u. c ∷ u) (filter_same t hs))

no_code : (t : Text) → All IsPrintable t → code_length t ≡ 0
unfolding code_length
no_code [] h = refl
no_code (e ∷ []) h = refl
no_code (e ∷ b ∷ t) (h, _) = let plain : (e == 27) ≡ false = ground (arith, h) in rw plain refl

drop_same : (t : Text) → All IsPrintable t → drop_codes 0 t ≡ t
unfolding drop_codes
drop_same [] h = refl
drop_same (c ∷ t) (h, hs) =
    rw (drop_codes, no_code (c ∷ t) (h, hs)) (ap (λ u. c ∷ u) (drop_same t hs))

-- What is printed has no control character, and a text without one is printed as it is.
pub sanitize_for_terminal_lem :
    (t : Text)
    → All IsPrintable (sanitize_for_terminal t) × (All IsPrintable t → sanitize_for_terminal t ≡ t)
unfolding sanitize_for_terminal
sanitize_for_terminal_lem t = (
  filter-IsPrintable (drop_codes 0 t),
  λ h. ap (filter_by (λ c. not (is_control_unit c))) (drop_same t h) ∙ filter_same t h,
)
