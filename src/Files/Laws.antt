-- ===== src/Files/Laws.antt =====
-- Which names and paths are accepted.
use vinuchain_lists.Prelude.{
  ℕ, ◌≤◌, ◌≡◌, ◌≢◌, refl, sym, ◌↔◌, ◌⊎◌, inl, inr, true, false, not, List, [], ◌∷◌, ◌++◌, Text,
  codes, text_eq_iff, contains, contains_iff, Substring, Prefix, starts_with, starts_with_sound,
  any, All, ok, >>=-eq-ok, require-eq-ok, require-eq-ok_last, arith, Bool-cases,
}
use vinuchain_lists.FilePath.{join, resolve}
use vinuchain_lists.Files.{
  path_traversal, null_byte, control_character, escapes_base, has_traversal, is_control,
  validate_safe_filename, check_parts, is_within, safe_path_join,
}

-- Neither a separator nor a control character.
abbrev pub IsNameUnit : ℕ → Type 0
IsNameUnit c = (c ≢ b'/') × (c ≢ b'\\') × (32 ≤ c) × (c ≢ 127)

abbrev pub IsSafeName : Text → Type 0
IsSafeName t = (Substring (codes "..") t → ⊥) × All IsNameUnit t

contains_unit-false : (c : ℕ) (t : Text) → contains (c ∷ []) t ≡ false → All (λ d. d ≢ c) t
unfolding contains starts_with
contains_unit-false c [] h = tt
contains_unit-false c (d ∷ t) h = (ground (arith, h), contains_unit-false c t (ground (arith, h)))

contains_unit-absent : (c : ℕ) (t : Text) → All (λ d. d ≢ c) t → contains (c ∷ []) t ≡ false
unfolding contains starts_with
contains_unit-absent c [] h = refl
contains_unit-absent c (d ∷ t) (h, hs) = ground (arith, h, contains_unit-absent c t hs)

no_control : (t : Text) → (any is_control t ≡ false) ↔ All (λ c. (32 ≤ c) × (c ≢ 127)) t
no_control [] = (λ h. tt, λ h. refl)
no_control (c ∷ t) = (
  λ h. (ground (arith, h), (no_control t).0 (ground (arith, h))),
  λ (h, hs). ground (arith, h, (no_control t).1 hs),
)

All-zip :
    (t : Text)
    → All (λ d. d ≢ b'/') t
    → All (λ d. d ≢ b'\\') t
    → All (λ c. (32 ≤ c) × (c ≢ 127)) t
    → All IsNameUnit t
All-zip [] a b c = tt
All-zip (x ∷ t) (a, as_) (b, bs) ((c, d), cs) = ((a, b, c, d), All-zip t as_ bs cs)

traversal_sound :
    (t : Text)
    → has_traversal t ≡ false
    → (Substring (codes "..") t → ⊥) × All (λ d. d ≢ b'/') t × All (λ d. d ≢ b'\\') t
unfolding has_traversal
traversal_sound t h = (
  λ found. absurd (ground (arith, h, (contains_iff (codes "..") t).1 found)),
  contains_unit-false b'/' t (ground (arith, h)),
  contains_unit-false b'\\' t (ground (arith, h)),
)

filename_sound : (t : Text) → validate_safe_filename t ≡ ok tt → IsSafeName t
unfolding validate_safe_filename
filename_sound t h =
    let (plain, h₁) = require-eq-ok (not (has_traversal t)) path_traversal _ h in
    let (_, h₂) = require-eq-ok (not (contains (0 ∷ []) t)) null_byte _ h₁ in
    let printable = require-eq-ok_last (not (any is_control t)) control_character h₂ in
    let (dots, slash, backslash) = traversal_sound t (ground (arith, plain)) in
    (dots, All-zip t slash backslash ((no_control t).0 (ground (arith, printable))))

check_parts_sound : (parts : List Text) → check_parts parts ≡ ok tt → All IsSafeName parts
unfolding check_parts
check_parts_sound [] h = tt
check_parts_sound (part ∷ parts) h =
    let (u, first, rest) = >>=-eq-ok (validate_safe_filename part) _ h in
    (filename_sound part first, check_parts_sound parts rest)

is_within_sound :
    (base path : Text)
    → is_within base path ≡ true
    → Prefix (base ++ codes "/") path ⊎ (path ≡ base)
unfolding is_within
is_within_sound base path h = elim (Bool-cases (starts_with (base ++ codes "/") path)) [
  | inl below ↦ inl (starts_with_sound _ _ below)
  | inr elsewhere ↦ inr ((text_eq_iff path base).0 (rw elsewhere at h))
]

-- A joined path is the join of its parts, each of which has no `..`, no separator and no control
-- character, and it resolves to the base itself or to a path below it.
pub safe_path_join-eq-ok :
    (cwd base path : Text) (parts : List Text)
    → safe_path_join cwd base parts ≡ ok path
    → (path ≡ join base parts)
      × All IsSafeName parts
      × (Prefix (resolve cwd base ++ codes "/") (resolve cwd path)
          ⊎ (resolve cwd path ≡ resolve cwd base))
unfolding safe_path_join
safe_path_join-eq-ok cwd base path parts h =
    let (u, checked, h₁) = >>=-eq-ok (check_parts parts) _ h in
    let (within, h₂) =
      require-eq-ok (is_within (resolve cwd base) (resolve cwd (join base parts))) escapes_base _
        h₁ in
    let same : join base parts ≡ path = cc h₂ in
    (sym same, check_parts_sound parts checked, rw same at (is_within_sound _ _ within))
