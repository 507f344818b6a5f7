-- ===== src/Solidity/Laws.antt =====
-- Which sources are accepted.
use mathlib.Core.List.{reverse-cons}
use vinuchain_lists.Prelude.{
  suc, subst, length-append, In-append_right, or-eq-true, ℕ, ◌≤◌, ◌≡◌, refl, sym, ap, ◌∙◌, ◌↔◌, ◌⊎◌,
  inl, inr, true, false, not, List, [], ◌∷◌, ◌++◌, reverse, Text, codes, length, trim, trim_start,
  contains, is_space, In, All, leb, leb→le, le→leb, ◌==◌, arith, Bool-cases, if◌then◌else◌, ok,
  require-eq-ok,
}
use vinuchain_lists.Regex.{matches_somewhere}
use vinuchain_lists.Regex.Laws.{Matches}
use vinuchain_lists.Regex.Classes.{somewhere_iff}
use vinuchain_lists.Solidity.{
  SolidityWarning, empty_file, file_too_large, missing_pragma, no_declaration, missing_spdx,
  max_solidity_file_size, pragma_pattern, declaration, has_declaration, is_blank, version_of,
  version_warnings, check_dangerous_patterns, security_warnings, validate_solidity_structure,
}
use vinuchain_lists.Solidity.Declarations.{abstract-contract}

-- The three keywords under which a declaration is found.
abbrev pub keywords : List Text
keywords = codes "contract" ∷ codes "interface" ∷ codes "library" ∷ []

-- Somewhere stand a keyword, white space, the name, and a brace behind it.
abbrev pub Declares : Text → Text → Type 0
Declares content name =
    (keyword : Text) × (u : Text) × (v : Text) × (w : Text) × In keyword keywords
    × (content ≡ u ++ (v ++ w))
    × Matches (declaration keyword name) v

abbrev pub HasPragma : Text → Type 0
HasPragma content =
    (u : Text) × (v : Text) × (w : Text) × (content ≡ u ++ (v ++ w)) × Matches pragma_pattern v

-- Some code unit is not white space, the size is within the limit, and there are a pragma and a
-- declaration of the name.
abbrev pub IsSource : Text → Text → Type 0
IsSource content name =
    ((c : ℕ) × In c content × (is_space c ≡ false))
    × (length content ≤ max_solidity_file_size)
    × HasPragma content
    × Declares content name

declared :
    (content name keyword : Text)
    → In keyword keywords
    → matches_somewhere (declaration keyword name) content ≡ true
    → Declares content name
declared content name keyword listed h =
    let (u, v, w, e, m) = (somewhere_iff (declaration keyword name) content).0 h in
    (keyword, u, v, w, listed, e, m)

has_declaration_sound :
    (content name : Text) → has_declaration content name ≡ true → Declares content name
unfolding has_declaration
has_declaration_sound content name h = elim ((or-eq-true _ _).0 h) [
  | inl found ↦ declared content name (codes "contract") (inl refl) found
  | inr h₁ ↦ elim ((or-eq-true _ _).0 h₁) [
    | inl found ↦ declared content name (codes "interface") (inr (inl refl)) found
    | inr h₂ ↦ elim ((or-eq-true _ _).0 h₂) [
      | inl found ↦ declared content name (codes "library") (inr (inr (inl refl))) found
      | inr found ↦
          declared content name (codes "contract") (inl refl) (abstract-contract content name found)
    ]
  ]
]

has_declaration_complete :
    (content name : Text) → Declares content name → has_declaration content name ≡ true
unfolding has_declaration
has_declaration_complete content name (keyword, u, v, w, listed, e, m) =
    let found = (somewhere_iff (declaration keyword name) content).1 (u, v, w, e, m) in
    elim listed [
      | inl k ↦ ground (arith, ap (λ x. matches_somewhere (declaration x name) content) k ∙ found)
      | inr (inl k) ↦
          ground (arith, ap (λ x. matches_somewhere (declaration x name) content) k ∙ found)
      | inr (inr (inl k)) ↦
          ground (arith, ap (λ x. matches_somewhere (declaration x name) content) k ∙ found)
      | inr (inr (inr never)) ↦ absurd never
    ]

abbrev IsSpace : ℕ → Type 0
IsSpace c = is_space c ≡ true

trim_start-spaces : (t : Text) → All IsSpace t → trim_start t ≡ []
unfolding trim_start
trim_start-spaces [] h = refl
trim_start-spaces (c ∷ t) (h, hs) = rw h (trim_start-spaces t hs)

-- The first code unit that trimming leaves is not white space.
trim_start-cons :
    (t : Text) (c : ℕ)
    → In c t
    → is_space c ≡ false
    → (d : ℕ) × (u : Text) × (trim_start t ≡ d ∷ u) × (is_space d ≡ false)
unfolding trim_start
trim_start-cons [] c m h = absurd m
trim_start-cons (x ∷ t) c m h = elim (Bool-cases (is_space x)) [
  | inr plain ↦ (x, t, rw plain refl, plain)
  | inl blank ↦ elim m [
    | inl e ↦ absurd (ground (arith, blank, h, ap is_space e))
    | inr later ↦ let (d, u, e, k) = trim_start-cons t c later h in (d, u, rw blank e, k)
  ]
]

spaces_or_plain : (t : Text) → All IsSpace t ⊎ ((c : ℕ) × In c t × (is_space c ≡ false))
spaces_or_plain [] = inl tt
spaces_or_plain (c ∷ t) = elim (Bool-cases (is_space c)) [
  | inr plain ↦ inr (c, inl refl, plain)
  | inl blank ↦ elim (spaces_or_plain t) [
    | inl all ↦ inl (blank, all)
    | inr (d, m, plain) ↦ inr (d, inr m, plain)
  ]
]

In-reverse_head : (d : ℕ) (u : Text) → In d (reverse (d ∷ u))
In-reverse_head d u =
    subst (In d) (sym (reverse-cons d u)) (In-append_right d (reverse u) (d ∷ []) (inl refl))

cons-not_blank : (d : ℕ) (u : Text) → (length (reverse (d ∷ u)) == 0) ≡ false
cons-not_blank d u =
    let size : length (reverse (d ∷ u)) ≡ suc (length (reverse u)) =
      ap length (reverse-cons d u) ∙ (length-append (reverse u) (d ∷ []) ∙ omega arith) in
    rw size (ground arith)

trim_blank : (t : Text) → All IsSpace t → is_blank t ≡ true
unfolding trim trim_start
trim_blank t h = rw (trim, trim_start-spaces t h) refl

trim_plain : (t : Text) (c : ℕ) → In c t → is_space c ≡ false → is_blank t ≡ false
unfolding trim
trim_plain t c m h =
    let (d, u, e, plain) = trim_start-cons t c m h in
    let (f, v, e₂, _) = trim_start-cons (reverse (d ∷ u)) d (In-reverse_head d u) plain in
    rw (trim, e, e₂) (cons-not_blank f v)

-- The warnings of a source that is accepted, in their order.
abbrev warnings_of : Text → List SolidityWarning
warnings_of content =
    (if contains (codes "// SPDX-License-Identifier:") content then [] else missing_spdx ∷ [])
    ++ (version_warnings (version_of content)
        ++ (check_dangerous_patterns content ++ security_warnings content))

-- A source is accepted, with some warnings, exactly when it is not blank, is within the size limit, has
-- a pragma, and has a keyword, the name behind white space, and a brace somewhere behind the name.
pub validate_solidity_structure_iff :
    (content name : Text)
    → ((ws : List SolidityWarning) × (validate_solidity_structure content name ≡ ok ws))
      ↔ IsSource content name
unfolding validate_solidity_structure
validate_solidity_structure_iff content name = (
  λ (ws, h).
      let (full, h₁) = require-eq-ok (not (is_blank content)) empty_file _ h in
      let (small, h₂) =
        require-eq-ok (leb (length content) max_solidity_file_size)
          (file_too_large (length content)) _ h₁ in
      let (pragma, h₃) =
        require-eq-ok (matches_somewhere pragma_pattern content) missing_pragma _ h₂ in
      let (named, _) = require-eq-ok (has_declaration content name) no_declaration _ h₃ in
      (
        (elim (spaces_or_plain content) [
          | inl all ↦ absurd (ground (arith, full, trim_blank content all))
          | inr found ↦ found
        ]),
        leb→le (length content) max_solidity_file_size small,
        (somewhere_iff pragma_pattern content).0 pragma,
        has_declaration_sound content name named,
      ),
  λ ((c, m, plain), small, pragma, named). (
    warnings_of content,
    rw
        (
          trim_plain content c m plain,
          le→leb (length content) max_solidity_file_size small,
          (somewhere_iff pragma_pattern content).1 pragma,
          has_declaration_complete content name named,
        )
        refl,
  ),
)
