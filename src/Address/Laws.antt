-- ===== src/Address/Laws.antt =====
-- Which addresses and directory names are accepted.
use vinuchain_lists.Prelude.{
  ℕ, ◌≡◌, ◌≢◌, refl, sym, ap, ◌∙◌, ◌↔◌, inl, inr, true, false, not, Option, none, some, [], ◌∷◌,
  ◌++◌, Text, codes, text_eq, text_eq_iff, text_eq_refl, length, contains, All, All-map,
  All-append_right, contains_iff, ◌==◌, ok, >>=-eq-ok, require-eq-ok, require-eq-ok_last, arith,
  Bool-cases, and-eq-true, starts_with_sound, Prefix,
}
use vinuchain_lists.Regex.{matches}
use vinuchain_lists.Regex.Laws.{matches_iff}
use vinuchain_lists.Regex.Classes.{Accepted, seq-text_iff, times_iff}
use vinuchain_lists.FilePath.{join, resolve}
use vinuchain_lists.Files.{has_traversal}
use vinuchain_lists.Address.{
  bad_format, zero_address, bad_directory, traversal, escapes_parent, mismatch, bad_checksum,
  is_hex, address_pattern, address_length, is_valid_address_format, zero_address_text,
  compare_checksum, validate_eip55_checksum, validate_address_directory,
  validate_address_matches_directory, validate_token_address,
}

-- `0x` and forty hexadecimal digits.
abbrev pub IsAddress : Text → Type 0
IsAddress t = (u : Text) × (t ≡ codes "0x" ++ u) × (length u ≡ 40) × All (Accepted is_hex) u

pattern_iff : (t : Text) → (matches address_pattern t ≡ true) ↔ IsAddress t
pattern_iff t = (
  λ h.
      let (u, e, m) = (seq-text_iff (codes "0x") _ t).0 ((matches_iff address_pattern t).0 h) in
      let (size, hex) = (times_iff is_hex 40 u).0 m in (u, e, size, hex),
  λ (u, e, size, hex).
      (matches_iff address_pattern t).1
        ((seq-text_iff (codes "0x") _ t).1 (u, e, (times_iff is_hex 40 u).1 (size, hex))),
)

-- The test of the format accepts exactly the texts that are `0x` and forty hexadecimal digits.
pub is_valid_address_format_iff : (t : Text) → (is_valid_address_format t ≡ true) ↔ IsAddress t
unfolding is_valid_address_format
is_valid_address_format_iff t = (
  λ h.
      let (size, shaped) = and-eq-true (length t == address_length) _ h in (pattern_iff t).0 shaped,
  λ (u, e, size, hex).
      let long : length t ≡ 42 = ap length e ∙ omega (arith, size) in
      rw (long, (pattern_iff t).1 (u, e, size, hex)) refl,
)

-- A code unit of an address is none of those that lead out of a directory.
abbrev IsPlain : ℕ → Type 0
IsPlain c = (c ≢ b'.') × (c ≢ b'/') × (c ≢ b'\\')

hex-IsPlain : (c : ℕ) → Accepted is_hex c → IsPlain c
hex-IsPlain c h = ground arith

address-IsPlain : (t : Text) → IsAddress t → All IsPlain t
address-IsPlain t (u, e, size, hex) = rw e (ground arith, (ground arith, All-map hex-IsPlain u hex))

-- A text without `c` has no substring that begins with `c`.
contains_absent : (c : ℕ) (p t : Text) → All (λ d. d ≢ c) t → contains (c ∷ p) t ≡ false
contains_absent c p t h = elim (Bool-cases (contains (c ∷ p) t)) [
  | inl found ↦
      let (u, v, e) = (contains_iff (c ∷ p) t).0 found in
      let (differs, _) = All-append_right (λ d. d ≢ c) u (c ∷ (p ++ v)) (rw e at h) in
      absurd (differs refl)
  | inr absent ↦ absent
]

-- No address has a traversal in it.
pub has_traversal-address : (t : Text) → IsAddress t → has_traversal t ≡ false
unfolding has_traversal
has_traversal-address t h =
    let plain = address-IsPlain t h in
    rw
      (
        contains_absent b'.' (b'.' ∷ []) t (All-map (λ c (x, y, z). x) t plain),
        contains_absent b'/' [] t (All-map (λ c (x, y, z). y) t plain),
        contains_absent b'\\' [] t (All-map (λ c (x, y, z). z) t plain),
      )
      refl

module _ (get_address : Text → Option Text) where
  checksum_sound :
      (t c : Text) (o : Option Text)
      → compare_checksum get_address t o ≡ ok c
      → (c ≡ t) × (o ≡ some t)
  unfolding compare_checksum
  checksum_sound t c none h = cc h
  checksum_sound t c (some s) h =
      let (same, h₁) = require-eq-ok (text_eq t s) (bad_checksum s) _ h in
      let equal = (text_eq_iff t s).0 same in
      let value : s ≡ c = cc h₁ in (sym (equal ∙ value), ap some (sym equal))

  eip55_sound :
      (t c : Text)
      → validate_eip55_checksum get_address t ≡ ok c
      → (c ≡ t) × IsAddress t × (t ≢ zero_address_text) × (get_address t ≡ some t)
  unfolding validate_eip55_checksum
  eip55_sound t c h =
      let (shaped, h₁) = require-eq-ok (is_valid_address_format t) bad_format _ h in
      let (other, h₂) = require-eq-ok (not (text_eq t zero_address_text)) zero_address _ h₁ in
      let (same, found) = checksum_sound t c (get_address t) h₂ in
      (
        same,
        (is_valid_address_format_iff t).0 shaped,
        λ e. absurd (ground (arith, other, (text_eq_iff t zero_address_text).1 e)),
        found,
      )

  eip55_complete :
      (t : Text)
      → IsAddress t
      → (t ≢ zero_address_text)
      → (get_address t ≡ some t)
      → validate_eip55_checksum get_address t ≡ ok t
  unfolding validate_eip55_checksum compare_checksum
  eip55_complete t shaped other found = elim (Bool-cases (text_eq t zero_address_text)) [
    | inl same ↦ absurd (other ((text_eq_iff t zero_address_text).0 same))
    | inr differs ↦
        rw ((is_valid_address_format_iff t).1 shaped, differs, found, text_eq_refl t) refl
  ]

  -- An address passes, with some value, exactly when it is `0x` and forty hexadecimal digits, is not
  -- the zero address, and has the checksum that `getAddress` gives it; the value is then the address
  -- itself.
  pub validate_eip55_checksum_iff :
      (t c : Text)
      → (validate_eip55_checksum get_address t ≡ ok c)
        ↔ ((c ≡ t) × IsAddress t × (t ≢ zero_address_text) × (get_address t ≡ some t))
  validate_eip55_checksum_iff t c =
      (eip55_sound t c, λ (e, shaped, other, found). rw e (eip55_complete t shaped other found))

  -- Where a token is accepted, its address is the name of its directory, that name is a checksummed
  -- address other than zero and without a traversal, and the directory it names resolves to a path
  -- below the parent.
  pub validate_token_address-eq-ok :
      (cwd parent address name c : Text)
      → validate_token_address get_address cwd parent address name ≡ ok c
      → (address ≡ name)
        × (c ≡ name)
        × IsAddress name
        × (name ≢ zero_address_text)
        × (get_address name ≡ some name)
        × (has_traversal name ≡ false)
        × Prefix (resolve cwd parent ++ codes "/") (resolve cwd (join parent (name ∷ [])))
  unfolding validate_token_address validate_address_directory validate_address_matches_directory
  validate_token_address-eq-ok cwd parent address name c h =
      let (u, entered, h₁) = >>=-eq-ok (validate_address_directory cwd name parent) _ h in
      let (s, checked, h₂) = >>=-eq-ok (validate_eip55_checksum get_address address) _ h₁ in
      let (matched, h₃) = require-eq-ok (text_eq address name) mismatch _ h₂ in
      let equal = (text_eq_iff address name).0 matched in
      let (value, shaped, other, found) = eip55_sound name s (rw equal at checked) in
      let (_, h₄) = require-eq-ok (is_valid_address_format name) bad_directory _ entered in
      let (_, h₅) = require-eq-ok (not (has_traversal name)) traversal _ h₄ in
      let below = require-eq-ok_last _ escapes_parent h₅ in
      let kept : s ≡ c = cc h₃ in
      (
        equal,
        sym kept ∙ value,
        shaped,
        other,
        found,
        has_traversal-address name shaped,
        starts_with_sound _ _ below,
      )
