-- ===== src/Logo/Laws.antt =====
-- What an accepted logo is.
use vinuchain_lists.Prelude.{
  ℕ, ◌≤◌, ◌≡◌, refl, sym, ap, subst, ◌∙◌, ◌⊎◌, inl, inr, Bool, true, false, ◌||◌, Option, some,
  List, [], ◌∷◌, ◌++◌, Text, codes, text_eq, text_eq_iff, to_lower, take, drop, map, ◌%◌, In, leb,
  ltb, leb→le, if◌then◌else◌, Outcome, ok, threw, ◌>>=◌, >>=-eq-ok, require-eq-ok, Bool-cases,
  and-eq-true, Option-cases,
}
use vinuchain_lists.FilePath.{join}
use vinuchain_lists.FileSystem.{FileSystem, FileError}
use vinuchain_lists.Logo.{
  Format, png, jpg, webp, wrong_extension, LogoError, LogoWarning, large, cannot_read,
  cannot_read_header, too_large, logo_size_warning, logo_size_error, allowed_extensions, png_magic,
  jpg_magic, riff_magic, find_logo, find_logo_file, is_webp, validate_magic_bytes, or_fail,
  check_logo, validate_logo,
}

-- The first bytes are those of the format.
abbrev pub HasMagic : Format → List ℕ → Type 0
HasMagic png bytes = take 8 bytes ≡ png_magic
HasMagic jpg bytes = take 3 bytes ≡ jpg_magic
HasMagic webp bytes =
    (take 4 bytes ≡ riff_magic) × (map (λ b. b % 128) (take 4 (drop 8 bytes)) ≡ codes "WEBP")

abbrev pub extensions_of : Format → List Text
extensions_of png = codes ".png" ∷ []
extensions_of jpg = codes ".jpg" ∷ codes ".jpeg" ∷ []
extensions_of webp = codes ".webp" ∷ []

extension_sound :
    (test : Bool) (found format : Format)
    → (if test then ok found else threw (wrong_extension found)) ≡ ok format
    → (test ≡ true) × (found ≡ format)
extension_sound true found format h = (refl, cc h)
extension_sound false found format h = cc h

module _ (bytes : List ℕ) (ext : Text) where
  abbrev Typed : Format → Type 0
  Typed format = HasMagic format bytes × In (to_lower ext) (extensions_of format)

  jpg_extension :
      ((text_eq (to_lower ext) (codes ".jpg") || text_eq (to_lower ext) (codes ".jpeg")) ≡ true)
      → In (to_lower ext) (extensions_of jpg)
  jpg_extension h = elim (Bool-cases (text_eq (to_lower ext) (codes ".jpg"))) [
    | inl short ↦ inl (sym ((text_eq_iff _ _).0 short))
    | inr other ↦ inr (inl (sym ((text_eq_iff _ _).0 (rw other at h))))
  ]

  webp_sound : is_webp bytes ≡ true → HasMagic webp bytes
  unfolding is_webp
  webp_sound h =
      let (riff, name) = and-eq-true (text_eq (take 4 bytes) riff_magic) _ h in
      ((text_eq_iff _ _).0 riff, (text_eq_iff _ _).0 name)

  magic_sound : (format : Format) → validate_magic_bytes bytes ext ≡ ok format → Typed format
  unfolding validate_magic_bytes
  magic_sound format h = elim (Bool-cases (text_eq (take 8 bytes) png_magic)) [
    | inl is_png ↦
        let (named, same) =
          extension_sound (text_eq (to_lower ext) (codes ".png")) png format (rw is_png at h) in
        subst Typed same ((text_eq_iff _ _).0 is_png, inl (sym ((text_eq_iff _ _).0 named)))
    | inr not_png ↦ elim (Bool-cases (text_eq (take 3 bytes) jpg_magic)) [
      | inl is_jpg ↦
          let (named, same) =
            extension_sound
              (text_eq (to_lower ext) (codes ".jpg") || text_eq (to_lower ext) (codes ".jpeg")) jpg
              format (rw (not_png, is_jpg) at h) in
          subst Typed same ((text_eq_iff _ _).0 is_jpg, jpg_extension named)
      | inr not_jpg ↦ elim (Bool-cases (is_webp bytes)) [
        | inl is_riff ↦
            let (named, same) =
              extension_sound (text_eq (to_lower ext) (codes ".webp")) webp format
                (rw (not_png, not_jpg, is_riff) at h) in
            subst Typed same (webp_sound is_riff, inl (sym ((text_eq_iff _ _).0 named)))
        | inr not_riff ↦ cc (rw (not_png, not_jpg, not_riff) at h)
      ]
    ]
  ]

or_fail-eq-ok :
    {A B : Type 0} (f : FileError → LogoError) (m : Outcome FileError A)
    (k : A → Outcome LogoError B) {b : B}
    → (or_fail f m >>= k) ≡ ok b
    → (a : A) × (m ≡ ok a) × (k a ≡ ok b)
unfolding or_fail
or_fail-eq-ok f (ok a) k h = (a, refl, h)
or_fail-eq-ok f (threw e) k h = cc h

-- `ext` is the first of the extensions under which the logo of `address` exists.
abbrev pub IsFirstExtension : FileSystem → Text → Text → Text → List Text → Type 0
IsFirstExtension fs dir address ext [] = ⊥
IsFirstExtension fs dir address ext (e ∷ es) =
    ((e ≡ ext) × (fs.exists (join dir ((address ++ e) ∷ [])) ≡ true))
    ⊎ ((fs.exists (join dir ((address ++ e) ∷ [])) ≡ false)
        × IsFirstExtension fs dir address ext es)

pair-injective :
    {A B : Type 0} {a c : A} {b d : B}
    → ◌≡◌ {A = Option (A × B)} (some (a, b)) (some (c, d))
    → (a ≡ c) × (b ≡ d)
pair-injective {A} {B} {a} {c} {b} {d} h =
    let e : ◌≡◌ {A = A × B} (a, b) (c, d) = cc h in (ap (λ p. p.0) e, ap (λ p. p.1) e)

find_logo_sound :
    (fs : FileSystem) (dir address path ext : Text) (exts : List Text)
    → find_logo fs dir address exts ≡ some (path, ext)
    → (path ≡ join dir ((address ++ ext) ∷ [])) × IsFirstExtension fs dir address ext exts
unfolding find_logo
find_logo_sound fs dir address path ext [] h = cc h
find_logo_sound fs dir address path ext (e ∷ es) h =
    elim (Bool-cases (fs.exists (join dir ((address ++ e) ∷ [])))) [
      | inl there ↦
          let found : ◌≡◌ {A = Option (Text × Text)} (some (join dir ((address ++ e) ∷ []), e))
              (some (path, ext)) =
            rw there at h in
          let (named, same) = pair-injective found in
          (sym named ∙ ap (λ x. join dir ((address ++ x) ∷ [])) same, inl (same, there))
      | inr absent ↦
          let (named, first) = find_logo_sound fs dir address path ext es (rw absent at h) in
          (named, inr (absent, first))
    ]

-- An accepted logo is the file of the first extension under which one exists; its size is within the
-- limit, its first bytes are those of a known format, the extension is one of that format, and there
-- is a warning exactly when the size is over the recommended one.
pub validate_logo-eq-ok :
    (fs : FileSystem) (dir address : Text) (ws : List LogoWarning)
    → validate_logo fs dir address ≡ ok ws
    → (ext : Text) × (size : ℕ) × (bytes : List ℕ) × (format : Format) × IsFirstExtension fs dir
        address ext allowed_extensions
      × (fs.size (join dir ((address ++ ext) ∷ [])) ≡ ok size)
      × (size ≤ logo_size_error)
      × (fs.header (join dir ((address ++ ext) ∷ [])) ≡ ok bytes)
      × HasMagic format bytes
      × In (to_lower ext) (extensions_of format)
      × (ws ≡ (if ltb logo_size_warning size then large size ∷ [] else []))
unfolding validate_logo check_logo
validate_logo-eq-ok fs dir address ws h = elim (Option-cases (find_logo_file fs dir address)) [
  | inl absent ↦ cc (rw (absent, check_logo) at h)
  | inr ((path, ext), found) ↦
      let h₀ : check_logo fs (some (path, ext)) ≡ ok ws = ap (check_logo fs) (sym found) ∙ h in
      let (named, first) = find_logo_sound fs dir address path ext allowed_extensions found in
      let (size, stat, h₁) = or_fail-eq-ok cannot_read (fs.size path) _ h₀ in
      let (fits, h₂) = require-eq-ok (leb size logo_size_error) (too_large size) _ h₁ in
      let (bytes, head, h₃) = or_fail-eq-ok cannot_read_header (fs.header path) _ h₂ in
      let (format, typed, h₄) = >>=-eq-ok (validate_magic_bytes bytes ext) _ h₃ in
      let (magic, listed) = magic_sound bytes ext format typed in
      let warned : (if ltb logo_size_warning size then large size ∷ [] else []) ≡ ws = cc h₄ in
      (
        ext,
        size,
        bytes,
        format,
        first,
        ap fs.size (sym named) ∙ stat,
        leb→le size logo_size_error fits,
        ap fs.header (sym named) ∙ head,
        magic,
        listed,
        sym warned,
      )
]
