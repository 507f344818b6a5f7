-- ===== src/Logo.antt =====
-- scripts/validators/logo-validator.js; `getLogoInfo` is not modelled.
pub mod Laws
use vinuchain_lists.Prelude.{
  ℕ, ◌*◌, ◌%◌, Bool, true, false, ◌&&◌, ◌||◌, not, Option, none, some, List, [], ◌∷◌, ◌++◌, map,
  Text, codes, text_eq, to_lower, take, drop, leb, ltb, if◌then◌else◌, Outcome, ok, threw, ◌>>=◌,
  ◌>>◌, require,
}
use vinuchain_lists.FilePath.{join}
use vinuchain_lists.FileSystem.{FileSystem, FileError}

pub data Format : Type 0 where
  png jpg webp : Format

pub data LogoError : Type 0 where
  missing unrecognized : LogoError
  cannot_read cannot_read_header : FileError → LogoError
  too_large : ℕ → LogoError
  wrong_extension : Format → LogoError

pub data LogoWarning : Type 0 where
  large : ℕ → LogoWarning

abbrev pub logo_size_warning : ℕ
logo_size_warning = 100 * 1024

abbrev pub logo_size_error : ℕ
logo_size_error = 500 * 1024

abbrev pub allowed_extensions : List Text
allowed_extensions = codes ".png" ∷ codes ".jpg" ∷ codes ".jpeg" ∷ codes ".webp" ∷ []

abbrev pub png_magic : List ℕ
png_magic = 0x89 ∷ 0x50 ∷ 0x4e ∷ 0x47 ∷ 0x0d ∷ 0x0a ∷ 0x1a ∷ 0x0a ∷ []

abbrev pub jpg_magic : List ℕ
jpg_magic = 0xff ∷ 0xd8 ∷ 0xff ∷ []

abbrev pub riff_magic : List ℕ
riff_magic = 0x52 ∷ 0x49 ∷ 0x46 ∷ 0x46 ∷ []

-- The path of the logo and its extension: the first that exists.
unfoldable pub find_logo : FileSystem → Text → Text → List Text → Option (Text × Text)
unfolding join
find_logo fs dir address [] = none
find_logo fs dir address (ext ∷ exts) =
    let path = join dir ((address ++ ext) ∷ []) in
    if fs.exists path then some (path, ext) else find_logo fs dir address exts

abbrev pub find_logo_file : FileSystem → Text → Text → Option (Text × Text)
find_logo_file fs dir address = find_logo fs dir address allowed_extensions

-- `buffer.slice(8, 12).toString('ascii') === 'WEBP'`: the decoder drops the high bit of each byte.
unfoldable pub is_webp : List ℕ → Bool
unfolding text_eq
is_webp buffer =
    text_eq (take 4 buffer) riff_magic
    && text_eq (map (λ b. b % 128) (take 4 (drop 8 buffer))) (codes "WEBP")

unfoldable pub validate_magic_bytes : List ℕ → Text → Outcome LogoError Format
unfolding is_webp text_eq to_lower
validate_magic_bytes buffer extension =
    let ext = to_lower extension in
    if text_eq (take 8 buffer) png_magic
    then (if text_eq ext (codes ".png") then ok png else threw (wrong_extension png))
    else if text_eq (take 3 buffer) jpg_magic
    then (if text_eq ext (codes ".jpg") || text_eq ext (codes ".jpeg")
        then ok jpg
        else threw (wrong_extension jpg))
    else if is_webp buffer
    then (if text_eq ext (codes ".webp") then ok webp else threw (wrong_extension webp))
    else threw unrecognized

or_fail {ℓ} : {A : Type ℓ} → (FileError → LogoError) → Outcome FileError A → Outcome LogoError A
or_fail f (ok a) = ok a
or_fail f (threw e) = threw (f e)

unfoldable pub check_logo : FileSystem → Option (Text × Text) → Outcome LogoError (List LogoWarning)
unfolding or_fail
check_logo fs none = threw missing
check_logo fs (some (path, ext)) = do
  size ← or_fail cannot_read (fs.size path)
  require (leb size logo_size_error) (too_large size)
  buffer ← or_fail cannot_read_header (fs.header path)
  validate_magic_bytes buffer ext
  ok (if ltb logo_size_warning size then large size ∷ [] else [])

unfoldable pub validate_logo : FileSystem → Text → Text → Outcome LogoError (List LogoWarning)
unfolding check_logo find_logo
validate_logo fs dir address = check_logo fs (find_logo_file fs dir address)
