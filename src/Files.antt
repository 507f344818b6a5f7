-- ===== src/Files.antt =====
-- The name checks and `safePathJoin` of scripts/utils/file-utils.js; the wrappers that turn a
-- thrown `fs` error into a result are the `Outcome`s of `FileSystem`.
pub mod Laws
use vinuchain_lists.Prelude.{
  ℕ, Bool, true, false, ◌&&◌, ◌||◌, not, List, [], ◌∷◌, ◌++◌, Text, codes, text_eq, contains,
  starts_with, any, leb, ◌==◌, if◌then◌else◌, Outcome, ok, threw, ◌>>=◌, ◌>>◌, require,
}
use vinuchain_lists.Regex.{Regex, unit, seq, star, matches, is_alnum}
use vinuchain_lists.FilePath.{join, resolve}

pub data NameError : Type 0 where
  path_traversal null_byte control_character escapes_base bad_contract_name : NameError

-- `includes('..') || includes('/') || includes('\\')`
unfoldable pub has_traversal : Text → Bool
unfolding contains
has_traversal t = contains (codes "..") t || (contains (codes "/") t || contains (b'\\' ∷ []) t)

-- `/[\x00-\x1F\x7F]/`
abbrev pub is_control : ℕ → Bool
is_control c = leb c 31 || (c == 127)

unfoldable pub validate_safe_filename : Text → Outcome NameError (Unit {0})
unfolding has_traversal contains
validate_safe_filename t = do
  require (not (has_traversal t)) path_traversal
  require (not (contains (0 ∷ []) t)) null_byte
  require (not (any is_control t)) control_character

-- `SAFE_CONTRACT_NAME_PATTERN`, `/^[A-Z][a-zA-Z0-9]*$/`
abbrev pub pascal_case : Regex
pascal_case = seq (unit (λ c. leb b'A' c && leb c b'Z')) (star (unit is_alnum))

unfoldable pub validate_contract_name : Text → Outcome NameError (Unit {0})
unfolding matches
validate_contract_name t = require (matches pascal_case t) bad_contract_name

unfoldable pub check_parts : List Text → Outcome NameError (Unit {0})
check_parts [] = ok tt
check_parts (part ∷ parts) = do validate_safe_filename part; check_parts parts

-- `resolved.startsWith(base + path.sep) || resolved === base`
unfoldable pub is_within : Text → Text → Bool
unfolding starts_with text_eq
is_within base path = starts_with (base ++ codes "/") path || text_eq path base

unfoldable pub safe_path_join : Text → Text → List Text → Outcome NameError Text
safe_path_join cwd base parts = do
  check_parts parts
  let path = join base parts
  require (is_within (resolve cwd base) (resolve cwd path)) escapes_base
  ok path
