-- ===== src/Address.antt =====
-- scripts/utils/address-validator.js. `getAddress` of ethers is a parameter: the address with its
-- EIP-55 checksum, or `none` where it throws.
pub mod Laws
use vinuchain_lists.Prelude.{
  ℕ, Bool, true, false, ◌&&◌, ◌||◌, not, Option, none, some, List, [], ◌∷◌, ◌++◌, Text, codes,
  text_eq, length, starts_with, replicate, leb, ◌==◌, if◌then◌else◌, Outcome, ok, threw, ◌>>=◌,
  ◌>>◌, require,
}
use vinuchain_lists.Regex.{Regex, unit, seq, text, times, matches, is_digit}
use vinuchain_lists.FilePath.{join, resolve}
use vinuchain_lists.Files.{has_traversal}

pub data AddressError : Type 0 where
  bad_format zero_address not_an_address bad_directory traversal escapes_parent mismatch :
      AddressError
  bad_checksum : Text → AddressError

abbrev pub address_length : ℕ
address_length = 42

abbrev pub is_hex : ℕ → Bool
is_hex c = (leb b'a' c && leb c b'f') || ((leb b'A' c && leb c b'F') || is_digit c)

-- `ADDRESS_PATTERN`, `/^0x[a-fA-F0-9]{40}$/`
abbrev pub address_pattern : Regex
address_pattern = seq (text (codes "0x")) (times 40 (unit is_hex))

unfoldable pub is_valid_address_format : Text → Bool
unfolding matches
is_valid_address_format t = (length t == address_length) && matches address_pattern t

abbrev pub zero_address_text : Text
zero_address_text = codes "0x" ++ replicate 40 b'0'

module _ (get_address : Text → Option Text) where
  unfoldable pub compare_checksum : Text → Option Text → Outcome AddressError Text
  unfolding text_eq
  compare_checksum address none = threw not_an_address
  compare_checksum address (some checksummed) = do
    require (text_eq address checksummed) (bad_checksum checksummed)
    ok checksummed

  -- The value is the checksummed address.
  unfoldable pub validate_eip55_checksum : Text → Outcome AddressError Text
  unfolding is_valid_address_format compare_checksum text_eq
  validate_eip55_checksum address = do
    require (is_valid_address_format address) bad_format
    require (not (text_eq address zero_address_text)) zero_address
    compare_checksum address (get_address address)

unfoldable pub validate_address_directory : Text → Text → Text → Outcome AddressError (Unit {0})
unfolding is_valid_address_format has_traversal starts_with
validate_address_directory cwd name parent = do
  require (is_valid_address_format name) bad_directory
  require (not (has_traversal name)) traversal
  let path = join parent (name ∷ [])
  require (starts_with (resolve cwd parent ++ codes "/") (resolve cwd path)) escapes_parent

unfoldable pub validate_address_matches_directory : Text → Text → Outcome AddressError (Unit {0})
unfolding text_eq
validate_address_matches_directory address name = require (text_eq address name) mismatch

-- `scripts_parent` is the directory above the one that holds the validator.
unfoldable pub validate_token_address :
    (Text → Option Text) → Text → Text → Text → Text → Outcome AddressError Text
unfolding validate_address_directory validate_eip55_checksum validate_address_matches_directory
validate_token_address get_address cwd scripts_parent address name = do
  validate_address_directory cwd name scripts_parent
  checksummed ← validate_eip55_checksum get_address address
  validate_address_matches_directory address name
  ok checksummed
