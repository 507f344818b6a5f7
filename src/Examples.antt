-- ===== src/Examples.antt =====
-- Runs of the file, ABI, name, address, URL, email and logo checks on small inputs, and the theorems
-- at these inputs.
use vinuchain_lists.Prelude.{
  ℕ, ◌≤◌, ◌≡◌, ◌≢◌, ◌↔◌, ◌⊎◌, refl, true, false, ◌||◌, Option, none, some, List, [], ◌∷◌, ◌++◌,
  Text, codes, text_eq, replicate, if◌then◌else◌, All, In, Prefix, length, ok, threw, to_lower,
  includes, ltb,
}
use vinuchain_lists.Regex.{matches, text, times, regexes}
use vinuchain_lists.Regex.Laws.{Matches, matches_iff}
use vinuchain_lists.Json.{Json, str, arr, obj, nil, cons, Fields, end, field}
use vinuchain_lists.FileSystem.{FileSystem, enoent}
use vinuchain_lists.FilePath.{join, resolve}
use vinuchain_lists.SafeJson.{revive, is_dangerous, safe_read_json, max_file_size}
use vinuchain_lists.SafeJson.Laws.{IsClean, safe_read_json-eq-ok}
use vinuchain_lists.Abi.{
  AbiWarning, missing_outputs, identifier, validate_abi_parameter, validate_abi,
}
use vinuchain_lists.Abi.Entries.{IsAbi, validate_abi_iff}
use vinuchain_lists.Abi.Spec.{IsParameter}
use vinuchain_lists.Abi.Laws.{validate_abi_parameter_iff}
use vinuchain_lists.Files.{
  safe_path_join, check_parts, validate_safe_filename, is_within, has_traversal,
}
use vinuchain_lists.Files.Laws.{IsSafeName, safe_path_join-eq-ok}
use vinuchain_lists.Address.{validate_eip55_checksum, validate_token_address, zero_address_text}
use vinuchain_lists.Address.Laws.{
  IsAddress, validate_eip55_checksum_iff, validate_token_address-eq-ok,
}
use vinuchain_lists.Url.{ParsedUrl, validate_url, is_blocked_host}
use vinuchain_lists.Url.Laws.{IsHttpsText, IsSafeUrl, validate_url_iff, is_blocked_host-bracket}
use vinuchain_lists.Email.{
  EmailWarning, is_valid_email_format, is_disposable_email, extract_domain, after_at,
  is_reserved_email, typo_warnings, validate_email, disposable_email_domains,
  reserved_email_domains, domain_warnings,
}
use vinuchain_lists.Email.Laws.{IsEmail, validate_email-eq-ok}
use vinuchain_lists.Logo.{
  Format, validate_magic_bytes, validate_logo, logo_size_error, logo_size_warning,
  allowed_extensions, png_magic, large,
}
use vinuchain_lists.Logo.Laws.{IsFirstExtension, HasMagic, extensions_of, validate_logo-eq-ok}

-- An object with a member that pollutes, at the top and below.
abbrev polluted : Fields
polluted = field (codes "name") (str (codes "WVC")) (
    field (codes "__proto__") (str [])
      (field (codes "tags") (obj (field (codes "constructor") (str []) end)) end))

-- A file system with one readable file, whose text stands for `polluted`, and one PNG.
disk : FileSystem
unfolding text_eq
disk = record {
  exists = λ path. text_eq path (codes "/r/a.json") || text_eq path (codes "/r/0xA.png");
  is_directory = λ path. false;
  size = λ path. ok 20;
  read = λ path. ok (codes "{}");
  read_dir = λ path. threw enoent;
  header = λ path. ok (png_magic ++ replicate 4 0);
}

abbrev parse : Text → Option Json
parse t = some (obj polluted)

file_read : safe_read_json parse disk (codes "/r/a.json") ≡ ok (revive (obj polluted))
unfolding safe_read_json disk is_dangerous
file_read = refl

safe_read_json-eq-ok_example :
    (size : ℕ) × (content : Text) × (w : Json) × (disk.exists (codes "/r/a.json") ≡ true)
    × (disk.size (codes "/r/a.json") ≡ ok size)
    × (size ≤ max_file_size)
    × (disk.read (codes "/r/a.json") ≡ ok content)
    × (length content ≤ max_file_size)
    × (parse content ≡ some w)
    × (revive (obj polluted) ≡ revive w)
    × IsClean (revive (obj polluted))
safe_read_json-eq-ok_example =
    safe_read_json-eq-ok parse disk (codes "/r/a.json") (revive (obj polluted)) file_read

-- A tuple of one address.
abbrev pair_parameter : Json
pair_parameter = obj (
    field (codes "type") (str (codes "tuple")) (
      field (codes "components")
        (arr (cons (obj (field (codes "type") (str (codes "address")) end)) nil)) end))

validate_abi_parameter_iff_example :
    (validate_abi_parameter pair_parameter ≡ ok tt) ↔ IsParameter pair_parameter
validate_abi_parameter_iff_example = validate_abi_parameter_iff pair_parameter

-- A function that takes the pair and whose outputs are left out.
abbrev pair_abi : Json
pair_abi = arr (
    cons
      (obj (
        field (codes "type") (str (codes "function")) (
          field (codes "name") (str (codes "set"))
            (field (codes "inputs") (arr (cons pair_parameter nil)) end))))
      nil)

pair_abi_accepted : validate_abi pair_abi ≡ ok (missing_outputs ∷ [])
unfolding validate_abi vinuchain_lists.Abi.check_typed vinuchain_lists.Abi.check_name
    vinuchain_lists.Abi.check_components
pair_abi_accepted = refl

validate_abi_iff_example :
    ((ws : List AbiWarning) × (validate_abi pair_abi ≡ ok ws)) ↔ IsAbi pair_abi
validate_abi_iff_example = validate_abi_iff pair_abi

matches_iff_example : (matches identifier (codes "_to") ≡ true) ↔ Matches identifier (codes "_to")
matches_iff_example = matches_iff identifier (codes "_to")

path_joined :
    safe_path_join (codes "/r") (codes "/r/tokens") (codes "a.json" ∷ [])
    ≡ ok (codes "/r/tokens/a.json")
unfolding safe_path_join check_parts validate_safe_filename is_within resolve join
path_joined = refl

safe_path_join-eq-ok_example :
    (codes "/r/tokens/a.json" ≡ join (codes "/r/tokens") (codes "a.json" ∷ []))
    × All IsSafeName (codes "a.json" ∷ [])
    × (Prefix
          (resolve (codes "/r") (codes "/r/tokens") ++ codes "/")
          (resolve (codes "/r") (codes "/r/tokens/a.json"))
        ⊎ (resolve (codes "/r") (codes "/r/tokens/a.json")
            ≡ resolve (codes "/r") (codes "/r/tokens")))
safe_path_join-eq-ok_example =
    safe_path_join-eq-ok (codes "/r") (codes "/r/tokens") (codes "/r/tokens/a.json")
      (codes "a.json" ∷ []) path_joined

-- An address of the registry, in its checksummed form.
abbrev listed : Text
listed = codes "0x00c1E515EA9579856304198EFb15f525A0bb50f6"

abbrev get_address : Text → Option Text
get_address t = if text_eq t listed then some listed else none

validate_eip55_checksum_iff_example : (validate_eip55_checksum get_address listed ≡ ok listed) ↔ (
    (listed ≡ listed)
    × IsAddress listed
    × (listed ≢ zero_address_text)
    × (get_address listed ≡ some listed))
validate_eip55_checksum_iff_example = validate_eip55_checksum_iff get_address listed listed

token_accepted :
    validate_token_address get_address (codes "/r") (codes "/r/scripts") listed listed ≡ ok listed
unfolding validate_token_address text times resolve join
token_accepted = refl

validate_token_address-eq-ok_example :
    (listed ≡ listed)
    × (listed ≡ listed)
    × IsAddress listed
    × (listed ≢ zero_address_text)
    × (get_address listed ≡ some listed)
    × (has_traversal listed ≡ false)
    × Prefix
        (resolve (codes "/r") (codes "/r/scripts") ++ codes "/")
        (resolve (codes "/r") (join (codes "/r/scripts") (listed ∷ [])))
validate_token_address-eq-ok_example =
    validate_token_address-eq-ok get_address (codes "/r") (codes "/r/scripts") listed listed listed
      token_accepted

abbrev parse_url : Text → Option ParsedUrl
parse_url t = some (record { protocol = codes "https:"; hostname = codes "vinu.org"; port = [] })

validate_url_iff_example : (validate_url parse_url (str (codes "https://vinu.org/")) ≡ ok tt) ↔ (
    (t : Text) × (url : ParsedUrl) × (str (codes "https://vinu.org/") ≡ str t)
    × IsHttpsText t
    × (parse_url t ≡ some url)
    × IsSafeUrl url)
validate_url_iff_example = validate_url_iff parse_url (str (codes "https://vinu.org/"))

is_blocked_host-bracket_example : is_blocked_host (codes "[::1]") ≡ false
is_blocked_host-bracket_example = is_blocked_host-bracket (codes "::1]")

email_accepted : validate_email (codes "dev@Vinu.org") ≡ ok []
unfolding validate_email regexes is_valid_email_format is_disposable_email extract_domain after_at
    includes text_eq is_reserved_email domain_warnings typo_warnings
email_accepted = refl

validate_email-eq-ok_example :
    (user : Text) × (domain : Text) × IsEmail user domain (codes "dev@Vinu.org")
    × (In (to_lower domain) disposable_email_domains → ⊥)
    × (In (to_lower domain) reserved_email_domains → ⊥)
    × (◌≡◌ {A = List EmailWarning} [] (domain_warnings (some (to_lower domain))))
validate_email-eq-ok_example = validate_email-eq-ok (codes "dev@Vinu.org") [] email_accepted

logo_accepted : validate_logo disk (codes "/r") (codes "0xA") ≡ ok []
unfolding validate_logo disk validate_magic_bytes
logo_accepted = refl

validate_logo-eq-ok_example :
    (ext : Text) × (size : ℕ) × (bytes : List ℕ) × (format : Format) × IsFirstExtension disk
      (codes "/r")
      (codes "0xA")
      ext
      allowed_extensions
    × (disk.size (join (codes "/r") ((codes "0xA" ++ ext) ∷ [])) ≡ ok size)
    × (size ≤ logo_size_error)
    × (disk.header (join (codes "/r") ((codes "0xA" ++ ext) ∷ [])) ≡ ok bytes)
    × HasMagic format bytes
    × In (to_lower ext) (extensions_of format)
    × ([] ≡ (if ltb logo_size_warning size then large size ∷ [] else []))
validate_logo-eq-ok_example = validate_logo-eq-ok disk (codes "/r") (codes "0xA") [] logo_accepted
