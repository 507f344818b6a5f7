-- ===== src/Registry/Examples.antt =====
-- A run over a registry of one token, and the theorems at it.
use vinuchain_lists.Prelude.{
  ℕ, ◌≤◌, ◌≡◌, ◌≢◌, ◌↔◌, map, refl, Bool, true, false, ◌||◌, Option, none, some, List, [], ◌∷◌,
  ◌++◌, Text, codes, text_eq, replicate, length, All, if◌then◌else◌, Outcome, ok, threw, to_lower,
  trim, contains, starts_with, includes, is_space,
}
use vinuchain_lists.Regex.{regexes}
use vinuchain_lists.Numbers.{decimal}
use vinuchain_lists.Json.{Json, str, obj, end, field, lookup}
use vinuchain_lists.FileSystem.{FileSystem}
use vinuchain_lists.Url.{ParsedUrl}
use vinuchain_lists.Logo.{png_magic}
use vinuchain_lists.FilePath.{join}
use vinuchain_lists.SafeJson.{safe_read_json}
use vinuchain_lists.SafeJson.Laws.{IsClean}
use vinuchain_lists.Files.{safe_path_join}
use vinuchain_lists.Address.{zero_address_text}
use vinuchain_lists.Address.Laws.{IsAddress}
use vinuchain_lists.Logo.{LogoWarning, validate_logo}
use vinuchain_lists.Registry.Entry.{IsFineUrl, IsFineSupport, check_entry-eq-ok}
use vinuchain_lists.Registry.References.{
  missing_project, HasProject, Agrees, validate_cross_references, validate_cross_references_iff,
}
use vinuchain_lists.Registry.{
  ContractInfo, Table, check_entry, url_fields, TokenData, Setting, State, initial_state,
  max_tokens, validate_tokens,
}
use vinuchain_lists.Registry.Invariant.{IsSound, validate_tokens-IsSound}
use vinuchain_lists.Registry.Complete.{Listed, dirs_of, validate_tokens-clean}

abbrev listed : Text
listed = codes "0x00c1E515EA9579856304198EFb15f525A0bb50f6"

abbrev token_dir : Text
token_dir = codes "/r/tokens/0x00c1E515EA9579856304198EFb15f525A0bb50f6"

abbrev website : Json
website = str (codes "https://vinu.org/")

abbrev wvc : TokenData
wvc = record {
  address = listed;
  chain_id = 207;
  symbol = codes "WVC";
  name = codes "Wrapped VC";
  decimals = 18;
  support = some (codes "dev@vinu.org");
  project = none;
  members = field (codes "website") website end;
}

files : FileSystem
unfolding text_eq
files = record {
  exists = λ path. true;
  is_directory = λ path. text_eq path token_dir;
  size = λ path. ok 200;
  read = λ path. ok (codes "{}");
  read_dir = λ path. ok (listed ∷ codes "README.md" ∷ []);
  header = λ path. ok (png_magic ++ replicate 4 0);
}

setting : Setting
unfolding files
setting = record {
  fs = files;
  cwd = codes "/r";
  scripts_dir = codes "/r/scripts";
  tokens_dir = codes "/r/tokens";
  parse = λ t. some (obj (field (codes "website") website end));
  parse_url =
      λ t. some (record { protocol = codes "https:"; hostname = codes "vinu.org"; port = [] });
  get_address = λ t. some t;
  check_schema = λ v. ok wvc;
  allowed_symbols = [];
  allowed_names = [];
}

abbrev final_state : State
final_state = record {
  errors = 0;
  warnings = 0;
  all_addresses = codes "207:0x00c1E515EA9579856304198EFb15f525A0bb50f6" ∷ [];
  token_addresses = (codes "207:0x00c1E515EA9579856304198EFb15f525A0bb50f6", wvc) ∷ [];
  contract_addresses = [];
  token_symbols = (codes "207:WVC", listed) ∷ [];
  token_names = (codes "207:wrapped vc", listed) ∷ [];
}

run_accepts : validate_tokens setting initial_state ≡ some (final_state, 1)
unfolding validate_tokens setting files decimal lookup contains includes starts_with text_eq
    to_lower regexes vinuchain_lists.Prelude.to_upper vinuchain_lists.Numbers.digits_onto
    vinuchain_lists.FilePath.join vinuchain_lists.FilePath.resolve
    vinuchain_lists.FilePath.join_nonempty vinuchain_lists.FilePath.normal_pieces
    vinuchain_lists.FilePath.normalize vinuchain_lists.FilePath.resolve_pieces
    vinuchain_lists.FilePath.root_or vinuchain_lists.FilePath.split_slash
    vinuchain_lists.FilePath.with_slashes vinuchain_lists.Address.validate_address_directory
    vinuchain_lists.Address.validate_token_address vinuchain_lists.Address.compare_checksum
    vinuchain_lists.Address.is_valid_address_format
    vinuchain_lists.Address.validate_address_matches_directory
    vinuchain_lists.Address.validate_eip55_checksum vinuchain_lists.Files.safe_path_join
    vinuchain_lists.Files.check_parts vinuchain_lists.Files.validate_safe_filename
    vinuchain_lists.Files.is_within vinuchain_lists.Files.has_traversal
    vinuchain_lists.SafeJson.safe_read_json vinuchain_lists.SafeJson.safe_parse
    vinuchain_lists.SafeJson.delete_dangerous vinuchain_lists.SafeJson.delete_fields
    vinuchain_lists.SafeJson.is_dangerous vinuchain_lists.SafeJson.revive
    vinuchain_lists.Url.validate_urls vinuchain_lists.Url.url_errors
    vinuchain_lists.Url.validate_url vinuchain_lists.Url.validate_url_format
    vinuchain_lists.Url.check_parsed vinuchain_lists.Url.is_blocked_host
    vinuchain_lists.Url.matches_blocked_pattern vinuchain_lists.Url.validate_url_text
    vinuchain_lists.Email.after_at vinuchain_lists.Email.domain_warnings
    vinuchain_lists.Email.extract_domain vinuchain_lists.Email.is_disposable_email
    vinuchain_lists.Email.is_reserved_email vinuchain_lists.Email.is_valid_email_format
    vinuchain_lists.Email.typo_warnings vinuchain_lists.Email.validate_email
    vinuchain_lists.Logo.check_logo vinuchain_lists.Logo.find_logo vinuchain_lists.Logo.is_webp
    vinuchain_lists.Logo.validate_logo vinuchain_lists.Logo.validate_magic_bytes
    vinuchain_lists.Registry.after_checks vinuchain_lists.Registry.after_listing
    vinuchain_lists.Registry.chain_address_key vinuchain_lists.Registry.check_support
    vinuchain_lists.Registry.filter_dirs vinuchain_lists.Registry.has
    vinuchain_lists.Registry.no_errors vinuchain_lists.Registry.one_error
    vinuchain_lists.Registry.or_collision vinuchain_lists.Registry.put
    vinuchain_lists.Registry.register vinuchain_lists.Registry.schema_errors
    vinuchain_lists.Registry.visit_all vinuchain_lists.Registry.check_entry
run_accepts = refl

initially : IsSound setting initial_state
initially = (tt, tt)

validate_tokens-IsSound_example : IsSound setting final_state
validate_tokens-IsSound_example =
    validate_tokens-IsSound setting initial_state final_state 1 initially run_accepts

validate_tokens-clean_example :
    (1 ≡ length (dirs_of setting (listed ∷ codes "README.md" ∷ [])))
    × (1 ≤ max_tokens)
    × All (Listed setting final_state) (dirs_of setting (listed ∷ codes "README.md" ∷ []))
unfolding setting files
validate_tokens-clean_example =
    validate_tokens-clean setting initial_state final_state 1 (listed ∷ codes "README.md" ∷ []) refl
      refl run_accepts refl

entry_passes : check_entry setting listed ≡ ok (wvc, 0)
unfolding setting files decimal lookup contains includes starts_with text_eq to_lower regexes
    vinuchain_lists.Prelude.to_upper vinuchain_lists.Numbers.digits_onto
    vinuchain_lists.FilePath.join vinuchain_lists.FilePath.resolve
    vinuchain_lists.FilePath.join_nonempty vinuchain_lists.FilePath.normal_pieces
    vinuchain_lists.FilePath.normalize vinuchain_lists.FilePath.resolve_pieces
    vinuchain_lists.FilePath.root_or vinuchain_lists.FilePath.split_slash
    vinuchain_lists.FilePath.with_slashes vinuchain_lists.Address.validate_address_directory
    vinuchain_lists.Address.validate_token_address vinuchain_lists.Address.compare_checksum
    vinuchain_lists.Address.is_valid_address_format
    vinuchain_lists.Address.validate_address_matches_directory
    vinuchain_lists.Address.validate_eip55_checksum vinuchain_lists.Files.safe_path_join
    vinuchain_lists.Files.check_parts vinuchain_lists.Files.validate_safe_filename
    vinuchain_lists.Files.is_within vinuchain_lists.Files.has_traversal
    vinuchain_lists.SafeJson.safe_read_json vinuchain_lists.SafeJson.safe_parse
    vinuchain_lists.SafeJson.delete_dangerous vinuchain_lists.SafeJson.delete_fields
    vinuchain_lists.SafeJson.is_dangerous vinuchain_lists.SafeJson.revive
    vinuchain_lists.Url.validate_urls vinuchain_lists.Url.url_errors
    vinuchain_lists.Url.validate_url vinuchain_lists.Url.validate_url_format
    vinuchain_lists.Url.check_parsed vinuchain_lists.Url.is_blocked_host
    vinuchain_lists.Url.matches_blocked_pattern vinuchain_lists.Url.validate_url_text
    vinuchain_lists.Email.after_at vinuchain_lists.Email.domain_warnings
    vinuchain_lists.Email.extract_domain vinuchain_lists.Email.is_disposable_email
    vinuchain_lists.Email.is_reserved_email vinuchain_lists.Email.is_valid_email_format
    vinuchain_lists.Email.typo_warnings vinuchain_lists.Email.validate_email
    vinuchain_lists.Logo.check_logo vinuchain_lists.Logo.find_logo vinuchain_lists.Logo.is_webp
    vinuchain_lists.Logo.validate_logo vinuchain_lists.Logo.validate_magic_bytes
    vinuchain_lists.Registry.after_checks vinuchain_lists.Registry.after_listing
    vinuchain_lists.Registry.chain_address_key vinuchain_lists.Registry.check_support
    vinuchain_lists.Registry.filter_dirs vinuchain_lists.Registry.has
    vinuchain_lists.Registry.no_errors vinuchain_lists.Registry.one_error
    vinuchain_lists.Registry.or_collision vinuchain_lists.Registry.put
    vinuchain_lists.Registry.register vinuchain_lists.Registry.schema_errors
    vinuchain_lists.Registry.visit_all vinuchain_lists.Registry.check_entry
entry_passes = refl

check_entry-eq-ok_example :
    (path : Text) × (value : Json) × (ws : List LogoWarning) × (safe_path_join setting.cwd
        setting.tokens_dir
        (listed ∷ (listed ++ codes ".json") ∷ [])
      ≡ ok path)
    × (safe_read_json setting.parse setting.fs path ≡ ok value)
    × IsClean value
    × (setting.check_schema value ≡ ok wvc)
    × (wvc.address ≡ listed)
    × IsAddress listed
    × (listed ≢ zero_address_text)
    × (setting.get_address listed ≡ some listed)
    × All (IsFineUrl setting.parse_url) (map (λ k. lookup k wvc.members) url_fields)
    × IsFineSupport wvc.support
    × (validate_logo setting.fs (join setting.tokens_dir (listed ∷ [])) listed ≡ ok ws)
check_entry-eq-ok_example = check_entry-eq-ok setting listed wvc 0 entry_passes

-- The token's contract, in a project that the token does not declare.
abbrev contracts : Table ContractInfo
contracts =
    (
      codes "207:0x00c1E515EA9579856304198EFb15f525A0bb50f6",
      record { project = codes "vinuchain"; contract = codes "WVC" },
    )
    ∷ []

validate_cross_references_iff_example :
    (validate_cross_references files (codes "/r/contracts") final_state.token_addresses contracts
      ≡ [])
    ↔ (All (HasProject files (codes "/r/contracts")) final_state.token_addresses
        × All (Agrees final_state.token_addresses) contracts)
validate_cross_references_iff_example =
    validate_cross_references_iff files (codes "/r/contracts") final_state.token_addresses contracts

missing_reference :
    validate_cross_references files (codes "/r/contracts") final_state.token_addresses contracts
    ≡ missing_project (codes "vinuchain") ∷ []
unfolding validate_cross_references text_eq
missing_reference = refl
