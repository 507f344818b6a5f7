-- ===== src/Registry/Contracts.antt =====
-- `validateContractFiles`, `validateContracts` and `main` of scripts/validate.js.
-- `validateContractSchema`, which AJV compiles, is a parameter, as for the tokens. The exit over the
-- ceiling of the token loop ends the run before the contracts are read.
pub mod Shared
pub mod Complete
pub mod Projects
pub mod Exit
pub mod Examples
use vinuchain_lists.Prelude.{
  ℕ, ◌+◌, Bool, true, false, ◌&&◌, not, Option, none, some, List, [], ◌∷◌, ◌++◌, map, Text, codes,
  text_eq, includes, length, ltb, filter_by, if◌then◌else◌, Outcome, ok, threw, ◌>>=◌, ◌>>◌,
}
use vinuchain_lists.Json.{Json, Fields, lookup}
use vinuchain_lists.FilePath.{join}
use vinuchain_lists.SafeJson.{safe_read_json}
use vinuchain_lists.Files.{validate_contract_name, safe_path_join}
use vinuchain_lists.Address.{validate_eip55_checksum}
use vinuchain_lists.Abi.{validate_abi}
use vinuchain_lists.Solidity.{validate_solidity_file}
use vinuchain_lists.Url.{validate_urls}
use vinuchain_lists.Email.{validate_email}
use vinuchain_lists.Registry.{
  Table, has, put, ContractInfo, Setting, State, initial_state, chain_address_key, Rejection,
  one_error, no_errors, validate_tokens,
}
use vinuchain_lists.Registry.References.{validate_cross_references}

abbrev pub max_projects : ℕ
max_projects = 100

abbrev pub max_contracts_per_project : ℕ
max_contracts_per_project = 100

-- A contract of a project's info.json.
pub record ContractData : Type 0 where
  pub name : Text
  pub artifact : Option Text
  pub address : Text
  pub chain_id : ℕ
  pub kind : Text

pub record ProjectData : Type 0 where
  pub contact : Option Text
  pub contracts : List ContractData
  pub members : Fields

-- `contract.artifact || contract.name`
unfoldable pub or_name : Option Text → Text → Text
or_name (some (c ∷ t)) name = c ∷ t
or_name _ name = name

abbrev pub artifact_name : ContractData → Text
artifact_name c = or_name c.artifact c.name

abbrev pub contract_key : ContractData → Text
contract_key c = chain_address_key c.chain_id c.address

abbrev pub is_registered_token : State → ContractData → Bool
is_registered_token s c = text_eq c.kind (codes "token") && has s.token_addresses (contract_key c)

-- The tables' part. An entry whose files turn out to be bad stays in the tables.
unfoldable pub register_contract : State → Text → ContractData → Option State
unfolding includes has put text_eq
register_contract s slug c =
    let shared = is_registered_token s c in
    if includes s.all_addresses (contract_key c) && not shared
    then none
    else some (record s {
      all_addresses = if shared then s.all_addresses else contract_key c ∷ s.all_addresses;
      contract_addresses =
          put s.contract_addresses (contract_key c) (record { project = slug; contract = c.name });
    })

abbrev pub project_url_fields : List Text
project_url_fields =
    codes "website" ∷ codes "github" ∷ codes "twitter" ∷ codes "telegram" ∷ codes "discord" ∷ []

-- How many names occur again behind the first time.
unfoldable pub repeated_names : List Text → List ContractData → ℕ
unfolding includes
repeated_names seen [] = 0
repeated_names seen (c ∷ cs) =
    (if includes seen c.name then 1 else 0) + repeated_names (c.name ∷ seen) cs

-- The number of warnings of the contact address.
unfoldable pub check_contact : Option Text → Outcome Rejection ℕ
unfolding one_error
check_contact none = ok 0
check_contact (some []) = ok 0
check_contact (some (c ∷ t)) = one_error 0 (validate_email (c ∷ t)) >>= λ ws. ok (length ws)

module _ (r : Setting) where
  unfoldable pub check_names : ContractData → Outcome Rejection Text
  unfolding one_error
  check_names c = do
    one_error 0 (validate_contract_name c.name)
    one_error 0 (validate_contract_name (artifact_name c))
    one_error 0 (validate_eip55_checksum r.get_address c.address)

  -- The source and the ABI; the value is the number of warnings.
  unfoldable pub check_files : Text → ContractData → Outcome Rejection ℕ
  unfolding one_error
  check_files project_path c = do
    let artifact = artifact_name c
    sol ← one_error 0 (safe_path_join r.cwd project_path ((artifact ++ codes ".sol") ∷ []))
    abi ← one_error 0 (safe_path_join r.cwd project_path ((artifact ++ codes "_abi.json") ∷ []))
    source ← one_error 0 (r.fs.read sol)
    warned ← one_error 0 (validate_solidity_file source artifact)
    there ← one_error (length warned) (r.fs.read abi)
    value ← one_error (length warned) (safe_read_json r.parse r.fs abi)
    more ← one_error (length warned) (validate_abi value)
    ok (length warned + length more)

  unfoldable pub count_rejection : State → Rejection → State × Bool
  count_rejection s e = (
    record s { errors = s.errors + e.error_count; warnings = s.warnings + e.warning_count },
    false,
  )

  unfoldable pub after_files : State → Outcome Rejection ℕ → State × Bool
  unfolding count_rejection
  after_files s (threw e) = count_rejection s e
  after_files s (ok w) = (record s { warnings = s.warnings + w }, true)

  unfoldable pub after_register : State → Text → ContractData → Option State → State × Bool
  unfolding after_files check_files
  after_register s project_path c none = (record s { errors = s.errors + 1 }, false)
  after_register s project_path c (some next) = after_files next (check_files project_path c)

  unfoldable pub after_names :
      State → Text → Text → ContractData → Outcome Rejection Text → State × Bool
  unfolding count_rejection after_register register_contract
  after_names s slug project_path c (threw e) = count_rejection s e
  after_names s slug project_path c (ok address) =
      after_register s project_path c (register_contract s slug c)

  unfoldable pub validate_contract_files : State → Text → Text → ContractData → State × Bool
  unfolding after_names check_names
  validate_contract_files s slug project_path c = after_names s slug project_path c (check_names c)

  -- The number of valid contracts, and whether all are.
  unfoldable pub contract_loop :
      State → Text → Text → List ContractData → ℕ → Bool → State × ℕ × Bool
  contract_loop s slug project_path [] count valid = (s, count, valid)
  contract_loop s slug project_path (c ∷ cs) count valid =
      let next = validate_contract_files s slug project_path c in
      contract_loop (next.0) slug project_path cs (if next.1 then count + 1 else count)
        (valid && next.1)

unfoldable pub project_schema : Outcome ℕ ProjectData → Outcome Rejection ProjectData
project_schema (ok p) = ok p
project_schema (threw n) = threw (record { error_count = 1 + n; warning_count = 0 })

-- More contracts than the ceiling are one error, behind the warnings of the contact.
unfoldable pub check_ceiling : ℕ → List ContractData → Outcome Rejection (Unit {0})
check_ceiling w cs =
    if ltb max_contracts_per_project (length cs)
    then threw (record { error_count = 1; warning_count = w })
    else ok tt

-- What the whole script reads.
pub record Repository : Type 0 where
  pub setting : Setting
  pub contracts_dir : Text
  pub check_project_schema : Json → Outcome ℕ ProjectData

unfoldable pub exit_code_of : Option ℕ → ℕ
exit_code_of none = 1
exit_code_of (some errors) = if ltb 0 errors then 1 else 0

module _ (q : Repository) where
  abbrev pub project_path_of : Text → Text
  project_path_of slug = join q.contracts_dir (slug ∷ [])

  -- A project up to its contracts, and the number of its warnings.
  unfoldable pub check_project : Text → Outcome Rejection (ProjectData × ℕ)
  unfolding one_error project_schema no_errors check_contact check_ceiling
  check_project slug = do
    value ← one_error 0 (
        safe_read_json q.setting.parse q.setting.fs
          (join (project_path_of slug) (codes "info.json" ∷ [])))
    project ← project_schema (q.check_project_schema value)
    no_errors
        (validate_urls q.setting.parse_url (map (λ k. lookup k project.members) project_url_fields))
    mail ← check_contact project.contact
    check_ceiling mail project.contracts
    ok (project, mail + repeated_names [] project.contracts)

  unfoldable pub count_project : State × ℕ × Bool → ℕ → State × ℕ × ℕ
  count_project (s, contract_count, valid) project_count =
      (s, if valid then project_count + 1 else project_count, contract_count)

  unfoldable pub after_project :
      State → ℕ → ℕ → Text → Outcome Rejection (ProjectData × ℕ) → State × ℕ × ℕ
  unfolding count_project contract_loop
  after_project s projects contracts slug (threw e) = (
    record s { errors = s.errors + e.error_count; warnings = s.warnings + e.warning_count },
    projects,
    contracts,
  )
  after_project s projects contracts slug (ok (project, w)) =
      count_project
        (contract_loop q.setting (record s { warnings = s.warnings + w }) slug
          (project_path_of slug) project.contracts contracts true)
        projects

  -- The loop, with the numbers of projects and contracts so far.
  unfoldable pub project_loop : State → ℕ → ℕ → List Text → State × ℕ × ℕ
  unfolding after_project
  project_loop s projects contracts [] = (s, projects, contracts)
  project_loop s projects contracts (slug ∷ slugs) =
      let next = after_project s projects contracts slug (check_project slug) in
      project_loop (next.0) (next.1) (next.2) slugs

  abbrev pub project_dirs : List Text → List Text
  project_dirs entries =
      filter_by (λ f. q.setting.fs.is_directory (join q.contracts_dir (f ∷ []))) entries

  -- `none` is the exit of the process over the ceiling.
  unfoldable pub after_project_listing : State → List Text → Option (State × ℕ × ℕ)
  unfolding project_loop
  after_project_listing s slugs =
      if ltb max_projects (length slugs) then none else some (project_loop s 0 0 slugs)

  unfoldable pub validate_contracts : State → Option (State × ℕ × ℕ)
  unfolding after_project_listing
  validate_contracts s =
      if not (q.setting.fs.exists q.contracts_dir)
      then some (record s { warnings = s.warnings + 1 }, 0, 0)
      else elim (q.setting.fs.read_dir q.contracts_dir) [
        | threw e ↦ some (record s { errors = s.errors + 1 }, 0, 0)
        | ok entries ↦ after_project_listing s (project_dirs entries)
      ]

  -- The errors at the end of `main`; `none` is an exit before.
  unfoldable pub after_contracts : Option (State × ℕ × ℕ) → Option ℕ
  after_contracts none = none
  after_contracts (some (s, projects, contracts)) = some (
      s.errors
      + length (
          validate_cross_references q.setting.fs q.contracts_dir s.token_addresses
            s.contract_addresses))

  unfoldable pub after_tokens : Option (State × ℕ) → Option ℕ
  unfolding after_contracts validate_contracts
  after_tokens none = none
  after_tokens (some (s, n)) = after_contracts (validate_contracts s)

  -- The exit code of `main`.
  unfoldable pub exit_code : ℕ
  unfolding exit_code_of after_tokens
  exit_code = exit_code_of (after_tokens (validate_tokens q.setting initial_state))
