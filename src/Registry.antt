-- ===== src/Registry.antt =====
-- `validateTokens` of scripts/validate.js, with the tables that the script keeps and the counters of
-- scripts/utils/logger.js. `validateTokenSchema`, which AJV compiles from the schema, is a parameter:
-- it gives the members that the loop reads, or the number of messages. Case mapping is that of ASCII.
pub mod Tables
pub mod Invariant
pub mod Complete
pub mod References
pub mod Entry
pub mod Keys
pub mod Contracts
mod Examples
use vinuchain_lists.Prelude.{
  ℕ, ◌+◌, Bool, true, false, ◌&&◌, ◌||◌, not, Option, none, some, List, [], ◌∷◌, ◌++◌, map, Text,
  codes, text_eq, includes, contains, to_lower, to_upper, length, ltb, if◌then◌else◌, Outcome, ok,
  threw, ◌>>=◌, ◌>>◌, require,
}
use vinuchain_lists.Numbers.{decimal}
use vinuchain_lists.Json.{Json, Fields, lookup}
use vinuchain_lists.FileSystem.{FileSystem}
use vinuchain_lists.FilePath.{join}
use vinuchain_lists.SafeJson.{safe_read_json}
use vinuchain_lists.Files.{safe_path_join}
use vinuchain_lists.Address.{validate_token_address, validate_address_directory}
use vinuchain_lists.Url.{ParsedUrl, validate_urls}
use vinuchain_lists.Email.{validate_email}
use vinuchain_lists.Logo.{validate_logo}

abbrev pub max_tokens : ℕ
max_tokens = 500

abbrev pub recommended_max_decimals : ℕ
recommended_max_decimals = 18

-- A `Map` with texts for keys, in the order of insertion.
abbrev pub Table {ℓ} : Type ℓ → Type ℓ
Table A = List (Text × A)

module _ {ℓ} {A : Type ℓ} where
  -- `map.has(k)`
  unfoldable pub has : Table A → Text → Bool
  unfolding text_eq
  has [] k = false
  has ((j, a) ∷ t) k = text_eq j k || has t k

  -- `map.set(k, a)`: a key that is there keeps its place.
  unfoldable pub put : Table A → Text → A → Table A
  put [] k a = (k, a) ∷ []
  put ((j, b) ∷ t) k a = if text_eq j k then (j, a) ∷ t else (j, b) ∷ put t k a

-- The members of a token's file that the loop reads; `members` has them all, for the URLs.
pub record TokenData : Type 0 where
  pub address : Text
  pub chain_id : ℕ
  pub symbol : Text
  pub name : Text
  pub decimals : ℕ
  pub support : Option Text
  pub project : Option Text
  pub members : Fields

-- What the script calls and reads, fixed for a run.
pub record Setting : Type 0 where
  pub fs : FileSystem
  pub cwd : Text
  pub scripts_dir : Text
  pub tokens_dir : Text
  pub parse : Text → Option Json
  pub parse_url : Text → Option ParsedUrl
  pub get_address : Text → Option Text
  pub check_schema : Json → Outcome ℕ TokenData
  pub allowed_symbols : List Text
  pub allowed_names : List Text

-- What `contractAddresses` holds for a contract.
pub record ContractInfo : Type 0 where
  pub project : Text
  pub contract : Text

-- The tables of the module, and the counters of the logger.
pub record State : Type 0 where
  pub errors : ℕ
  pub warnings : ℕ
  pub all_addresses : List Text
  pub token_addresses : Table TokenData
  pub contract_addresses : Table ContractInfo
  pub token_symbols : Table Text
  pub token_names : Table Text

abbrev pub initial_state : State
initial_state = record {
  errors = 0;
  warnings = 0;
  all_addresses = [];
  token_addresses = [];
  contract_addresses = [];
  token_symbols = [];
  token_names = [];
}

unfoldable pub chain_address_key : ℕ → Text → Text
chain_address_key chain_id address = decimal chain_id ++ (codes ":" ++ address)

abbrev pub key_of : TokenData → Text
key_of token = chain_address_key token.chain_id token.address

abbrev pub symbol_key : TokenData → Text
symbol_key token = chain_address_key token.chain_id (to_upper token.symbol)

abbrev pub name_key : TokenData → Text
name_key token = chain_address_key token.chain_id (to_lower token.name)

abbrev pub url_fields : List Text
url_fields =
    codes "logoURI"
    ∷ codes "website"
    ∷ codes "github"
    ∷ codes "twitter"
    ∷ codes "telegram"
    ∷ codes "discord"
    ∷ codes "coingecko"
    ∷ codes "coinmarketcap"
    ∷ []

-- How many errors and warnings an entry that is passed over leaves behind.
pub record Rejection : Type 0 where
  pub error_count : ℕ
  pub warning_count : ℕ

-- One error behind `w` warnings, where the step fails.
unfoldable pub one_error {ℓ κ} : {E : Type κ} {A : Type ℓ} → ℕ → Outcome E A → Outcome Rejection A
one_error w (ok a) = ok a
one_error w (threw e) = threw (record { error_count = 1; warning_count = w })

-- A heading, and a line for each message of the schema's validator.
unfoldable pub schema_errors : Outcome ℕ TokenData → Outcome Rejection TokenData
schema_errors (ok token) = ok token
schema_errors (threw n) = threw (record { error_count = 1 + n; warning_count = 0 })

unfoldable pub no_errors {ℓ} : {E : Type ℓ} → List E → Outcome Rejection (Unit {0})
no_errors [] = ok tt
no_errors (e ∷ es) = threw (record { error_count = length (e ∷ es); warning_count = 0 })

-- The number of warnings of the support address, if it is an email.
unfoldable pub check_support : Option Text → Outcome Rejection ℕ
unfolding one_error contains
check_support none = ok 0
check_support (some t) =
    if contains (codes "@") t
    then (one_error 0 (validate_email t) >>= λ ws. ok (length ws))
    else ok 0

abbrev pub decimals_warnings : TokenData → ℕ
decimals_warnings token = if ltb recommended_max_decimals token.decimals then 1 else 0

module _ (r : Setting) where
  -- The steps for one directory up to the tables: the token, and the number of its warnings.
  unfoldable pub check_entry : Text → Outcome Rejection (TokenData × ℕ)
  unfolding one_error schema_errors no_errors check_support
  check_entry dir = do
    path ← one_error 0 (safe_path_join r.cwd r.tokens_dir (dir ∷ (dir ++ codes ".json") ∷ []))
    value ← one_error 0 (safe_read_json r.parse r.fs path)
    token ← schema_errors (r.check_schema value)
    one_error 0 (validate_token_address r.get_address r.cwd r.scripts_dir token.address dir)
    no_errors (validate_urls r.parse_url (map (λ k. lookup k token.members) url_fields))
    mail ← check_support token.support
    let w = mail + decimals_warnings token
    logo ← one_error w (validate_logo r.fs (join r.tokens_dir (dir ∷ [])) token.address)
    ok (token, w + length logo)

  -- The tables' part: an address, a symbol or a name that is taken on the chain is refused, the last
  -- two unless their key is allowed.
  unfoldable pub register : State → TokenData → Option State
  unfolding includes has put
  register s token =
      if includes s.all_addresses (key_of token)
      then none
      else if has s.token_symbols (symbol_key token)
          && not (includes r.allowed_symbols (symbol_key token))
      then none
      else if has s.token_names (name_key token) && not (includes r.allowed_names (name_key token))
      then none
      else some (record s {
        token_symbols = put s.token_symbols (symbol_key token) token.address;
        token_names = put s.token_names (name_key token) token.address;
        all_addresses = key_of token ∷ s.all_addresses;
        token_addresses = put s.token_addresses (key_of token) token;
      })

  unfoldable pub or_collision : State → ℕ → Option State → State × ℕ
  or_collision s count none = (record s { errors = s.errors + 1 }, count)
  or_collision s count (some next) = (next, count + 1)

  unfoldable pub after_checks : State → ℕ → Outcome Rejection (TokenData × ℕ) → State × ℕ
  unfolding or_collision register
  after_checks s count (threw e) = (
    record s { errors = s.errors + e.error_count; warnings = s.warnings + e.warning_count },
    count,
  )
  after_checks s count (ok (token, w)) =
      let warned = record s { warnings = s.warnings + w } in
      or_collision warned count (register warned token)

  -- The loop, with the number of tokens so far.
  unfoldable pub visit_all : State → ℕ → List Text → State × ℕ
  unfolding after_checks
  visit_all s count [] = (s, count)
  visit_all s count (dir ∷ dirs) =
      let next = after_checks s count (check_entry dir) in visit_all (next.0) (next.1) dirs

  -- The directories of the listing that are named like an address, and the number of the others.
  unfoldable pub filter_dirs : List Text → List Text × ℕ
  filter_dirs [] = ([], 0)
  filter_dirs (f ∷ fs) =
      let rest = filter_dirs fs in
      if not (r.fs.is_directory (join r.tokens_dir (f ∷ [])))
      then rest
      else elim (validate_address_directory r.cwd f r.tokens_dir) [
        | ok u ↦ (f ∷ rest.0, rest.1)
        | threw e ↦ (rest.0, rest.1 + 1)
      ]

  -- `none` is the exit of the process over the ceiling.
  unfoldable pub after_listing : State → List Text × ℕ → Option (State × ℕ)
  unfolding visit_all
  after_listing s (dirs, bad) =
      let s₁ = record s { errors = s.errors + bad } in
      if ltb max_tokens (length dirs) then none else some (visit_all s₁ 0 dirs)

  unfoldable pub validate_tokens : State → Option (State × ℕ)
  unfolding after_listing filter_dirs
  validate_tokens s =
      if not (r.fs.exists r.tokens_dir)
      then some (record s { warnings = s.warnings + 1 }, 0)
      else elim (r.fs.read_dir r.tokens_dir) [
        | threw e ↦ some (record s { errors = s.errors + 1 }, 0)
        | ok entries ↦ after_listing s (filter_dirs entries)
      ]
