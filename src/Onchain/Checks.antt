-- ===== src/Onchain/Checks.antt =====
-- `checkToken` and `checkContractCode` of scripts/validators/onchain-validator.js. Each error or
-- warning that the code pushes is a constructor of `Finding`, in the order of the pushes; the text
-- of a message is left out.
pub mod Spec
pub mod Stages
pub mod Symbols
pub mod Tokens
pub mod Contracts
use vinuchain_lists.Prelude.{
  ℕ, Bool, true, false, ◌&&◌, ◌||◌, not, Option, none, some, List, [], ◌∷◌, ◌++◌, Text, codes,
  text_eq, to_lower, take_last, replicate, ◌==◌, if◌then◌else◌, Outcome, ok, threw, ◌>>=◌,
}
use vinuchain_lists.Numbers.{JsNumber, number_is}
use vinuchain_lists.Onchain.Rpc.{
  RpcValue, absent, str, other, Failure, type_error, Platform, get_code, call, get_storage_at,
  raw_json_rpc, parse_hex_int,
}
use vinuchain_lists.Onchain.Strings.{decode_abi_string, or_null}

-- The members of an entry that these checks read. `none` is a member that is missing, or of another
-- type than the schema's.
pub record Token : Type 0 where
  pub address : Text
  pub chain_id : ℕ
  pub symbol : Option Text
  pub name : Option Text
  pub decimals : Option ℕ
  pub code_hash : Option Text
  pub impl_code_hash : Option Text

pub record Contract : Type 0 where
  pub address : Text
  pub chain_id : ℕ
  pub name : Text
  pub code_hash : Option Text
  pub impl_code_hash : Option Text

pub data Finding : Type 0 where
  no_code code_hash_mismatch no_code_hash_pin : Finding
  decimals_mismatch decimals_failed : Finding
  symbol_mismatch symbol_failed name_mismatch name_failed no_identity : Finding
  impl_not_pinned impl_no_code impl_mismatch stale_impl_pin slot_failed : Finding

pub record Report : Type 0 where
  pub errors : List Finding
  pub warnings : List Finding

abbrev pub selector_decimals : Text
selector_decimals = codes "0x313ce567"

abbrev pub selector_symbol : Text
selector_symbol = codes "0x95d89b41"

abbrev pub selector_name : Text
selector_name = codes "0x06fdde03"

abbrev pub eip1967_impl_slot : Text
eip1967_impl_slot = codes "0x360894a13ba1a3210667c828492db98dca3e2076cc3735a920a3ca505d382bbc"

-- A member that is there and not the empty text: the test `if (entry.codeHash)`.
unfoldable pub pinned : Option Text → Option Text
unfolding or_null
pinned none = none
pinned (some t) = or_null t

-- `!(!code || code === '0x')`
unfoldable pub has_code : RpcValue → Bool
has_code absent = false
has_code other = true
has_code (str []) = false
has_code (str (c ∷ t)) = not (text_eq (c ∷ t) (codes "0x"))

-- The same test, and that for a slot of 32 zero bytes.
unfoldable pub impl_of_slot : RpcValue → Outcome Failure (Option Text)
impl_of_slot absent = ok none
impl_of_slot other = threw type_error
impl_of_slot (str []) = ok none
impl_of_slot (str (c ∷ t)) =
    if text_eq (c ∷ t) (codes "0x")
    then ok none
    else if text_eq (c ∷ t) (codes "0x" ++ replicate 64 b'0')
    then ok none
    else ok (some (codes "0x" ++ to_lower (take_last 40 (c ∷ t))))

unfoldable pub caught : Outcome Failure (List Finding) → Finding → List Finding
caught (ok findings) finding = findings
caught (threw e) finding = finding ∷ []

-- What `symbol()` comes to: a mismatch ends the check; else the two flags, with a warning or none.
-- The empty text is no answer, as `null` is none.
pub data Identity : Type 0 where
  mismatched : Identity
  flags : (decoded verified : Bool) (warnings : List Finding) → Identity

unfoldable pub read_symbol : (Text → Text) → Option Text → Outcome Failure (Option Text) → Identity
read_symbol upper declared (threw e) = flags false false (symbol_failed ∷ [])
read_symbol upper declared (ok none) = flags false false []
read_symbol upper declared (ok (some [])) = flags false false []
read_symbol upper none (ok (some (c ∷ t))) = flags true false (symbol_failed ∷ [])
read_symbol upper (some declared) (ok (some (c ∷ t))) =
    if text_eq (upper (c ∷ t)) (upper declared) then flags true true [] else mismatched

-- What `name()` comes to: the flags, with an error or a warning.
pub record NameFlags : Type 0 where
  pub decoded : Bool
  pub verified : Bool
  pub errors : List Finding
  pub warnings : List Finding

abbrev name_is : Option Text → Text → Bool
name_is none found = false
name_is (some declared) found = text_eq found declared

unfoldable pub read_name : Option Text → Outcome Failure (Option Text) → NameFlags
read_name declared (threw e) = record {
  decoded = false;
  verified = false;
  errors = [];
  warnings = name_failed ∷ [];
}
read_name declared (ok none) = record {
  decoded = false;
  verified = false;
  errors = [];
  warnings = [];
}
read_name declared (ok (some [])) = record {
  decoded = false;
  verified = false;
  errors = [];
  warnings = [];
}
read_name declared (ok (some (c ∷ t))) =
    if name_is declared (c ∷ t)
    then record { decoded = true; verified = true; errors = []; warnings = [] }
    else record { decoded = true; verified = false; errors = name_mismatch ∷ []; warnings = [] }

-- Neither text decoded, where `symbol()` did not.
unfoldable pub lost_identity : Bool → NameFlags → List Finding
lost_identity verified n =
    if not (verified || n.verified) && not n.decoded then no_identity ∷ [] else []

-- `onChainDecimals !== token.decimals`
unfoldable pub decimals_findings : Option ℕ → JsNumber → List Finding
decimals_findings none found = decimals_mismatch ∷ []
decimals_findings (some declared) found =
    if number_is found declared then [] else decimals_mismatch ∷ []

module _ (p : Platform) (url : Text) where
  -- The bytecode-type pin; an entry without one gets a warning.
  unfoldable pub pin_report : Option Text → RpcValue → Outcome Failure Report
  pin_report none code = ok (record { errors = []; warnings = no_code_hash_pin ∷ [] })
  pin_report (some expected) code = do
    hash ← p.keccak256 code
    let good = text_eq (to_lower hash) (to_lower expected)
    ok (record { errors = if good then [] else code_hash_mismatch ∷ []; warnings = [] })

  unfoldable pub check_code_hash : Option Text → RpcValue → Outcome Failure Report
  unfolding pin_report pinned
  check_code_hash pin code = pin_report (pinned pin) code

  unfoldable pub check_decimals : Token → Outcome Failure (List Finding)
  check_decimals token = do
    raw ← raw_json_rpc p url (call token.address selector_decimals)
    found ← parse_hex_int raw
    ok (decimals_findings token.decimals found)

  unfoldable pub call_string : Text → Text → Outcome Failure (Option Text)
  call_string address selector = do
    raw ← raw_json_rpc p url (call address selector)
    decode_abi_string p.decode_utf8 raw

  -- The proxy whose slot is not zero needs a pin.
  unfoldable pub check_impl_code : Text → Text → Outcome Failure (List Finding)
  check_impl_code expected impl = do
    code ← raw_json_rpc p url (get_code impl)
    if not (has_code code) then ok (impl_no_code ∷ []) else do
      hash ← p.keccak256 code
      ok (if text_eq (to_lower hash) (to_lower expected) then [] else impl_mismatch ∷ [])

  unfoldable pub impl_findings : Option Text → Option Text → Outcome Failure (List Finding)
  impl_findings none none = ok []
  impl_findings (some expected) none = ok (stale_impl_pin ∷ [])
  impl_findings none (some impl) = ok (impl_not_pinned ∷ [])
  impl_findings (some expected) (some impl) = check_impl_code expected impl

  unfoldable pub read_eip1967_impl : Text → Outcome Failure (Option Text)
  read_eip1967_impl address = do
    raw ← raw_json_rpc p url (get_storage_at address eip1967_impl_slot)
    impl_of_slot raw

  -- The four cases of slot and pin; what throws on the way is one more error.
  unfoldable pub check_impl : Text → Option Text → List Finding
  check_impl address pin =
      caught (do impl ← read_eip1967_impl address; impl_findings (pinned pin) impl) slot_failed

  -- The steps after `symbol()`, for an entry whose pushes so far are `report`.
  unfoldable pub check_name : Token → Report → Bool → Bool → Report
  check_name token report true verified = record report {
    errors = report.errors ++ check_impl token.address token.impl_code_hash;
  }
  check_name token report false verified =
      let n = read_name token.name (call_string token.address selector_name) in
      let impl = check_impl token.address token.impl_code_hash in
      record {
        errors = report.errors ++ (n.errors ++ (lost_identity verified n ++ impl));
        warnings = report.warnings ++ n.warnings;
      }

  unfoldable pub check_identity : Token → Report → Identity → Report
  check_identity token report mismatched = record report {
    errors = report.errors ++ symbol_mismatch ∷ [];
  }
  check_identity token report (flags decoded verified warnings) =
      check_name token (record report { warnings = report.warnings ++ warnings }) decoded verified

  unfoldable pub check_deployed : Token → RpcValue → Outcome Failure Report
  check_deployed token code = do
    pin ← check_code_hash token.code_hash code
    let decimals = caught (check_decimals token) decimals_failed
    let symbol = read_symbol p.upper_case token.symbol (call_string token.address selector_symbol)
    ok (check_identity token (record pin { errors = pin.errors ++ decimals }) symbol)

  unfoldable pub check_token : Token → Outcome Failure Report
  check_token token = do
    code ← raw_json_rpc p url (get_code token.address)
    if has_code code
        then check_deployed token code
        else ok (record { errors = no_code ∷ []; warnings = [] })

  unfoldable pub check_contract_deployed : Contract → RpcValue → Outcome Failure Report
  check_contract_deployed contract code = do
    pin ← check_code_hash contract.code_hash code
    let impl = check_impl contract.address contract.impl_code_hash
    ok (record pin { errors = pin.errors ++ impl })

  unfoldable pub check_contract_code : Contract → Outcome Failure Report
  check_contract_code contract = do
    code ← raw_json_rpc p url (get_code contract.address)
    if has_code code
        then check_contract_deployed contract code
        else ok (record { errors = no_code ∷ []; warnings = [] })

-- What a run of the checks computes through.
unfoldable pub checks : Unit {0}
unfolding raw_json_rpc parse_hex_int decimals_findings number_is decode_abi_string has_code to_lower
    impl_of_slot caught read_symbol read_name lost_identity pin_report check_code_hash
    check_decimals call_string check_impl_code impl_findings read_eip1967_impl check_impl check_name
    check_identity check_deployed check_token check_contract_deployed check_contract_code
checks = tt
