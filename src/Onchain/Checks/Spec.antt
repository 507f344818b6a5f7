-- ===== src/Onchain/Checks/Spec.antt =====
-- What the on-chain checks establish of an entry, told without the order of the calls: each
-- condition speaks of what the endpoint answers and of what the entry declares.
use vinuchain_lists.Prelude.{
  ℕ, ◌≡◌, ◌≢◌, true, Option, none, some, [], Text, ◌⊎◌, Outcome, ok, threw, to_lower,
}
use vinuchain_lists.Numbers.{JsNumber, number_is}
use vinuchain_lists.Onchain.Rpc.{
  RpcValue, Failure, Platform, get_code, call, raw_json_rpc, parse_hex_int,
}
use vinuchain_lists.Onchain.Checks.{
  Token, Contract, selector_decimals, selector_symbol, selector_name, pinned, has_code, call_string,
  read_eip1967_impl,
}

-- The code unit sequence `value` hashes to `expected`, up to the case of the digits.
abbrev pub HashIs : Platform → RpcValue → Text → Type 0
HashIs p value expected =
    (hash : Text) × (p.keccak256 value ≡ ok hash) × (to_lower hash ≡ to_lower expected)

-- Code stands at the address.
abbrev pub HasCodeAt : Platform → Text → Text → RpcValue → Type 0
HasCodeAt p url address code =
    (raw_json_rpc p url (get_code address) ≡ ok code) × (has_code code ≡ true)

-- An entry with no pin asks nothing.
abbrev pub PinHolds : Platform → Option Text → RpcValue → Type 0
PinHolds p none code = Unit
PinHolds p (some expected) code = HashIs p code expected

abbrev pub ImplHolds : Platform → Text → Option Text → Option Text → Type 0
ImplHolds p url none none = Unit
ImplHolds p url (some expected) none = ⊥
ImplHolds p url none (some impl) = ⊥
ImplHolds p url (some expected) (some impl) =
    (code : RpcValue) × HasCodeAt p url impl code × HashIs p code expected

-- The slot is read, and it and the pin agree: both absent, or the pin is that of the code there.
abbrev pub ProxyHolds : Platform → Text → Text → Option Text → Type 0
ProxyHolds p url address pin =
    (impl : Option Text) × (read_eip1967_impl p url address ≡ ok impl)
    × ImplHolds p url (pinned pin) impl

abbrev pub DecimalsMatch : Platform → Text → Token → Type 0
DecimalsMatch p url token =
    (raw : RpcValue) × (found : JsNumber) × (declared : ℕ) × (raw_json_rpc p url
        (call token.address selector_decimals)
      ≡ ok raw)
    × (parse_hex_int raw ≡ ok found)
    × (token.decimals ≡ some declared)
    × (number_is found declared ≡ true)

-- The answer decodes to a text that is not empty.
abbrev pub Decodes : Outcome Failure (Option Text) → Text → Type 0
Decodes answer found = (answer ≡ ok (some found)) × (found ≢ [])

abbrev pub SymbolMatches : Platform → Option Text → Outcome Failure (Option Text) → Type 0
SymbolMatches p declared answer =
    (symbol : Text) × (found : Text) × (declared ≡ some symbol)
    × Decodes answer found
    × (p.upper_case found ≡ p.upper_case symbol)

-- The call failed, or its answer decodes to nothing or to the empty text.
abbrev pub Undecoded : Outcome Failure (Option Text) → Type 0
Undecoded answer =
    (answer ≡ ok none) ⊎ ((answer ≡ ok (some [])) ⊎ ((e : Failure) × (answer ≡ threw e)))

abbrev pub NameMatches : Option Text → Outcome Failure (Option Text) → Type 0
NameMatches declared answer = (name : Text) × (declared ≡ some name) × Decodes answer name

-- `symbol()` decodes to nothing, and `name()` answers the declared name.
abbrev pub NamedInstead : Platform → Text → Token → Type 0
NamedInstead p url token =
    Undecoded (call_string p url token.address selector_symbol)
    × NameMatches token.name (call_string p url token.address selector_name)

abbrev pub IdentityHolds : Platform → Text → Token → Type 0
IdentityHolds p url token =
    SymbolMatches p token.symbol (call_string p url token.address selector_symbol)
    ⊎ NamedInstead p url token

-- What is left of the identity for an entry with no symbol: any text does.
abbrev pub AnySymbol : Platform → Text → Token → Type 0
AnySymbol p url token =
    ((found : Text) × Decodes (call_string p url token.address selector_symbol) found)
    ⊎ NamedInstead p url token

-- Code, pin, decimals and implementation are in order, and so is the identity, as `Identity` has it.
pub record IsVerifiedBy (p : Platform) (url : Text) (token : Token) (Identity : Type 0)
    : Type 0 where
  pub code : RpcValue
  pub deployed : HasCodeAt p url token.address code
  pub type_pinned : PinHolds p (pinned token.code_hash) code
  pub decimals : DecimalsMatch p url token
  pub identity : Identity
  pub proxy : ProxyHolds p url token.address token.impl_code_hash

abbrev pub IsVerifiedToken : Platform → Text → Token → Type 0
IsVerifiedToken p url token = IsVerifiedBy p url token (IdentityHolds p url token)

pub record IsVerifiedContract (p : Platform) (url : Text) (contract : Contract) : Type 0 where
  pub code : RpcValue
  pub deployed : HasCodeAt p url contract.address code
  pub type_pinned : PinHolds p (pinned contract.code_hash) code
  pub proxy : ProxyHolds p url contract.address contract.impl_code_hash
