-- ===== src/Onchain/Rpc.antt =====
-- The JSON-RPC half of scripts/validators/onchain-validator.js: one request, and the probe and
-- resolution of endpoints. The network, `keccak256` of ethers, the UTF-8 decoder of Node and the
-- environment are parameters, the fields of `Platform`; a request's answer depends on the request
-- alone. Of a JSON value that an endpoint answers, strings are told from the falsy values
-- (`absent`) and from all others; an array, which has a `slice` of its own, is left out.
pub mod Laws
use vinuchain_lists.Prelude.{
  ℕ, Bool, true, false, ◌||◌, not, Option, none, some, List, [], ◌∷◌, ◌++◌, map, reverse, Text,
  codes, text_eq, starts_with, trim, is_space, ◌==◌, if◌then◌else◌, filter_by, Outcome, ok, threw,
  ◌>>=◌, ◌>>◌,
}
use vinuchain_lists.Numbers.{JsNumber, parse_int_16, number_is}

pub data RpcValue : Type 0 where
  absent : RpcValue
  str : Text → RpcValue
  other : RpcValue

pub data Request : Type 0 where
  chain_id block_number : Request
  get_code : (address : Text) → Request
  call : (to selector : Text) → Request
  get_storage_at : (address slot : Text) → Request

-- What `JSON.parse` makes of the body of a response, and whether its `error` is truthy.
pub data Body : Type 0 where
  invalid_json null_json : Body
  payload : (has_error : Bool) (result : RpcValue) → Body

pub data Response : Type 0 where
  aborted failed : Response
  replied : (is_ok : Bool) → Body → Response

pub data Failure : Type 0 where
  timed_out fetch_failed http_error invalid_response rpc_error type_error bad_quantity : Failure
  unknown_network no_url : ℕ → Failure
  wrong_chain : JsNumber → ℕ → Failure
  all_failed : (chain : ℕ) (saw_chain_mismatch : Bool) → Failure

-- `e.chainMismatch`
abbrev pub chain_mismatch : Failure → Bool
chain_mismatch (wrong_chain id expected) = true
chain_mismatch (all_failed chain saw) = saw
chain_mismatch _ = false

pub record Platform : Type 0 where
  pub fetch : Text → Request → Response
  pub keccak256 : RpcValue → Outcome Failure Text
  pub decode_utf8 : List ℕ → Text
  -- `t.toUpperCase()`, outside ASCII too.
  pub upper_case : Text → Text
  pub rpc_url_env : ℕ → Option Text

abbrev pub mainnet_chain_id : ℕ
mainnet_chain_id = 207

abbrev pub testnet_chain_id : ℕ
testnet_chain_id = 206

-- `VALID_CHAIN_IDS.includes(id)`
abbrev pub is_valid_chain_id : ℕ → Bool
is_valid_chain_id id = (id == testnet_chain_id) || (id == mainnet_chain_id)

-- `RPC_URLS_BY_CHAIN_ID[id]`
unfoldable pub default_rpc_url : ℕ → Option Text
default_rpc_url id =
    if id == mainnet_chain_id
    then some (codes "https://rpc.vinuchain.org")
    else if id == testnet_chain_id
    then some (codes "https://testnet-rpc.vinuchain.org")
    else none

-- One request. A thrown `AbortError` becomes the timeout.
unfoldable pub result_of : Response → Outcome Failure RpcValue
result_of aborted = threw timed_out
result_of failed = threw fetch_failed
result_of (replied false body) = threw http_error
result_of (replied true invalid_json) = threw invalid_response
result_of (replied true null_json) = threw type_error
result_of (replied true (payload has_error result)) =
    if has_error then threw rpc_error else ok result

unfoldable pub raw_json_rpc : Platform → Text → Request → Outcome Failure RpcValue
unfolding result_of
raw_json_rpc p url request = result_of (p.fetch url request)

unfoldable pub parse_hex_int : RpcValue → Outcome Failure JsNumber
unfolding starts_with parse_int_16
parse_hex_int (str value) =
    if starts_with (codes "0x") value then ok (parse_int_16 value) else threw bad_quantity
parse_hex_int _ = threw bad_quantity

-- `text.split(/[\s,]+/)`, but that a run of separators leaves empty pieces, which the filter drops.
unfoldable pub split_urls : Text → Text → List Text
split_urls piece [] = reverse piece ∷ []
split_urls piece (c ∷ t) =
    let closed = reverse piece ∷ split_urls [] t in
    let longer = split_urls (c ∷ piece) t in if is_space c || (c == b',') then closed else longer

-- `.filter(Boolean)` on texts
abbrev pub is_nonempty : Text → Bool
is_nonempty [] = false
is_nonempty (c ∷ t) = true

unfoldable pub default_urls : Option Text → List Text
default_urls none = []
default_urls (some url) = url ∷ []

unfoldable pub configured_urls : Option Text → ℕ → List Text
unfolding default_urls default_rpc_url split_urls trim
configured_urls (some (c ∷ t)) chain = filter_by is_nonempty (map trim (split_urls [] (c ∷ t)))
configured_urls _ chain = default_urls (default_rpc_url chain)

-- The environment names a list of endpoints for the two known chains only.
unfoldable pub rpc_urls_for_chain : Platform → ℕ → List Text
unfolding configured_urls
rpc_urls_for_chain p chain =
    configured_urls (if is_valid_chain_id chain then p.rpc_url_env chain else none) chain

unfoldable pub probe_endpoint : Platform → Text → ℕ → Outcome Failure Text
probe_endpoint p url expected =
    if not (is_valid_chain_id expected) then threw (unknown_network expected) else do
      raw ← raw_json_rpc p url chain_id
      id ← parse_hex_int raw
      if not (number_is id expected)
          then threw (wrong_chain id expected)
          else do raw_json_rpc p url block_number; ok url

-- The loop of `resolveCheckedRpc`, with `sawChainMismatch`.
unfoldable pub resolve_from : Platform → ℕ → List Text → Bool → Outcome Failure Text
resolve_from p chain [] saw = threw (all_failed chain saw)
resolve_from p chain (url ∷ urls) saw = elim (probe_endpoint p url chain) [
  | ok found ↦ ok found
  | threw e ↦ resolve_from p chain urls (chain_mismatch e || saw)
]

resolve_urls : Platform → ℕ → List Text → Outcome Failure Text
resolve_urls p chain [] = threw (no_url chain)
resolve_urls p chain (url ∷ urls) = resolve_from p chain (url ∷ urls) false

unfoldable pub resolve_checked_rpc : Platform → ℕ → Outcome Failure Text
unfolding resolve_urls
resolve_checked_rpc p chain = resolve_urls p chain (rpc_urls_for_chain p chain)

-- What a run of these functions computes through.
unfoldable pub endpoints : Unit {0}
unfolding raw_json_rpc parse_hex_int number_is probe_endpoint resolve_from resolve_checked_rpc
    rpc_urls_for_chain
endpoints = tt
