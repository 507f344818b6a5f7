-- ===== src/Oracle/Rpc.antt =====
-- The endpoints of scripts/update-vns-oracle.js: the lists, one request, and the health check. A
-- request's answer is that of Onchain.Rpc; the provider of an endpoint is the endpoint. The log is
-- left out.
pub mod Quantity
pub mod Providers
pub mod Examples
use vinuchain_lists.Prelude.{
  ℕ, Bool, true, false, ◌||◌, not, Option, none, some, List, [], ◌∷◌, ◌++◌, map, Text, codes, trim,
  leb, ◌==◌, if◌then◌else◌, filter_by, Outcome, ok, threw, ◌>>=◌,
}
use vinuchain_lists.Regex.{Regex, seq, unit, text, plus, matches}
use vinuchain_lists.Numbers.{hex_from}
use vinuchain_lists.Address.{is_hex}
use vinuchain_lists.Onchain.Rpc.{
  RpcValue, absent, str, other, Request, chain_id, block_number, Response, Failure, result_of,
  split_urls, is_nonempty,
}

-- What a health check fails with.
pub data EndpointError : Type 0 where
  request_failed : Failure → EndpointError
  invalid_quantity unsafe_quantity : EndpointError
  unknown_network : ℕ → EndpointError
  wrong_chain : (found expected : ℕ) → EndpointError

-- What the resolution of a provider fails with; `all_failed` holds each endpoint with its error.
pub data ProviderError : Type 0 where
  no_endpoint : ProviderError
  all_failed : List (Text × EndpointError) → ProviderError

abbrev pub is_known_chain : ℕ → Bool
is_known_chain id = (id == 205) || ((id == 206) || (id == 207))

-- `Number.MAX_SAFE_INTEGER`
abbrev pub max_safe_integer : ℕ
max_safe_integer = 9007199254740991

unfoldable pub pieces_of : Option Text → List Text
unfolding split_urls
pieces_of none = []
pieces_of (some []) = []
pieces_of (some (c ∷ t)) = split_urls [] (c ∷ t)

unfoldable pub all_pieces : List (Option Text) → List Text
unfolding pieces_of
all_pieces [] = []
all_pieces (v ∷ vs) = pieces_of v ++ all_pieces vs

unfoldable pub parse_rpc_urls : List (Option Text) → List Text
unfolding all_pieces trim
parse_rpc_urls values = filter_by is_nonempty (map trim (all_pieces values))

unfoldable pub or_fallback : Text → List Text → List Text
unfolding parse_rpc_urls
or_fallback fallback [] = parse_rpc_urls (some fallback ∷ [])
or_fallback fallback (url ∷ urls) = url ∷ urls

unfoldable pub rpc_urls_with_fallback : Text → List (Option Text) → List Text
unfolding or_fallback
rpc_urls_with_fallback fallback values = or_fallback fallback (parse_rpc_urls values)

-- `/^0x[0-9a-fA-F]+$/`
abbrev pub quantity_pattern : Regex
quantity_pattern = seq (text (codes "0x")) (plus (unit is_hex))

-- `Number(BigInt(value))`; above the safe integers the rounding stays above them.
unfoldable pub safe_quantity : ℕ → Outcome EndpointError ℕ
safe_quantity n = if leb n max_safe_integer then ok n else threw unsafe_quantity

unfoldable pub after_0x : Text → Text
after_0x (z ∷ x ∷ t) = t
after_0x t = t

unfoldable pub parse_quantity : RpcValue → Outcome EndpointError ℕ
unfolding matches text hex_from after_0x safe_quantity
parse_quantity (str value) =
    if matches quantity_pattern value
    then safe_quantity (hex_from 0 (after_0x value))
    else threw invalid_quantity
parse_quantity _ = threw invalid_quantity

unfoldable pub or_request_failed : Outcome Failure RpcValue → Outcome EndpointError RpcValue
or_request_failed (ok v) = ok v
or_request_failed (threw e) = threw (request_failed e)

module _ (fetch : Text → Request → Response) where
  unfoldable pub raw_json_rpc : Text → Request → Outcome EndpointError RpcValue
  unfolding result_of or_request_failed
  raw_json_rpc url request = or_request_failed (result_of (fetch url request))

  -- The chain and the block number.
  unfoldable pub probe_rpc_endpoint : Text → ℕ → Outcome EndpointError (ℕ × ℕ)
  unfolding raw_json_rpc parse_quantity
  probe_rpc_endpoint url expected =
      if not (is_known_chain expected) then threw (unknown_network expected) else do
        raw ← raw_json_rpc url chain_id
        id ← parse_quantity raw
        if not (id == expected) then threw (wrong_chain id expected) else do
          latest ← raw_json_rpc url block_number
          number ← parse_quantity latest
          ok (id, number)

  unfoldable pub provider_from :
      ℕ → List Text → List (Text × EndpointError) → Outcome ProviderError (Text × ℕ × ℕ)
  provider_from expected [] failures = threw (all_failed failures)
  provider_from expected (url ∷ urls) failures = elim (probe_rpc_endpoint url expected) [
    | ok (id, number) ↦ ok (url, id, number)
    | threw e ↦ provider_from expected urls (failures ++ (url, e) ∷ [])
  ]

  -- The endpoint, its chain and its block number.
  unfoldable pub resolve_checked_provider : List Text → ℕ → Outcome ProviderError (Text × ℕ × ℕ)
  unfolding provider_from
  resolve_checked_provider [] expected = threw no_endpoint
  resolve_checked_provider (url ∷ urls) expected = provider_from expected (url ∷ urls) []
