-- ===== src/Oracle/Rpc/Examples.antt =====
-- The theorems at an endpoint that answers on another chain, followed by one that is right.
use vinuchain_lists.Prelude.{
  ◌≤◌, ◌≡◌, ◌<◌, ◌⊎◌, [], ◌∷◌, ◌++◌, Text, codes, text_eq, true, false, if◌then◌else◌, ok, threw,
}
use vinuchain_lists.Onchain.Rpc.{Request, Response, replied, payload, str}
use vinuchain_lists.Oracle.Rpc.{
  unsafe_quantity, max_safe_integer, parse_quantity, no_endpoint, resolve_checked_provider,
}
use vinuchain_lists.Oracle.Rpc.Quantity.{hexadecimal, parse_quantity-hexadecimal}
use vinuchain_lists.Oracle.Rpc.Providers.{Resolves, resolve_checked_provider-Resolves}

parse_quantity-hexadecimal_example :
    (206 ≤ max_safe_integer → parse_quantity (str (codes "0x" ++ hexadecimal 206)) ≡ ok 206)
    × (max_safe_integer < 206
        → parse_quantity (str (codes "0x" ++ hexadecimal 206)) ≡ threw unsafe_quantity)
parse_quantity-hexadecimal_example = parse_quantity-hexadecimal 206

fetch : Text → Request → Response
unfolding text_eq
fetch url request =
    replied true
      (payload false (str (if text_eq url (codes "a") then codes "0xcf" else codes "0xce")))

resolve_checked_provider-Resolves_example :
    ((codes "a" ∷ codes "b" ∷ [] ≡ [])
      × (resolve_checked_provider fetch (codes "a" ∷ codes "b" ∷ []) 206 ≡ threw no_endpoint))
    ⊎ Resolves fetch 206
        (codes "a" ∷ codes "b" ∷ [])
        []
        (resolve_checked_provider fetch (codes "a" ∷ codes "b" ∷ []) 206)
resolve_checked_provider-Resolves_example =
    resolve_checked_provider-Resolves fetch (codes "a" ∷ codes "b" ∷ []) 206
