-- ===== src/Onchain/Examples.antt =====
-- Runs of the on-chain checks against a small chain, and the theorems at these inputs.
use vinuchain_lists.Prelude.{
  ℕ, ◌≡◌, ◌≢◌, In, List, refl, true, false, Option, none, some, [], ◌∷◌, Text, codes, text_eq,
  to_upper, if◌then◌else◌, All, Any, replicate, ◌++◌, ok, threw, ◌↔◌,
}
use vinuchain_lists.Onchain.Rpc.{
  str, Request, chain_id, block_number, get_code, call, get_storage_at, payload, Response, failed,
  replied, all_failed, chain_mismatch, Platform, endpoints, rpc_urls_for_chain, resolve_checked_rpc,
}
use vinuchain_lists.Onchain.Rpc.Laws.{
  IsFirstHealthy, Refused, OnOtherChain, resolve_checked_rpc-eq-ok, resolve_checked_rpc-eq-threw,
}
use vinuchain_lists.Onchain.Checks.{
  Token, Report, symbol_failed, selector_decimals, selector_symbol, selector_name, checks,
  check_token, check_contract_code,
}
use vinuchain_lists.Onchain.Checks.Spec.{
  AnySymbol, IsVerifiedBy, IsVerifiedToken, IsVerifiedContract,
}
use vinuchain_lists.Onchain.Checks.Tokens.{check_token_iff, check_token-no_symbol}
use vinuchain_lists.Onchain.Checks.Contracts.{check_contract_code_iff}
use vinuchain_lists.Onchain.Run.{ContractEntry, run, run_onchain_checks}
use vinuchain_lists.Onchain.Run.Skips.{IsListed, run-skips_outages}
use vinuchain_lists.Onchain.Run.Laws.{IsTolerated, TokenSettled, ContractSettled, run-settles}

abbrev answer : Text → Response
answer t = replied true (payload false (str t))

-- A node of the mainnet, whose every address holds an 18-decimals token with the symbol BTC.
node : Text → Request → Response
unfolding text_eq
node url chain_id = answer (codes "0xcf")
node url block_number = answer (codes "0x10")
node url (get_code address) = answer (codes "0x6001")
node url (get_storage_at address slot) = answer (codes "0x")
node url (call to selector) =
    if text_eq selector selector_decimals
    then answer (codes "0x12")
    else if text_eq selector selector_symbol
    then answer (codes "0x425443")
    else failed

-- The same node, but that symbol() answers a length of 2 with no hexadecimal digits behind it.
garbled_node : Text → Request → Response
unfolding node
garbled_node url (call to selector) =
    if text_eq selector selector_symbol
    then answer
        (codes "0x" ++ (replicate 64 b'0' ++ (replicate 62 b'0' ++ (codes "02" ++ codes "zzzz"))))
    else if text_eq selector selector_name
    then answer (codes "0x426974636f696e")
    else node url (call to selector)
garbled_node url request = node url request

mainnet : Platform
unfolding node to_upper
mainnet = record {
  fetch = node;
  keccak256 = λ code. ok (codes "0xAB");
  decode_utf8 = λ bytes. bytes;
  upper_case = to_upper;
  rpc_url_env = λ chain. none;
}

abbrev btc : Token
btc = record {
  address = codes "0xb7c1";
  chain_id = 207;
  symbol = some (codes "BTC");
  name = some (codes "Bitcoin");
  decimals = some 18;
  code_hash = some (codes "0xab");
  impl_code_hash = none;
}

abbrev vault : ContractEntry
vault = record {
  project_slug = codes "vault";
  contract = record {
    address = codes "0x77";
    chain_id = 207;
    name = codes "Vault";
    code_hash = none;
    impl_code_hash = none;
  };
}

abbrev url : Text
url = codes "https://rpc.vinuchain.org"

btc_silent : check_token mainnet url btc ≡ ok (record { errors = []; warnings = [] })
unfolding checks mainnet
btc_silent = refl

run_silent : (run_onchain_checks mainnet false (btc ∷ []) (vault ∷ [])).errors ≡ 0
unfolding run mainnet
run_silent = refl

declares : (t : Text) → ◌≢◌ {A = Option Text} (some t) none
declares t h = cc

check_token_iff_example :
    ((r : Report) × (check_token mainnet url btc ≡ ok r) × (r.errors ≡ []))
    ↔ IsVerifiedToken mainnet url btc
check_token_iff_example = check_token_iff mainnet url btc (declares (codes "BTC"))

check_contract_code_iff_example :
    ((r : Report) × (check_contract_code mainnet url vault.contract ≡ ok r) × (r.errors ≡ []))
    ↔ IsVerifiedContract mainnet url vault.contract
check_contract_code_iff_example = check_contract_code_iff mainnet url vault.contract

-- A token whose entry has lost its symbol.
abbrev unnamed : Token
unnamed = record btc { symbol = none }

unnamed_silent :
    check_token mainnet url unnamed ≡ ok (record { errors = []; warnings = symbol_failed ∷ [] })
unfolding checks mainnet
unnamed_silent = refl

check_token-no_symbol_example :
    ((r : Report) × (check_token mainnet url unnamed ≡ ok r) × (r.errors ≡ []))
    ↔ IsVerifiedBy mainnet url unnamed (AnySymbol mainnet url unnamed)
check_token-no_symbol_example = check_token-no_symbol mainnet url unnamed refl

-- A contract whose symbol() answers a length, and then no hexadecimal digits, and whose name()
-- answers Bitcoin.
garbled : Platform
unfolding mainnet garbled_node
garbled = record mainnet { fetch = garbled_node }

garbled_silent : check_token garbled url btc ≡ ok (record { errors = []; warnings = [] })
unfolding checks garbled
garbled_silent = refl

resolved : resolve_checked_rpc mainnet 207 ≡ ok url
unfolding endpoints mainnet
resolved = refl

resolve_checked_rpc-eq-ok_example : IsFirstHealthy mainnet 207 (rpc_urls_for_chain mainnet 207) url
resolve_checked_rpc-eq-ok_example = resolve_checked_rpc-eq-ok mainnet 207 url resolved

-- The mainnet's node behind the testnet's default endpoint.
misrouted : resolve_checked_rpc mainnet 206 ≡ threw (all_failed 206 true)
unfolding endpoints mainnet
misrouted = refl

resolve_checked_rpc-eq-threw_example :
    All (Refused mainnet 206) (rpc_urls_for_chain mainnet 206)
    × ((chain_mismatch (all_failed 206 true) ≡ true)
        ↔ Any (OnOtherChain mainnet 206) (rpc_urls_for_chain mainnet 206))
resolve_checked_rpc-eq-threw_example =
    resolve_checked_rpc-eq-threw mainnet 206 (all_failed 206 true) misrouted

-- The mainnet's node, where the testnet does not answer.
outage_node : Text → Request → Response
unfolding node
outage_node url request =
    if text_eq url (codes "https://testnet-rpc.vinuchain.org") then failed else node url request

outage : Platform
unfolding mainnet outage_node
outage = record mainnet { fetch = outage_node }

abbrev both_chains : List Token
both_chains = btc ∷ record btc { chain_id = 206 } ∷ []

skips_testnet : (run_onchain_checks outage false both_chains []).skipped ≡ 206 ∷ []
unfolding run outage
skips_testnet = refl

run-skips_outages_example :
    In {A = ℕ} 206 (206 ∷ []) ↔ (IsListed both_chains [] 206 × IsTolerated outage false 206)
unfolding run outage
run-skips_outages_example = run-skips_outages outage false both_chains [] 206

run-settles_example :
    All (TokenSettled mainnet false) (btc ∷ []) × All (ContractSettled mainnet false) (vault ∷ [])
run-settles_example =
    run-settles mainnet false (btc ∷ []) (vault ∷ []) (declares (codes "BTC"), tt) run_silent
