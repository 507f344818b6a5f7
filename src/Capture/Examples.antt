-- ===== src/Capture/Examples.antt =====
-- The theorems at a token of the mainnet that has its pin, and a contract that has none yet.
use vinuchain_lists.Prelude.{
  ℕ, ◌≡◌, refl, Bool, true, false, Option, none, some, List, [], ◌∷◌, ◌++◌, Text, codes, text_eq,
  to_lower, to_upper, replicate, Outcome, ok, threw, starts_with, trim,
}
use vinuchain_lists.Onchain.Rpc.{
  Request, chain_id, block_number, get_code, call, get_storage_at, Response, replied, payload, str,
  Platform, endpoints,
}
use vinuchain_lists.Onchain.Checks.{Token, Contract, checks}
use vinuchain_lists.Capture.{token, contract, Target, Captured, capture}
use vinuchain_lists.Capture.Kept.{AllKept, capture-kept}

abbrev node : Text → Request → Response
node url chain_id = replied true (payload false (str (codes "0xcf")))
node url block_number = replied true (payload false (str (codes "0x10")))
node url (get_code address) = replied true (payload false (str (codes "0x6001")))
node url (get_storage_at address slot) = replied true (payload false (str (codes "0x")))
node url (call to selector) = replied false (payload true (str []))

abbrev mainnet : Platform
mainnet = record {
  fetch = node;
  keccak256 = λ code. ok (codes "0xab");
  decode_utf8 = λ bytes. bytes;
  upper_case = to_upper;
  rpc_url_env = λ chain. none;
}

abbrev vault : Contract
vault = record {
  address = codes "0x77";
  chain_id = 207;
  name = codes "Vault";
  code_hash = none;
  impl_code_hash = none;
}

abbrev wrapped : Token
wrapped = record {
  address = codes "0x78";
  chain_id = 207;
  symbol = some (codes "WVC");
  name = some (codes "Wrapped VC");
  decimals = some 18;
  code_hash = some (codes "0xAB");
  impl_code_hash = none;
}

abbrev targets : List Target
targets =
    record { entry = token wrapped; file = codes "0x78.json" }
    ∷ record { entry = contract vault; file = codes "info.json" }
    ∷ []

abbrev captured : Captured
captured = record {
  targets =
      record { entry = token wrapped; file = codes "0x78.json" }
      ∷ record {
        entry = contract (record vault { code_hash = some (codes "0xab") });
        file = codes "info.json";
      }
      ∷ [];
  tally = record { newly = 1; unchanged = 1; conflicts = 0; unpinned = 0 };
  dirty = codes "info.json" ∷ [];
}

captures : capture mainnet false false targets ≡ ok captured
unfolding capture endpoints checks
captures = refl

capture-kept_example : AllKept targets captured.targets
capture-kept_example = capture-kept mainnet false targets captured captures
