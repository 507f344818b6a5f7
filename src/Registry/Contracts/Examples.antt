-- ===== src/Registry/Contracts/Examples.antt =====
-- A run over a registry of one token and one project, and the theorems at it.
use vinuchain_lists.Prelude.{
  ◌↔◌, ℕ, ◌≤◌, ◌≡◌, ◌≢◌, Bool, true, false, Option, none, some, List, [], ◌∷◌, ◌++◌, Text, codes,
  text_eq, replicate, length, All, if◌then◌else◌, Outcome, ok, threw, is_space,
}
use vinuchain_lists.Json.{Json, str, obj, arr, end, field, nil, cons}
use vinuchain_lists.FileSystem.{FileSystem}
use vinuchain_lists.Url.{ParsedUrl}
use vinuchain_lists.Logo.{png_magic}
use vinuchain_lists.Registry.{Table, TokenData, ContractInfo, Setting, State, initial_state}
use vinuchain_lists.Registry.Contracts.{
  ContractData, ProjectData, Repository, is_registered_token, register_contract,
}
use vinuchain_lists.Registry.Contracts.Shared.{register_contract-twice}

abbrev listed : Text
listed = codes "0x00c1E515EA9579856304198EFb15f525A0bb50f6"

abbrev website : Json
website = str (codes "https://vinu.org/")

abbrev wvc : TokenData
wvc = record {
  address = listed;
  chain_id = 207;
  symbol = codes "WVC";
  name = codes "Wrapped VC";
  decimals = 18;
  support = some (codes "dev@vinu.org");
  project = some (codes "vinu");
  members = field (codes "website") website end;
}

abbrev wvc_contract : ContractData
wvc_contract = record {
  name = codes "WVC";
  artifact = none;
  address = listed;
  chain_id = 207;
  kind = codes "token";
}

abbrev vinu : ProjectData
vinu = record {
  contact = none;
  contracts = wvc_contract ∷ [];
  members = field (codes "website") website end;
}

abbrev abi : Json
abi = arr (cons (obj (field (codes "type") (str (codes "receive")) end)) nil)

files : FileSystem
unfolding text_eq
files = record {
  exists = λ path. true;
  is_directory = λ path. true;
  size = λ path. ok 200;
  read = λ path. ok (
      if text_eq path (codes "/r/contracts/vinu/WVC.sol")
      then codes "pragma solidity ^0.8.0; contract WVC { }"
      else if text_eq path (codes "/r/contracts/vinu/WVC_abi.json")
      then codes "[]"
      else codes "{}");
  read_dir =
      λ path. ok (if text_eq path (codes "/r/contracts") then codes "vinu" ∷ [] else listed ∷ []);
  header = λ path. ok (png_magic ++ replicate 4 0);
}

setting : Setting
unfolding files text_eq
setting = record {
  fs = files;
  cwd = codes "/r";
  scripts_dir = codes "/r/scripts";
  tokens_dir = codes "/r/tokens";
  parse =
      λ t. some (if text_eq t (codes "[]") then abi else obj (field (codes "website") website end));
  parse_url =
      λ t. some (record { protocol = codes "https:"; hostname = codes "vinu.org"; port = [] });
  get_address = λ t. some t;
  check_schema = λ v. ok wvc;
  allowed_symbols = [];
  allowed_names = [];
}

repository : Repository
unfolding setting
repository = record {
  setting = setting;
  contracts_dir = codes "/r/contracts";
  check_project_schema = λ v. ok vinu;
}

register_contract-twice_example :
    (is_registered_token initial_state wvc_contract ≡ false
      → (next : State) → register_contract initial_state (codes "a") wvc_contract ≡ some next
      → register_contract next (codes "b") wvc_contract ≡ none)
    × (is_registered_token initial_state wvc_contract ≡ true
        → (next : State) × (register_contract initial_state (codes "a") wvc_contract ≡ some next)
          × (register_contract next (codes "b") wvc_contract
              ≡ register_contract initial_state (codes "b") wvc_contract))
register_contract-twice_example =
    register_contract-twice initial_state (codes "a") (codes "b") wvc_contract
