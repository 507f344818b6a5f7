-- ===== src/Onchain/Run.antt =====
-- `runOnchainChecks` of scripts/validators/onchain-validator.js: entries are grouped by chain, each
-- chain's endpoint is resolved once, and what is found is counted. The log lines are left out.
pub mod Groups
pub mod Tally
pub mod Laws
pub mod Skips
use vinuchain_lists.Prelude.{
  ℕ, zero, suc, ◌+◌, Bool, true, false, ◌&&◌, not, List, [], ◌∷◌, ◌++◌, map, Text, length, leb,
  ◌==◌, if◌then◌else◌, Outcome, ok, threw,
}
use vinuchain_lists.Onchain.Rpc.{
  Failure, Platform, chain_mismatch, testnet_chain_id, resolve_checked_rpc, endpoints,
}
use vinuchain_lists.Onchain.Checks.{
  Token, Contract, Report, check_token, check_contract_code, checks,
}

pub record ContractEntry : Type 0 where
  pub project_slug : Text
  pub contract : Contract

pub record Group : Type 0 where
  pub tokens : List Token
  pub contracts : List ContractEntry

abbrev pub empty_group : Group
empty_group = record { tokens = []; contracts = [] }

-- `byChain`, a map in the order of insertion.
abbrev pub Groups : Type 0
Groups = List (ℕ × Group)

pub record Summary : Type 0 where
  pub errors : ℕ
  pub warnings : ℕ
  pub skipped : List ℕ

abbrev pub keys : Groups → List ℕ
keys m = map (λ e. e.0) m

-- `byChain.get(chain)`, and the empty group where there is none.
unfoldable pub group_of : ℕ → Groups → Group
group_of chain [] = empty_group
group_of chain ((k, g) ∷ m) = if k == chain then g else group_of chain m

-- `if (!byChain.has(k)) byChain.set(k, empty); f(byChain.get(k))`
unfoldable pub upsert : ℕ → (Group → Group) → Groups → Groups
upsert chain f [] = (chain, f empty_group) ∷ []
upsert chain f ((k, g) ∷ m) = if k == chain then (k, f g) ∷ m else (k, g) ∷ upsert chain f m

abbrev push_token : Token → Group → Group
push_token t g = record g { tokens = g.tokens ++ t ∷ [] }

abbrev push_contract : ContractEntry → Group → Group
push_contract c g = record g { contracts = g.contracts ++ c ∷ [] }

unfoldable pub add_tokens : Groups → List Token → Groups
add_tokens m [] = m
add_tokens m (t ∷ ts) = add_tokens (upsert t.chain_id (push_token t) m) ts

unfoldable pub add_contracts : Groups → List ContractEntry → Groups
add_contracts m [] = m
add_contracts m (c ∷ cs) = add_contracts (upsert c.contract.chain_id (push_contract c) m) cs

unfoldable pub group_by_chain : List Token → List ContractEntry → Groups
unfolding add_tokens add_contracts upsert
group_by_chain tokens contracts = add_contracts (add_tokens [] tokens) contracts

-- `.sort((a, b) => a - b)`
unfoldable pub insert_sorted : ℕ → List ℕ → List ℕ
insert_sorted n [] = n ∷ []
insert_sorted n (m ∷ ms) = if leb n m then n ∷ m ∷ ms else m ∷ insert_sorted n ms

unfoldable pub sort_ascending : List ℕ → List ℕ
unfolding insert_sorted
sort_ascending [] = []
sort_ascending (n ∷ ns) = insert_sorted n (sort_ascending ns)

-- One entry's `try`: its errors and warnings are counted, and what it throws is one error.
unfoldable pub tally : Outcome Failure Report → Summary → Summary
tally (ok r) s = record s {
  errors = s.errors + length r.errors;
  warnings = s.warnings + length r.warnings;
}
tally (threw e) s = record s { errors = s.errors + 1 }

module _ (p : Platform) (url : Text) where
  unfoldable pub tally_tokens : List Token → Summary → Summary
  tally_tokens [] s = s
  tally_tokens (t ∷ ts) s = tally_tokens ts (tally (check_token p url t) s)

  unfoldable pub tally_contracts : List ContractEntry → Summary → Summary
  tally_contracts [] s = s
  tally_contracts (c ∷ cs) s = tally_contracts cs (tally (check_contract_code p url c.contract) s)

-- `chainId === TESTNET_CHAIN_ID && !strictTestnet && !e.chainMismatch`
unfoldable pub is_outage : Bool → ℕ → Failure → Bool
is_outage strict_testnet chain e =
    (chain == testnet_chain_id) && (not strict_testnet && not (chain_mismatch e))

module _ (p : Platform) (strict_testnet : Bool) where
  -- An outage of the testnet is skipped with a warning; any other failure is an error.
  unfoldable pub check_chain : ℕ → Group → Outcome Failure Text → Summary → Summary
  check_chain chain g (ok url) s = tally_contracts p url g.contracts (tally_tokens p url g.tokens s)
  check_chain chain g (threw e) s =
      if is_outage strict_testnet chain e
      then record s { warnings = s.warnings + 1; skipped = s.skipped ++ chain ∷ [] }
      else record s { errors = s.errors + 1 }

  unfoldable pub check_chains : Groups → List ℕ → Summary → Summary
  check_chains m [] s = s
  check_chains m (chain ∷ chains) s =
      check_chains m chains (check_chain chain (group_of chain m) (resolve_checked_rpc p chain) s)

  unfoldable pub run_onchain_checks : List Token → List ContractEntry → Summary
  run_onchain_checks tokens contracts =
      let m = group_by_chain tokens contracts in
      check_chains m (sort_ascending (keys m)) (record { errors = 0; warnings = 0; skipped = [] })

-- What a run computes through.
unfoldable pub run : Unit {0}
unfolding checks endpoints group_of group_by_chain sort_ascending tally tally_tokens tally_contracts
    is_outage check_chain check_chains run_onchain_checks
run = tt
