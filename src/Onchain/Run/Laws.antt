-- ===== src/Onchain/Run/Laws.antt =====
-- The loop over chains in `runOnchainChecks`, and its counters.
use vinuchain_lists.Prelude.{
  ℕ, ◌+◌, ◌≡◌, ◌≢◌, refl, ◌⊎◌, inl, inr, Bool, true, false, none, List, [], ◌∷◌, Text, All, In,
  All-In, All-of_In, In-filter_by, Outcome, ok, threw, arith, Bool-cases, ◌==◌, ==-refl,
}
use vinuchain_lists.Onchain.Rpc.{
  Failure, Platform, chain_mismatch, testnet_chain_id, resolve_checked_rpc,
}
use vinuchain_lists.Onchain.Checks.{Token, check_token, check_contract_code}
use vinuchain_lists.Onchain.Checks.Spec.{IsVerifiedToken, IsVerifiedContract}
use vinuchain_lists.Onchain.Checks.Tokens.{check_token_iff}
use vinuchain_lists.Onchain.Checks.Contracts.{check_contract_code_iff}
use vinuchain_lists.Onchain.Run.{
  ContractEntry, Group, Groups, Summary, keys, group_of, group_by_chain, sort_ascending,
  tally_tokens, is_outage, check_chain, check_chains, run_onchain_checks,
}
use vinuchain_lists.Onchain.Run.Groups.{
  group_by_chain_lem, In-keys_of_token, In-keys_of_contract, In-sort_ascending,
}
use vinuchain_lists.Onchain.Run.Tally.{IsClean, tally_tokens-IsClean, tally_contracts-IsClean}

error_counted : (s : Summary) → s.errors + 1 ≢ 0
error_counted s h = omega arith

pub is_outage_sound :
    (strict_testnet : Bool) (chain : ℕ) (e : Failure)
    → is_outage strict_testnet chain e ≡ true
    → (chain ≡ testnet_chain_id) × (strict_testnet ≡ false) × (chain_mismatch e ≡ false)
unfolding is_outage
is_outage_sound strict_testnet chain e h = (ground arith, ground arith, ground arith)

module _ (p : Platform) (strict_testnet : Bool) where
  -- The chain is the testnet, outages of it are tolerated, and its failure is an outage.
  abbrev pub IsTolerated : ℕ → Type 0
  IsTolerated chain =
      (chain ≡ testnet_chain_id)
      × (strict_testnet ≡ false)
      × (e : Failure) × (resolve_checked_rpc p chain ≡ threw e)
      × (chain_mismatch e ≡ false)

  -- Every entry of the chain was checked, at a resolved endpoint, and found clean.
  abbrev IsChecked : Group → ℕ → Type 0
  IsChecked g chain =
      (url : Text) × (resolve_checked_rpc p chain ≡ ok url)
      × All (λ t. IsClean (check_token p url t)) g.tokens
      × All (λ c. IsClean (check_contract_code p url c.contract)) g.contracts

  check_chain-IsClean :
      (chain : ℕ) (g : Group) (endpoint : Outcome Failure Text) (s : Summary)
      → resolve_checked_rpc p chain ≡ endpoint
      → (check_chain p strict_testnet chain g endpoint s).errors ≡ 0
      → (s.errors ≡ 0) × (IsTolerated chain ⊎ IsChecked g chain)
  unfolding check_chain
  check_chain-IsClean chain g (ok url) s resolved h =
      let (between, contracts) =
        tally_contracts-IsClean p url g.contracts (tally_tokens p url g.tokens s) h in
      let (before, tokens) = tally_tokens-IsClean p url g.tokens s between in
      (before, inr (url, resolved, tokens, contracts))
  check_chain-IsClean chain g (threw e) s resolved h =
      elim (Bool-cases (is_outage strict_testnet chain e)) [
        | inl outage ↦
            let (testnet, lax, unflagged) = is_outage_sound strict_testnet chain e outage in
            (rw (outage, check_chain) at h, inl (testnet, lax, e, resolved, unflagged))
        | inr fatal ↦ absurd (error_counted s (rw (fatal, check_chain) at h))
      ]

  check_chains-IsClean :
      (m : Groups) (chains : List ℕ) (s : Summary)
      → (check_chains p strict_testnet m chains s).errors ≡ 0
      → (s.errors ≡ 0)
        × All (λ chain. IsTolerated chain ⊎ IsChecked (group_of chain m) chain) chains
  unfolding check_chains
  check_chains-IsClean m [] s h = (h, tt)
  check_chains-IsClean m (chain ∷ chains) s h =
      let (between, later) = check_chains-IsClean m chains _ h in
      let (before, here) = check_chain-IsClean chain (group_of chain m) _ s refl between in
      (before, (here, later))

  -- The chain's outage was tolerated, or the token was checked clean at its chain's endpoint.
  abbrev pub TokenSettled : Token → Type 0
  TokenSettled t =
      IsTolerated t.chain_id
      ⊎ ((url : Text) × (resolve_checked_rpc p t.chain_id ≡ ok url) × IsVerifiedToken p url t)

  abbrev pub ContractSettled : ContractEntry → Type 0
  ContractSettled c =
      IsTolerated c.contract.chain_id
      ⊎ ((url : Text) × (resolve_checked_rpc p c.contract.chain_id ≡ ok url)
          × IsVerifiedContract p url c.contract)

  module _ (tokens : List Token) (contracts : List ContractEntry)
      (clean : (run_onchain_checks p strict_testnet tokens contracts).errors ≡ 0) where
    chain_settled :
        (chain : ℕ)
        → In chain (keys (group_by_chain tokens contracts))
        → IsTolerated chain ⊎ IsChecked (group_of chain (group_by_chain tokens contracts)) chain
    unfolding run_onchain_checks
    chain_settled chain key =
        let m = group_by_chain tokens contracts in
        All-In _ (sort_ascending (keys m))
          (check_chains-IsClean m (sort_ascending (keys m))
            (record { errors = 0; warnings = 0; skipped = [] }) clean).1
          (In-sort_ascending chain (keys m) key)

    token_settled : (t : Token) → In t tokens → t.symbol ≢ none → TokenSettled t
    token_settled t listed k =
        let m = group_by_chain tokens contracts in
        let grouped : In t (group_of t.chain_id m).tokens =
          rw (group_by_chain_lem t.chain_id tokens contracts).0
            (In-filter_by (λ u. u.chain_id == t.chain_id) tokens listed (==-refl t.chain_id)) in
        elim (chain_settled t.chain_id (In-keys_of_token t.chain_id t m grouped)) [
          | inl tolerated ↦ inl tolerated
          | inr (url, resolved, cleans, _) ↦ inr (
            url,
            resolved,
            (check_token_iff p url t k).0 (All-In _ (group_of t.chain_id m).tokens cleans grouped),
          )
        ]

    contract_settled : (c : ContractEntry) → In c contracts → ContractSettled c
    contract_settled c listed =
        let m = group_by_chain tokens contracts in
        let chain = c.contract.chain_id in
        let grouped : In c (group_of chain m).contracts =
          rw (group_by_chain_lem chain tokens contracts).1
            (In-filter_by (λ d. d.contract.chain_id == chain) contracts listed (==-refl chain)) in
        elim (chain_settled chain (In-keys_of_contract chain c m grouped)) [
          | inl tolerated ↦ inl tolerated
          | inr (url, resolved, _, cleans) ↦
              let clean_c = All-In _ (group_of chain m).contracts cleans grouped in
              inr (url, resolved, (check_contract_code_iff p url c.contract).0 clean_c)
        ]

  -- If a run over tokens that all declare a symbol counts no error, then each token and each
  -- contract entry is confirmed at the resolved endpoint of its chain, or its chain is the testnet,
  -- and a tolerated outage kept it from being checked.
  pub run-settles :
      (tokens : List Token) (contracts : List ContractEntry)
      → All (λ t. t.symbol ≢ none) tokens
      → (run_onchain_checks p strict_testnet tokens contracts).errors ≡ 0
      → All TokenSettled tokens × All ContractSettled contracts
  run-settles tokens contracts declared clean = (
    All-of_In TokenSettled tokens (λ t listed.
        token_settled tokens contracts clean t listed (All-In _ tokens declared listed)),
    All-of_In ContractSettled contracts (contract_settled tokens contracts clean),
  )
