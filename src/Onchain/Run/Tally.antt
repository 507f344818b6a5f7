-- ===== src/Onchain/Run/Tally.antt =====
-- The counters of `runOnchainChecks` over the entries of one chain.
use vinuchain_lists.Prelude.{
  ◌≡◌, refl, ◌∙◌, List, [], ◌∷◌, Text, length, All, Outcome, ok, threw, arith,
}
use vinuchain_lists.Onchain.Rpc.{Failure, Platform}
use vinuchain_lists.Onchain.Checks.{Finding, Token, Report, check_token, check_contract_code}
use vinuchain_lists.Onchain.Run.{
  ContractEntry, Group, Summary, tally, tally_tokens, tally_contracts,
}

-- The check returned, and with no error.
abbrev pub IsClean : Outcome Failure Report → Type 0
IsClean m = (r : Report) × (m ≡ ok r) × (r.errors ≡ [])

length-eq-zero : (xs : List Finding) → length xs ≡ 0 → xs ≡ []
length-eq-zero [] h = refl
length-eq-zero (x ∷ xs) h = absurd (omega arith)

tally-IsClean :
    (m : Outcome Failure Report) (s : Summary) → (tally m s).errors ≡ 0 → (s.errors ≡ 0) × IsClean m
unfolding tally
tally-IsClean (ok r) s h = (omega arith, (r, refl, length-eq-zero r.errors (omega arith)))
tally-IsClean (threw e) s h = absurd (omega arith)

tally-skipped : (m : Outcome Failure Report) (s : Summary) → (tally m s).skipped ≡ s.skipped
unfolding tally
tally-skipped (ok r) s = refl
tally-skipped (threw e) s = refl

module _ (p : Platform) (url : Text) where
  pub tally_tokens-IsClean :
      (ts : List Token) (s : Summary)
      → (tally_tokens p url ts s).errors ≡ 0
      → (s.errors ≡ 0) × All (λ t. IsClean (check_token p url t)) ts
  unfolding tally_tokens
  tally_tokens-IsClean [] s h = (h, tt)
  tally_tokens-IsClean (t ∷ ts) s h =
      let (before, later) = tally_tokens-IsClean ts (tally (check_token p url t) s) h in
      let (first, clean) = tally-IsClean (check_token p url t) s before in (first, (clean, later))

  pub tally_contracts-IsClean :
      (cs : List ContractEntry) (s : Summary)
      → (tally_contracts p url cs s).errors ≡ 0
      → (s.errors ≡ 0) × All (λ c. IsClean (check_contract_code p url c.contract)) cs
  unfolding tally_contracts
  tally_contracts-IsClean [] s h = (h, tt)
  tally_contracts-IsClean (c ∷ cs) s h =
      let (before, later) =
        tally_contracts-IsClean cs (tally (check_contract_code p url c.contract) s) h in
      let (first, clean) = tally-IsClean (check_contract_code p url c.contract) s before in
      (first, (clean, later))

  tally_tokens-skipped :
      (ts : List Token) (s : Summary) → (tally_tokens p url ts s).skipped ≡ s.skipped
  unfolding tally_tokens
  tally_tokens-skipped [] s = refl
  tally_tokens-skipped (t ∷ ts) s =
      tally_tokens-skipped ts (tally (check_token p url t) s)
      ∙ tally-skipped (check_token p url t) s

  tally_contracts-skipped :
      (cs : List ContractEntry) (s : Summary) → (tally_contracts p url cs s).skipped ≡ s.skipped
  unfolding tally_contracts
  tally_contracts-skipped [] s = refl
  tally_contracts-skipped (c ∷ cs) s =
      tally_contracts-skipped cs (tally (check_contract_code p url c.contract) s)
      ∙ tally-skipped (check_contract_code p url c.contract) s

  -- Checking the entries of a chain skips no chain.
  pub tally_group-skipped :
      (g : Group) (s : Summary)
      → (tally_contracts p url g.contracts (tally_tokens p url g.tokens s)).skipped ≡ s.skipped
  tally_group-skipped g s =
      tally_contracts-skipped g.contracts (tally_tokens p url g.tokens s)
      ∙ tally_tokens-skipped g.tokens s
