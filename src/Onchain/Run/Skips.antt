-- ===== src/Onchain/Run/Skips.antt =====
-- The chains that `runOnchainChecks` skips.
use vinuchain_lists.Prelude.{
  ℕ, ◌≡◌, refl, sym, ◌⊎◌, ◌↔◌, inl, inr, Bool, true, false, List, [], ◌∷◌, ◌++◌, In, Any, Text,
  In-append_left, In-append_right, In-filter_by, Outcome, ok, threw, Bool-cases, ◌==◌, ==_iff,
  subst,
}
use vinuchain_lists.Onchain.Rpc.{
  Failure, Platform, chain_mismatch, testnet_chain_id, resolve_checked_rpc,
}
use vinuchain_lists.Onchain.Checks.{Token}
use vinuchain_lists.Onchain.Run.{
  ContractEntry, Group, Groups, Summary, keys, group_of, group_by_chain, sort_ascending, is_outage,
  check_chain, check_chains, run_onchain_checks,
}
use vinuchain_lists.Onchain.Run.Groups.{
  group_by_chain_lem, In-keys_of_token, In-keys_of_contract, In-sort_ascending,
  In-sort_ascending_inv, In-keys_inv,
}
use vinuchain_lists.Onchain.Run.Tally.{tally_group-skipped}
use vinuchain_lists.Onchain.Run.Laws.{is_outage_sound, IsTolerated}

is_outage_complete :
    (strict_testnet : Bool) (chain : ℕ) (e : Failure)
    → chain ≡ testnet_chain_id
    → strict_testnet ≡ false
    → chain_mismatch e ≡ false
    → is_outage strict_testnet chain e ≡ true
unfolding is_outage
is_outage_complete strict_testnet chain e testnet lax unflagged = rw (testnet, lax, unflagged) refl

In-append_inv : (a : ℕ) (xs ys : List ℕ) → In a (xs ++ ys) → In a xs ⊎ In a ys
In-append_inv a [] ys m = inr m
In-append_inv a (x ∷ xs) ys (inl e) = inl (inl e)
In-append_inv a (x ∷ xs) ys (inr m) = elim (In-append_inv a xs ys m) [
  | inl left ↦ inl (inr left)
  | inr right ↦ inr right
]

-- Some entry is of the chain.
abbrev pub IsListed : List Token → List ContractEntry → ℕ → Type 0
IsListed tokens contracts chain =
    Any (λ t. t.chain_id ≡ chain) tokens ⊎ Any (λ c. c.contract.chain_id ≡ chain) contracts

Any-In : {A : Type 0} (P : A → Type 0) (xs : List A) → Any P xs → (a : A) × In a xs × P a
Any-In P [] h = absurd h
Any-In P (x ∷ xs) (inl here) = (x, inl refl, here)
Any-In P (x ∷ xs) (inr later) = let (a, m, h) = Any-In P xs later in (a, inr m, h)

module _ (tokens : List Token) (contracts : List ContractEntry) (chain : ℕ) where
  In-keys_of_listed :
      IsListed tokens contracts chain → In chain (keys (group_by_chain tokens contracts))
  In-keys_of_listed (inl listed) =
      let m = group_by_chain tokens contracts in
      let (t, is_in, same) = Any-In (λ u. u.chain_id ≡ chain) tokens listed in
      let grouped : In t (group_of chain m).tokens =
        rw (group_by_chain_lem chain tokens contracts).0 (
          In-filter_by (λ u. u.chain_id == chain) tokens is_in
            ((==_iff t.chain_id chain).1 same)) in
      In-keys_of_token chain t m grouped
  In-keys_of_listed (inr listed) =
      let m = group_by_chain tokens contracts in
      let (c, is_in, same) = Any-In (λ d. d.contract.chain_id ≡ chain) contracts listed in
      let grouped : In c (group_of chain m).contracts =
        rw (group_by_chain_lem chain tokens contracts).1 (
          In-filter_by (λ d. d.contract.chain_id == chain) contracts is_in
            ((==_iff c.contract.chain_id chain).1 same)) in
      In-keys_of_contract chain c m grouped

module _ (p : Platform) (strict_testnet : Bool) where
  check_chain-skips :
      (chain c : ℕ) (g : Group) (endpoint : Outcome Failure Text) (s : Summary)
      → resolve_checked_rpc p chain ≡ endpoint
      → In c (check_chain p strict_testnet chain g endpoint s).skipped
        ↔ (In c s.skipped ⊎ ((chain ≡ c) × IsTolerated p strict_testnet c))
  unfolding check_chain
  check_chain-skips chain c g (ok url) s resolved = (
    λ h. inl (subst (In c) (tally_group-skipped p url g s) h),
    λ h. elim h [
      | inl before ↦ subst (In c) (sym (tally_group-skipped p url g s)) before
      | inr (same, (_, _, e, fails, _)) ↦ cc (resolved, same, fails)
    ],
  )
  check_chain-skips chain c g (threw e) s resolved =
      elim (Bool-cases (is_outage strict_testnet chain e)) [
        | inl outage ↦
            let (testnet, lax, unflagged) = is_outage_sound strict_testnet chain e outage in
            rw (outage, check_chain)
              (
                λ h. elim (In-append_inv c s.skipped (chain ∷ []) h) [
                  | inl before ↦ inl before
                  | inr (inl same) ↦ inr (
                    same,
                    subst (IsTolerated p strict_testnet) same
                        (testnet, lax, e, resolved, unflagged),
                  )
                  | inr (inr later) ↦ absurd later
                ],
                λ h. elim h [
                  | inl before ↦ In-append_left c s.skipped (chain ∷ []) before
                  | inr (same, _) ↦ In-append_right c s.skipped (chain ∷ []) (inl same)
                ],
              )
        | inr fatal ↦
            rw (fatal, check_chain)
              (
                λ h. inl h,
                λ h. elim h [
                  | inl before ↦ before
                  | inr (same, (testnet, lax, e', fails, unflagged)) ↦
                      let both : e ≡ e' = cc (resolved, same, fails) in
                      cc (
                        fatal,
                        same,
                        both,
                        is_outage_complete strict_testnet c e' testnet lax unflagged,
                      )
                ],
              )
      ]

  check_chains-skips :
      (m : Groups) (chains : List ℕ) (c : ℕ) (s : Summary)
      → In c (check_chains p strict_testnet m chains s).skipped
        ↔ (In c s.skipped ⊎ (In c chains × IsTolerated p strict_testnet c))
  unfolding check_chains
  check_chains-skips m [] c s =
      (λ h. inl h, λ h. elim h [ inl before ↦ before | inr (listed, _) ↦ absurd listed ])
  check_chains-skips m (chain ∷ chains) c s =
      let next =
        check_chain p strict_testnet chain (group_of chain m) (resolve_checked_rpc p chain) s in
      let here =
        check_chain-skips chain c (group_of chain m) (resolve_checked_rpc p chain) s refl in
      let later = check_chains-skips m chains c next in
      (
        λ h. elim (later.0 h) [
          | inl now ↦ elim (here.0 now) [
            | inl before ↦ inl before
            | inr (same, tolerated) ↦ inr (inl same, tolerated)
          ]
          | inr (listed, tolerated) ↦ inr (inr listed, tolerated)
        ],
        λ h. elim h [
          | inl before ↦ later.1 (inl (here.1 (inl before)))
          | inr (inl same, tolerated) ↦ later.1 (inl (here.1 (inr (same, tolerated))))
          | inr (inr listed, tolerated) ↦ later.1 (inr (listed, tolerated))
        ],
      )

  -- A run skips exactly the chains of its entries that are the testnet, only if it is not strict,
  -- and only for an outage: no endpoint could be resolved, and the failure is not flagged as a
  -- misconfiguration.
  pub run-skips_outages :
      (tokens : List Token) (contracts : List ContractEntry) (chain : ℕ)
      → In chain (run_onchain_checks p strict_testnet tokens contracts).skipped
        ↔ (IsListed tokens contracts chain × IsTolerated p strict_testnet chain)
  unfolding run_onchain_checks
  run-skips_outages tokens contracts chain =
      let m = group_by_chain tokens contracts in
      let skips =
        check_chains-skips m (sort_ascending (keys m)) chain
          (record { errors = 0; warnings = 0; skipped = [] }) in
      (
        λ h. elim (skips.0 h) [
          | inl before ↦ absurd before
          | inr (listed, tolerated) ↦ (
            In-keys_inv chain tokens contracts (In-sort_ascending_inv chain (keys m) listed),
            tolerated,
          )
        ],
        λ (listed, tolerated). skips.1 (
            inr (
              In-sort_ascending chain (keys m) (In-keys_of_listed tokens contracts chain listed),
              tolerated,
            )),
      )
