-- ===== src/Oracle/Rpc/Providers.antt =====
-- The endpoint that the resolution comes to.
use mathlib.Core.List.{append_assoc, append-nil}
use vinuchain_lists.Prelude.{
  ℕ, ◌≡◌, refl, sym, ap, ◌∙◌, ◌⊎◌, inl, inr, true, List, [], ◌∷◌, ◌++◌, map, Text, All, ◌==◌,
  ==_iff, Outcome-cases, Outcome, ok, threw, >>=-eq-ok, unless-eq-ok,
}
use vinuchain_lists.Onchain.Rpc.{Request, Response, chain_id, block_number}
use vinuchain_lists.Oracle.Rpc.{
  EndpointError, unknown_network, wrong_chain, ProviderError, no_endpoint, all_failed,
  is_known_chain, parse_quantity, raw_json_rpc, probe_rpc_endpoint, provider_from,
  resolve_checked_provider,
}

module _ (fetch : Text → Request → Response) where
  probe-eq-ok :
      (url : Text) (expected id number : ℕ)
      → probe_rpc_endpoint fetch url expected ≡ ok (id, number)
      → (is_known_chain expected ≡ true) × (id ≡ expected)
  unfolding probe_rpc_endpoint
  probe-eq-ok url expected id number h =
      let (known, h₁) = unless-eq-ok (is_known_chain expected) (unknown_network expected) _ h in
      let (raw, _, h₂) = >>=-eq-ok (raw_json_rpc fetch url chain_id) _ h₁ in
      let (found, _, h₃) = >>=-eq-ok (parse_quantity raw) _ h₂ in
      let (same, h₄) = unless-eq-ok (found == expected) (wrong_chain found expected) _ h₃ in
      let (latest, _, h₅) = >>=-eq-ok (raw_json_rpc fetch url block_number) _ h₄ in
      let (n, _, h₆) = >>=-eq-ok (parse_quantity latest) _ h₅ in
      let pair : ◌≡◌ {A = ℕ × ℕ} (found, n) (id, number) = cc h₆ in
      (known, sym (ap (λ z. z.0) pair) ∙ (==_iff found expected).0 same)

  -- The endpoint fails its check.
  abbrev pub IsRefused : ℕ → Text → Type 0
  IsRefused expected url = (e : EndpointError) × (probe_rpc_endpoint fetch url expected ≡ threw e)

  -- The endpoint fails its check with the error that is kept with it.
  abbrev pub IsFailure : ℕ → Text × EndpointError → Type 0
  IsFailure expected f = probe_rpc_endpoint fetch (f.0) expected ≡ threw (f.1)

  -- The first endpoint of the list that passes, and the endpoints before it.
  pub record IsFirst (urls : List Text) (expected : ℕ) (url : Text) (id number : ℕ) : Type 0 where
    pub before : List Text
    pub after : List Text
    pub whole : urls ≡ before ++ url ∷ after
    pub refused : All (IsRefused expected) before
    pub passes : probe_rpc_endpoint fetch url expected ≡ ok (id, number)
    pub known : is_known_chain expected ≡ true
    pub same_chain : id ≡ expected

  -- A list came to the first endpoint that passes, or every endpoint failed and the error holds each,
  -- in their order, with what its check failed with.
  abbrev pub Resolves :
      ℕ → List Text → List (Text × EndpointError) → Outcome ProviderError (Text × ℕ × ℕ) → Type 0
  Resolves expected urls failures result =
      ((url : Text) × (id : ℕ) × (number : ℕ) × (result ≡ ok (url, id, number))
        × IsFirst urls expected url id number)
      ⊎ ((more : List (Text × EndpointError)) × (result ≡ threw (all_failed (failures ++ more)))
          × (map (λ f. f.0) more ≡ urls)
          × All (IsFailure expected) more)

  provider_from-Resolves :
      (expected : ℕ) (urls : List Text) (failures : List (Text × EndpointError))
      → Resolves expected urls failures (provider_from fetch expected urls failures)
  unfolding provider_from
  provider_from-Resolves expected [] failures =
      inr ([], ap (λ z. threw (all_failed z)) (sym (append-nil failures)), refl, tt)
  provider_from-Resolves expected (url ∷ urls) failures =
      elim (Outcome-cases (probe_rpc_endpoint fetch url expected)) [
        | inl ((id, number), passes) ↦
            let (known, same) = probe-eq-ok url expected id number passes in
            inl (
              url,
              id,
              number,
              rw (provider_from, passes) refl,
              record {
                before = [];
                after = urls;
                whole = refl;
                refused = tt;
                passes = passes;
                known = known;
                same_chain = same;
              },
            )
        | inr (e, fails) ↦
            let later = provider_from-Resolves expected urls (failures ++ (url, e) ∷ []) in
            let same : provider_from fetch expected (url ∷ urls) failures
                ≡ provider_from fetch expected urls (failures ++ (url, e) ∷ []) =
              rw (provider_from, fails) refl in
            elim later [
              | inl (found, id, number, is_found, first) ↦ inl (
                found,
                id,
                number,
                same ∙ is_found,
                record {
                  before = url ∷ first.before;
                  after = first.after;
                  whole = ap (λ z. url ∷ z) first.whole;
                  refused = ((e, fails), first.refused);
                  passes = first.passes;
                  known = first.known;
                  same_chain = first.same_chain;
                },
              )
              | inr (more, stopped, names, all) ↦ inr (
                (url, e) ∷ more,
                same
                    ∙ (stopped
                        ∙ ap (λ z. threw (all_failed z))
                            (append_assoc failures ((url, e) ∷ []) more)),
                ap (λ z. url ∷ z) names,
                (fails, all),
              )
            ]
      ]

  -- The resolution comes to the first endpoint of the list that passes, which answers for the expected
  -- chain, one of the known ones; or the list is empty; or every endpoint was refused, and the error
  -- holds the endpoints in their order, each with the error that its own check failed with.
  pub resolve_checked_provider-Resolves :
      (urls : List Text) (expected : ℕ)
      → ((urls ≡ []) × (resolve_checked_provider fetch urls expected ≡ threw no_endpoint))
        ⊎ Resolves expected urls [] (resolve_checked_provider fetch urls expected)
  unfolding resolve_checked_provider
  resolve_checked_provider-Resolves [] expected = inl (refl, refl)
  resolve_checked_provider-Resolves (url ∷ urls) expected =
      inr (provider_from-Resolves expected (url ∷ urls) [])
