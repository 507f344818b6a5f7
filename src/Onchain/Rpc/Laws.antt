-- ===== src/Onchain/Rpc/Laws.antt =====
-- `probeEndpoint` and `resolveCheckedRpc`: the endpoint of a chain.
use vinuchain_lists.Prelude.{
  ℕ, ◌≡◌, ◌⊎◌, inl, inr, ◌↔◌, ap, sym, ◌∙◌, Outcome-cases, ◌++◌, unless-eq-ok, Bool, true, false,
  ◌||◌, List, [], ◌∷◌, Text, Outcome, ok, threw, >>=-eq-ok, arith, Bool-cases, Any, All,
}
use vinuchain_lists.Numbers.{JsNumber, number_is}
use vinuchain_lists.Onchain.Rpc.{
  RpcValue, Failure, unknown_network, wrong_chain, no_url, all_failed, chain_mismatch, Platform,
  chain_id, block_number, is_valid_chain_id, raw_json_rpc, parse_hex_int, rpc_urls_for_chain,
  probe_endpoint, resolve_from, resolve_urls, resolve_checked_rpc,
}

-- The endpoint answered `eth_chainId` with the number `chain`, and `eth_blockNumber` with anything.
pub record AnswersFor (p : Platform) (url : Text) (chain : ℕ) : Type 0 where
  pub raw : RpcValue
  pub id : JsNumber
  pub height : RpcValue
  pub asked : raw_json_rpc p url chain_id ≡ ok raw
  pub parsed : parse_hex_int raw ≡ ok id
  pub same : number_is id chain ≡ true
  pub alive : raw_json_rpc p url block_number ≡ ok height
  pub known : is_valid_chain_id chain ≡ true

failure_flag : Outcome Failure Text → Bool
failure_flag (ok url) = false
failure_flag (threw e) = chain_mismatch e

module _ (p : Platform) (chain : ℕ) where
  probe_endpoint_sound :
      (url found : Text)
      → probe_endpoint p url chain ≡ ok found
      → (found ≡ url) × AnswersFor p url chain
  unfolding probe_endpoint
  probe_endpoint_sound url found h =
      let (known, h₁) = unless-eq-ok (is_valid_chain_id chain) (unknown_network chain) _ h in
      let (raw, asked, h₂) = >>=-eq-ok (raw_json_rpc p url chain_id) _ h₁ in
      let (id, parsed, h₃) = >>=-eq-ok (parse_hex_int raw) _ h₂ in
      let (same, h₄) = unless-eq-ok (number_is id chain) (wrong_chain id chain) _ h₃ in
      let (height, alive, h₅) = >>=-eq-ok (raw_json_rpc p url block_number) _ h₄ in
      (
        cc h₅,
        record {
          raw = raw;
          id = id;
          height = height;
          asked = asked;
          parsed = parsed;
          same = same;
          alive = alive;
          known = known;
        },
      )

  probe_endpoint_complete :
      (url : Text) → AnswersFor p url chain → probe_endpoint p url chain ≡ ok url
  unfolding probe_endpoint
  probe_endpoint_complete url a = rw (a.known, a.asked, a.parsed, a.same, a.alive)

  -- An endpoint is accepted, and then as it was given, exactly when it answers for the chain.
  pub probe_endpoint_iff :
      (url found : Text)
      → (probe_endpoint p url chain ≡ ok found) ↔ ((found ≡ url) × AnswersFor p url chain)
  probe_endpoint_iff url found = (
    probe_endpoint_sound url found,
    λ (same, a). probe_endpoint_complete url a ∙ ap ok (sym same),
  )

  -- The endpoint was refused.
  abbrev pub Refused : Text → Type 0
  Refused url = (e : Failure) × (probe_endpoint p url chain ≡ threw e)

  -- The endpoint was refused for answering on another chain.
  abbrev pub OnOtherChain : Text → Type 0
  OnOtherChain url =
      (e : Failure) × (probe_endpoint p url chain ≡ threw e) × (chain_mismatch e ≡ true)

  -- `url` is the first of the list that answers for the chain.
  pub record IsFirstHealthy (urls : List Text) (url : Text) : Type 0 where
    pub before : List Text
    pub after : List Text
    pub split : urls ≡ before ++ url ∷ after
    pub refused : All Refused before
    pub answers : AnswersFor p url chain

  resolve_from-eq-ok :
      (urls : List Text) (saw : Bool) (url : Text)
      → resolve_from p chain urls saw ≡ ok url
      → IsFirstHealthy urls url
  unfolding resolve_from
  resolve_from-eq-ok [] saw url h = cc
  resolve_from-eq-ok (u ∷ urls) saw url h = elim (Outcome-cases (probe_endpoint p u chain)) [
    | inl (found, healthy) ↦
        let same : found ≡ url = cc (rw (healthy, resolve_from) at h) in
        let (is_u, answers) = probe_endpoint_sound u found healthy in
        let url_is_u : url ≡ u = sym same ∙ is_u in
        record {
          before = [];
          after = urls;
          split = ap (λ t. t ∷ urls) (sym url_is_u);
          refused = tt;
          answers = rw url_is_u answers;
        }
    | inr (e, refused) ↦
        let ih =
          resolve_from-eq-ok urls (chain_mismatch e || saw) url (rw (refused, resolve_from) at h) in
        record {
          before = u ∷ ih.before;
          after = ih.after;
          split = ap (λ t. u ∷ t) ih.split;
          refused = ((e, refused), ih.refused);
          answers = ih.answers;
        }
  ]

  resolve_from-eq-threw :
      (urls : List Text) (saw : Bool) (e : Failure)
      → resolve_from p chain urls saw ≡ threw e
      → All Refused urls × ((chain_mismatch e ≡ true) ↔ ((saw ≡ true) ⊎ Any OnOtherChain urls))
  unfolding resolve_from failure_flag
  resolve_from-eq-threw [] saw e h =
      let is_e : all_failed chain saw ≡ e = cc h in
      (tt, rw (← is_e) (λ m. inl m, λ m. elim m [ inl is_saw ↦ is_saw | inr m' ↦ absurd m' ]))
  resolve_from-eq-threw (u ∷ urls) saw e h = elim (Outcome-cases (probe_endpoint p u chain)) [
    | inl (found, healthy) ↦ cc (rw (healthy, resolve_from) at h)
    | inr (f, refused) ↦
        let (others, (to, from)) =
          resolve_from-eq-threw urls (chain_mismatch f || saw) e
            (rw (refused, resolve_from) at h) in
        (
          ((f, refused), others),
          (
            λ m. elim (to m) [
              | inl flag ↦ elim (Bool-cases (chain_mismatch f)) [
                | inl wrong ↦ inr (inl (f, refused, wrong))
                | inr right ↦ inl (ground arith)
              ]
              | inr later ↦ inr (inr later)
            ],
            λ m. elim m [
              | inl is_saw ↦ from (inl (ground arith))
              | inr (inl (g, threw_g, wrong)) ↦
                  let is_f : ◌≡◌ {A = Outcome Failure Text} (threw f) (threw g) =
                    sym refused ∙ threw_g in
                  from (inl (ground (arith, ap failure_flag is_f)))
              | inr (inr later) ↦ from (inr later)
            ],
          ),
        )
  ]

  resolve_urls-eq-ok :
      (urls : List Text) (url : Text) → resolve_urls p chain urls ≡ ok url → IsFirstHealthy urls url
  unfolding resolve_urls
  resolve_urls-eq-ok [] url h = cc
  resolve_urls-eq-ok (u ∷ urls) url h = resolve_from-eq-ok (u ∷ urls) false url h

  -- A resolved endpoint is the first of the chain's configured list that answers for the chain.
  pub resolve_checked_rpc-eq-ok :
      (url : Text)
      → resolve_checked_rpc p chain ≡ ok url
      → IsFirstHealthy (rpc_urls_for_chain p chain) url
  unfolding resolve_checked_rpc
  resolve_checked_rpc-eq-ok url h = resolve_urls-eq-ok (rpc_urls_for_chain p chain) url h

  resolve_urls-eq-threw :
      (urls : List Text) (e : Failure)
      → resolve_urls p chain urls ≡ threw e
      → All Refused urls × ((chain_mismatch e ≡ true) ↔ Any OnOtherChain urls)
  unfolding resolve_urls
  resolve_urls-eq-threw [] e h =
      let is_e : no_url chain ≡ e = cc h in (tt, rw (← is_e) (λ m. cc m, λ m. absurd m))
  resolve_urls-eq-threw (u ∷ urls) e h =
      let (refused, flag) = resolve_from-eq-threw (u ∷ urls) false e h in
      (refused, (λ m. elim (flag.0 m) [ inl f ↦ cc f | inr wrong ↦ wrong ], λ m. flag.1 (inr m)))

  -- When no endpoint is resolved, every configured one was refused, and the error is flagged as a
  -- misconfiguration exactly when one of them answered on another chain.
  pub resolve_checked_rpc-eq-threw :
      (e : Failure)
      → resolve_checked_rpc p chain ≡ threw e
      → All Refused (rpc_urls_for_chain p chain)
        × ((chain_mismatch e ≡ true) ↔ Any OnOtherChain (rpc_urls_for_chain p chain))
  unfolding resolve_checked_rpc
  resolve_checked_rpc-eq-threw e h = resolve_urls-eq-threw (rpc_urls_for_chain p chain) e h
