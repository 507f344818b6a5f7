-- ===== src/Oracle/Run/Laws.antt =====
-- What a run of the oracle update hands to the chain.
use vinuchain_lists.Prelude.{
  ℕ, ◌≡◌, refl, sym, ap, ◌∙◌, subst, ◌⊎◌, inl, inr, true, not, none, List, [], Text, Bool-cases,
  Outcome-cases, if◌then◌else◌, Outcome, ok, threw, >>=-eq-ok, require-eq-ok,
}
use vinuchain_lists.Oracle.Rpc.{resolve_checked_provider}
use vinuchain_lists.Oracle.Price.{Price, to_oracle_answer}
use vinuchain_lists.Oracle.Update.{OracleView, to_oracle_source_tag}
use vinuchain_lists.Oracle.Update.Laws.{IsUpdatable, verify_oracle_for_update_iff}
use vinuchain_lists.Oracle.Broadcast.{BroadcastError, Transaction, Receipt, broadcast_with_retries}
use vinuchain_lists.Oracle.Broadcast.Sends.{Handed, broadcast_with_retries-sends}
use vinuchain_lists.Oracle.Run.{
  Script, RunError, no_target, price_failed, update_refused, read_failed, no_oracle_address,
  no_private_key, is_set, wrap, resolve_vns_oracle_price, prepare, check_send, after_broadcast,
  after_check, after_prepare, run,
}

pub wrap-eq-ok :
    {E A : Type 0} (f : E → RunError) (o : Outcome E A) (a : A) → wrap f o ≡ ok a → o ≡ ok a
unfolding wrap
wrap-eq-ok f (ok b) a h = cc h
wrap-eq-ok f (threw e) a h = cc h

module _ {F W : Type 0} (s : Script F W) where
  -- What stands behind an answer and a tag: the target is an endpoint that answers on the expected
  -- chain, and they are those of the reconciled price.
  pub record IsPriced (answer : ℕ) (tag : Text) : Type 0 where
    pub endpoint : Text × ℕ × ℕ
    pub price : Price F
    pub resolved :
        resolve_checked_provider s.fetch s.target_rpc_urls s.expected_target_chain_id ≡ ok endpoint
    pub reconciled : resolve_vns_oracle_price s ≡ ok price
    pub answer_of_price : to_oracle_answer s.floats price.usd ≡ ok answer
    pub tag_of_price : to_oracle_source_tag s.byte_length price.source ≡ ok tag

  prepare-IsPriced : (answer : ℕ) (tag : Text) → prepare s ≡ ok (answer, tag) → IsPriced answer tag
  unfolding prepare
  prepare-IsPriced answer tag h =
      let (endpoint, one, h₁) =
        >>=-eq-ok
          (wrap no_target
            (resolve_checked_provider s.fetch s.target_rpc_urls s.expected_target_chain_id))
          _ h in
      let (price, two, h₂) = >>=-eq-ok (resolve_vns_oracle_price s) _ h₁ in
      let (a, three, h₃) =
        >>=-eq-ok (wrap price_failed (to_oracle_answer s.floats price.usd)) _ h₂ in
      let (t, four, h₄) =
        >>=-eq-ok (wrap update_refused (to_oracle_source_tag s.byte_length price.source)) _ h₃ in
      let same : ◌≡◌ {A = ℕ × Text} (a, t) (answer, tag) = cc h₄ in
      record {
        endpoint = endpoint;
        price = price;
        resolved = wrap-eq-ok no_target _ endpoint one;
        reconciled = two;
        answer_of_price = wrap-eq-ok price_failed _ a three ∙ ap ok (ap (λ x. x.0) same);
        tag_of_price = wrap-eq-ok update_refused _ t four ∙ ap ok (ap (λ x. x.1) same);
      }

  check_send-IsUpdatable :
      (w : W) (answer : ℕ)
      → check_send s w answer ≡ ok tt
      → (oracle : OracleView) × (s.read_oracle w ≡ ok oracle) × IsUpdatable s.expected oracle answer
  unfolding check_send
  check_send-IsUpdatable w answer h =
      let (_, h₁) = require-eq-ok (is_set s.oracle_address) no_oracle_address _ h in
      let (_, h₂) = require-eq-ok (is_set s.private_key) no_private_key _ h₁ in
      let (oracle, read, h₃) = >>=-eq-ok (wrap read_failed (s.read_oracle w)) _ h₂ in
      (
        oracle,
        wrap-eq-ok read_failed _ oracle read,
        (verify_oracle_for_update_iff s.expected oracle answer).0
            (wrap-eq-ok update_refused _ tt h₃),
      )

  after_broadcast-sent :
      (x : Outcome BroadcastError Receipt × W × List Transaction) → (after_broadcast s x).2 ≡ x.2
  unfolding after_broadcast
  after_broadcast-sent (ok receipt, w, sent) = refl
  after_broadcast-sent (threw e, w, sent) = refl

  abbrev pub Justified : W → List Transaction → Type 0
  Justified w sent =
      (answer : ℕ) × (tag : Text) × (oracle : OracleView) × (s.should_send ≡ true)
      × IsPriced answer tag
      × (s.read_oracle w ≡ ok oracle)
      × IsUpdatable s.expected oracle answer
      × Handed s.node s.retries answer tag w sent

  checked-sends :
      (w : W) (answer : ℕ) (tag : Text)
      → s.should_send ≡ true
      → IsPriced answer tag
      → check_send s w answer ≡ ok tt
      → ((after_broadcast s (broadcast_with_retries s.node s.retries answer tag w)).2 ≡ [])
        ⊎ Justified w ((after_broadcast s (broadcast_with_retries s.node s.retries answer tag w)).2)
  checked-sends w answer tag send priced checked =
      let same =
        sym (after_broadcast-sent (broadcast_with_retries s.node s.retries answer tag w)) in
      let (oracle, read, fine) = check_send-IsUpdatable w answer checked in
      elim (broadcast_with_retries-sends s.node s.retries answer tag w) [
        | inl nothing ↦ inl (sym same ∙ nothing)
        | inr handed ↦ inr (
          answer,
          tag,
          oracle,
          send,
          priced,
          read,
          fine,
          subst (Handed s.node s.retries answer tag w) same handed,
        )
      ]

  run-checked :
      (w : W) (answer : ℕ) (tag : Text)
      → prepare s ≡ ok (answer, tag)
      → s.should_send ≡ true
      → check_send s w answer ≡ ok tt
      → run s w ≡ after_broadcast s (broadcast_with_retries s.node s.retries answer tag w)
  unfolding run after_prepare after_check
  run-checked w answer tag prepared send checked =
      ap (after_prepare s w) prepared
      ∙ (ap
            (λ b.
              if not b
              then (ok none, w, [])
              else after_check s w answer tag (check_send s w answer))
            send
          ∙ ap (after_check s w answer tag) checked)

  -- A run hands over nothing, or it was asked to send, the target answers on its chain, the answer and
  -- the tag are those of the reconciled price, the oracle as it was read permits the update, and each
  -- transaction carries this answer and tag under the one nonce, within the permitted attempts.
  pub run-sends : (w : W) → ((run s w).2 ≡ []) ⊎ Justified w ((run s w).2)
  unfolding run after_prepare after_check
  run-sends w = elim (Outcome-cases (prepare s)) [
    | inr (e, stopped) ↦ inl (rw stopped refl)
    | inl ((answer, tag), prepared) ↦ elim (Bool-cases s.should_send) [
      | inr dry ↦ inl (rw (prepared, dry) refl)
      | inl send ↦ elim (Outcome-cases (check_send s w answer)) [
        | inr (e, refused) ↦ inl (rw (prepared, send, refused) refl)
        | inl (u, checked) ↦
            subst (λ x. (x.2 ≡ []) ⊎ Justified w (x.2))
              (sym (run-checked w answer tag prepared send checked))
              (checked-sends w answer tag send (prepare-IsPriced answer tag prepared) checked)
      ]
    ]
  ]
