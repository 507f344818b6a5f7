-- ===== src/Oracle/Broadcast/Sends.antt =====
-- A whole broadcast: what it hands over, and when it ends with a receipt.
use vinuchain_lists.Prelude.{
  ℕ, zero, suc, ◌≤◌, ◌≡◌, ◌≢◌, refl, sym, ap, ◌∙◌, subst, ◌↔◌, ◌⊎◌, inl, inr, false, List, [], ◌∷◌,
  length, Text, All, All-map, All-In, In, ltb, ◌==◌, arith, Bool-cases, if◌then◌else◌, Outcome, ok,
  threw,
}
use vinuchain_lists.Oracle.Broadcast.{
  Transaction, Receipt, BroadcastError, Node, Retries, nonce_of, after_latest, after_pending,
  assert_no_stuck_pending_tx, attempts, after_nonce, broadcast_with_retries,
}
use vinuchain_lists.Oracle.Broadcast.Laws.{Fails-le, Succeeds, IsFor, reaches, found, retry-Adds}

module _ {W : Type 0} (node : Node W) (r : Retries) (answer : ℕ) (tag : Text) where
  -- The counts that the node gave, with nothing pending, and what was handed over under the nonce.
  abbrev pub Handed : W → List Transaction → Type 0
  Handed w sent =
      (pending : ℕ) × (nonce : ℕ) × (v : W) × (node.pending_count w ≡ (ok pending, v))
      × ((node.latest_count v).0 ≡ ok nonce)
      × (pending ≤ nonce)
      × All (IsFor node r answer tag nonce) sent
      × (length sent ≤ r.max_attempts)

  attempts-Handed :
      (nonce n : ℕ) (w : W)
      → All (IsFor node r answer tag nonce) ((attempts node r answer tag nonce n w).2)
        × (length ((attempts node r answer tag nonce n w).2) ≤ n)
  unfolding attempts
  attempts-Handed nonce zero w = (tt, omega arith)
  attempts-Handed nonce (suc more) w =
      let (keep, size) = retry-Adds node r answer tag nonce more 1 w [] in
      (keep tt, omega (arith, size))

  latest-Handed :
      (w v : W) (pending : ℕ) (x : Outcome BroadcastError ℕ × W)
      → node.pending_count w ≡ (ok pending, v)
      → node.latest_count v ≡ x
      → ((after_nonce node r answer tag (after_latest node pending x)).2 ≡ [])
        ⊎ Handed w ((after_nonce node r answer tag (after_latest node pending x)).2)
  unfolding after_nonce after_latest nonce_of
  latest-Handed w v pending (threw e, u) counted h = inl refl
  latest-Handed w v pending (ok latest, u) counted h = elim (Bool-cases (ltb latest pending)) [
    | inl stuck ↦ inl (rw (stuck, after_nonce) refl)
    | inr clear ↦
        let (all, size) = attempts-Handed latest r.max_attempts u in
        inr (
          rw (clear, after_nonce)
            (pending, latest, v, counted, ap (λ y. y.0) h, ground (arith, clear), all, size))
  ]

  pending-Handed :
      (w : W) (x : Outcome BroadcastError ℕ × W)
      → node.pending_count w ≡ x
      → ((after_nonce node r answer tag (after_pending node x)).2 ≡ [])
        ⊎ Handed w ((after_nonce node r answer tag (after_pending node x)).2)
  unfolding after_nonce after_pending
  pending-Handed w (threw e, v) h = inl refl
  pending-Handed w (ok pending, v) h = latest-Handed w v pending (node.latest_count v) h refl

  -- A broadcast hands over nothing, or the signer had no transaction pending, and each transaction
  -- handed over has the given answer and tag and the nonce that was the count of the signer's
  -- transactions at the start; there are at most as many as attempts.
  pub broadcast_with_retries-sends :
      (w : W)
      → ((broadcast_with_retries node r answer tag w).2 ≡ [])
        ⊎ Handed w ((broadcast_with_retries node r answer tag w).2)
  unfolding broadcast_with_retries assert_no_stuck_pending_tx
  broadcast_with_retries-sends w = pending-Handed w (node.pending_count w) refl

  attempts_iff :
      (nonce : ℕ) (v u : W) (sent : List Transaction) (receipt : Receipt) (n : ℕ)
      → (attempts node r answer tag nonce n v ≡ (ok receipt, u, sent))
        ↔ Succeeds node r answer tag nonce n 1 v [] u sent receipt
  unfolding attempts
  attempts_iff nonce v u sent receipt zero = (
    λ h. cc (ap (λ x. x.0) h),
    λ (m, x, all, fails, within, _).
        absurd (omega (arith, within, Fails-le node r answer tag nonce fails)),
  )
  attempts_iff nonce v u sent receipt (suc more) = (
    λ h.
        let (m, x, all, fails, within, fine) =
          found node r answer tag nonce more 1 v u [] sent receipt h in
        (m, x, all, fails, omega (arith, within), fine),
    λ (m, x, all, fails, within, fine).
        reaches node r answer tag nonce more 1 m v x u [] all sent receipt fails
          (omega (arith, within)) fine,
  )

  -- Where the nonce is had, a broadcast ends with a receipt exactly when one of the permitted attempts
  -- succeeds behind ones that all failed; the receipt is that attempt's, and nothing follows it.
  pub broadcast_with_retries_iff :
      (w v u : W) (nonce : ℕ) (sent : List Transaction) (receipt : Receipt)
      → assert_no_stuck_pending_tx node w ≡ (ok nonce, v)
      → (broadcast_with_retries node r answer tag w ≡ (ok receipt, u, sent))
        ↔ Succeeds node r answer tag nonce r.max_attempts 1 v [] u sent receipt
  unfolding broadcast_with_retries after_nonce attempts
  broadcast_with_retries_iff w v u nonce sent receipt free =
      let run = ap (after_nonce node r answer tag) free in
      let (one, two) = attempts_iff nonce v u sent receipt r.max_attempts in
      (λ h. one (sym run ∙ h), λ s. run ∙ two s)

-- The transactions of a list that the chain executes: those whose nonce is the count of the account,
-- which each of them raises.
unfoldable pub executions : ℕ → List Transaction → ℕ
executions count [] = 0
executions count (tx ∷ txs) =
    let ran = executions (suc count) txs in
    let passed = executions count txs in if tx.nonce == count then suc ran else passed

executions-past :
    (nonce count : ℕ) (txs : List Transaction)
    → count ≢ nonce
    → All (λ tx. tx.nonce ≡ nonce) txs
    → executions count txs ≡ 0
unfolding executions
executions-past nonce count [] other h = refl
executions-past nonce count (tx ∷ txs) other (h, hs) =
    let skip : (tx.nonce == count) ≡ false = ground (arith, h, other) in
    rw skip (executions-past nonce count txs other hs)

executions-once :
    (nonce count : ℕ) (txs : List Transaction)
    → All (λ tx. tx.nonce ≡ nonce) txs
    → executions count txs ≤ 1
unfolding executions
executions-once nonce count [] h = omega arith
executions-once nonce count (tx ∷ txs) (h, hs) = elim (Bool-cases (tx.nonce == count)) [
  | inr other ↦ rw other (executions-once nonce count txs hs)
  | inl same ↦
      let past = executions-past nonce (suc count) txs (ground (arith, h, same)) hs in
      rw (same, past) (omega arith)
]

module _ {W : Type 0} (node : Node W) (r : Retries) (answer : ℕ) (tag : Text) where
  -- Of the transactions that a broadcast hands over, in whatever order the chain includes them and
  -- however often, at most one is executed.
  pub broadcast_with_retries-once :
      (w : W) (count : ℕ) (included : List Transaction)
      → All (λ tx. In tx ((broadcast_with_retries node r answer tag w).2)) included
      → executions count included ≤ 1
  broadcast_with_retries-once w count included h =
      elim (broadcast_with_retries-sends node r answer tag w) [
        | inl nothing ↦
            executions-once 0 count included
              (All-map (λ tx m. absurd (subst (In tx) nothing m)) included h)
        | inr (pending, nonce, v, _, _, _, all, _) ↦ executions-once nonce count included (
            All-map
              (λ tx m.
                (All-In (IsFor node r answer tag nonce)
                  ((broadcast_with_retries node r answer tag w).2) all m).same_nonce)
              included h)
      ]
