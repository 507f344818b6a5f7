-- ===== src/Oracle/Broadcast/Laws.antt =====
-- What the attempts hand to the node, and when they end with a receipt.
use vinuchain_lists.Prelude.{
  ℕ, zero, suc, ◌+◌, ◌≤◌, ◌≡◌, refl, sym, ap, ◌∙◌, subst, ◌⊎◌, inl, inr, Option, List, [], ◌∷◌,
  ◌++◌, length, length-append, Text, All, All-append, arith, Outcome, ok, threw,
}
use vinuchain_lists.Oracle.Broadcast.{
  FeeData, Transaction, Receipt, BroadcastError, Node, Retries, Run, or_again, after_wait,
  after_send, transaction, after_fees, try_attempt, retry_from,
}

Run-cases :
    {W A : Type 0} (x : Run W A)
    → ((a : A) × (w : W) × (sent : List Transaction) × (x ≡ (ok a, w, sent)))
      ⊎ ((e : BroadcastError) × (w : W) × (sent : List Transaction) × (x ≡ (threw e, w, sent)))
Run-cases (ok a, w, sent) = inl (a, w, sent, refl)
Run-cases (threw e, w, sent) = inr (e, w, sent, refl)

module _ {W : Type 0} (node : Node W) (r : Retries) (answer : ℕ) (tag : Text) (nonce : ℕ) where
  -- From one attempt, with its state and its list, the attempts before another one all failed.
  pub data Fails : ℕ → W → List Transaction → ℕ → W → List Transaction → Type 0 where
    here : {k : ℕ} {w : W} {sent : List Transaction} → Fails k w sent k w sent
    next :
        {k : ℕ} {w : W} {sent : List Transaction} {v : W} {now : List Transaction} {m : ℕ} {u : W}
        {all : List Transaction} {e : BroadcastError}
        → try_attempt node r answer tag nonce k w sent ≡ (threw e, v, now)
        → Fails (suc k) (node.sleep (r.delay k) v) now m u all
        → Fails k w sent m u all

  retry-failed :
      (more k : ℕ) (w v : W) (sent now : List Transaction) (e : BroadcastError)
      → try_attempt node r answer tag nonce k w sent ≡ (threw e, v, now)
      → retry_from node r answer tag nonce (suc more) k w sent
        ≡ retry_from node r answer tag nonce more (suc k) (node.sleep (r.delay k) v) now
  unfolding retry_from
  retry-failed more k w v sent now e h =
      ap
        (λ x.
          or_again x (λ u all.
            retry_from node r answer tag nonce more (suc k) (node.sleep (r.delay k) u) all))
        h

  retry-ok :
      (more k : ℕ) (w v : W) (sent now : List Transaction) (receipt : Receipt)
      → try_attempt node r answer tag nonce k w sent ≡ (ok receipt, v, now)
      → retry_from node r answer tag nonce more k w sent ≡ (ok receipt, v, now)
  unfolding retry_from
  retry-ok zero k w v sent now receipt h = h
  retry-ok (suc more) k w v sent now receipt h =
      ap
        (λ x.
          or_again x (λ u all.
            retry_from node r answer tag nonce more (suc k) (node.sleep (r.delay k) u) all))
        h

  -- The attempts reach the first one that succeeds.
  pub Fails-le : {k m : ℕ} {w u : W} {sent all : List Transaction} → Fails k w sent m u all → k ≤ m
  Fails-le here = omega arith
  Fails-le (next failed later) = omega (arith, Fails-le later)

  pub reaches :
      (more k m : ℕ) (w u v : W) (sent all now : List Transaction) (receipt : Receipt)
      → Fails k w sent m u all
      → m ≤ k + more
      → try_attempt node r answer tag nonce m u all ≡ (ok receipt, v, now)
      → retry_from node r answer tag nonce more k w sent ≡ (ok receipt, v, now)
  reaches more k m w u v sent all now receipt here within h = retry-ok more k w v sent now receipt h
  reaches zero k m w u v sent all now receipt (next failed later) within h =
      absurd (omega (arith, within, Fails-le later))
  reaches (suc more) k m w u v sent all now receipt
        (next {v = v₁} {now = now₁} {e = e} failed later) within h =
      retry-failed more k w v₁ sent now₁ e failed
      ∙ reaches more (suc k) m (node.sleep (r.delay k) v₁) u v now₁ all now receipt later
          (omega (arith, within)) h

  -- The attempt that succeeds, behind those that fail.
  abbrev pub Succeeds : ℕ → ℕ → W → List Transaction → W → List Transaction → Receipt → Type 0
  Succeeds last k w sent v now receipt =
      (m : ℕ) × (u : W) × (all : List Transaction) × Fails k w sent m u all
      × (m ≤ last)
      × (try_attempt node r answer tag nonce m u all ≡ (ok receipt, v, now))

  pub found :
      (more k : ℕ) (w v : W) (sent now : List Transaction) (receipt : Receipt)
      → retry_from node r answer tag nonce more k w sent ≡ (ok receipt, v, now)
      → Succeeds (k + more) k w sent v now receipt
  unfolding retry_from
  found zero k w v sent now receipt h = (k, w, sent, here, omega arith, h)
  found (suc more) k w v sent now receipt h =
      elim (Run-cases (try_attempt node r answer tag nonce k w sent)) [
        | inl (a, u, all, e) ↦
            (k, w, sent, here, omega arith, e ∙ (sym (retry-ok (suc more) k w u sent all a e) ∙ h))
        | inr (e, u, all, failed) ↦
            let (m, u₁, all₁, fails, within, fine) =
              found more (suc k) (node.sleep (r.delay k) u) v all now receipt
                (sym (retry-failed more k w u sent all e failed) ∙ h) in
            (m, u₁, all₁, next failed fails, omega (arith, within), fine)
      ]

  -- What is handed over: this answer and tag under this nonce, at the fee of some attempt.
  pub record IsFor (tx : Transaction) : Type 0 where
    pub same_answer : tx.answer ≡ answer
    pub same_tag : tx.source_tag ≡ tag
    pub same_nonce : tx.nonce ≡ nonce

  transaction-IsFor : (k : ℕ) (d : FeeData) → IsFor (transaction node r answer tag nonce k d)
  transaction-IsFor k d = record { same_answer = refl; same_tag = refl; same_nonce = refl }

  -- At most one transaction is added.
  abbrev Adds : List Transaction → ℕ → List Transaction → Type 0
  Adds sent more now = (All IsFor sent → All IsFor now) × (length now ≤ length sent + more)

  added :
      (k : ℕ) (d : FeeData) (sent : List Transaction)
      → Adds sent 1 (sent ++ transaction node r answer tag nonce k d ∷ [])
  added k d sent = (
    λ h.
        All-append IsFor sent (transaction node r answer tag nonce k d ∷ []) h
          (transaction-IsFor k d, tt),
    omega (arith, length-append sent (transaction node r answer tag nonce k d ∷ [])),
  )

  wait-sent :
      (k : ℕ) (hash : Text) (sent : List Transaction) (x : Outcome BroadcastError (Option ℕ) × W)
      → (after_wait node r answer tag nonce k hash sent x).2 ≡ sent
  unfolding after_wait
  wait-sent k hash sent (threw e, w) = refl
  wait-sent k hash sent (ok block, w) = refl

  send-sent :
      (k : ℕ) (sent : List Transaction) (x : Outcome BroadcastError Text × W)
      → (after_send node r answer tag nonce k sent x).2 ≡ sent
  unfolding after_send
  send-sent k sent (threw e, w) = refl
  send-sent k sent (ok hash, w) = wait-sent k hash sent (node.wait hash w)

  fees-Adds :
      (k : ℕ) (sent : List Transaction) (x : Outcome BroadcastError FeeData × W)
      → Adds sent 1 ((after_fees node r answer tag nonce k sent x).2)
  unfolding after_fees
  fees-Adds k sent (threw e, w) = (λ h. h, omega arith)
  fees-Adds k sent (ok d, w) =
      subst (Adds sent 1)
        (sym (
          send-sent k (sent ++ transaction node r answer tag nonce k d ∷ [])
            (node.send (transaction node r answer tag nonce k d) w)))
        (added k d sent)

  try-Adds :
      (k : ℕ) (w : W) (sent : List Transaction)
      → Adds sent 1 ((try_attempt node r answer tag nonce k w sent).2)
  unfolding try_attempt
  try-Adds k w sent = fees-Adds k sent (node.fee_data w)

  again-Adds :
      (more : ℕ) (sent : List Transaction) (x : Run W Receipt)
      (again : W → List Transaction → Run W Receipt)
      → Adds sent 1 (x.2)
      → ((w : W) (now : List Transaction) → Adds now more ((again w now).2))
      → Adds sent (suc more) ((or_again x again).2)
  again-Adds more sent (ok a, w, now) again (keep, size) later = (keep, omega (arith, size))
  again-Adds more sent (threw e, w, now) again (keep, size) later =
      let (keep₁, size₁) = later w now in (λ h. keep₁ (keep h), omega (arith, size, size₁))

  pub retry-Adds :
      (more k : ℕ) (w : W) (sent : List Transaction)
      → Adds sent (suc more) ((retry_from node r answer tag nonce more k w sent).2)
  unfolding retry_from
  retry-Adds zero k w sent = try-Adds k w sent
  retry-Adds (suc more) k w sent =
      again-Adds (suc more) sent (try_attempt node r answer tag nonce k w sent)
        (λ v now. retry_from node r answer tag nonce more (suc k) (node.sleep (r.delay k) v) now)
        (try-Adds k w sent) (λ v now. retry-Adds more (suc k) (node.sleep (r.delay k) v) now)
