-- ===== src/Oracle/Broadcast.antt =====
-- The sending half of scripts/update-vns-oracle.js: the nonce, the fee of an attempt, and the attempts
-- of `broadcastWithRetries`. The node and the passing of time are a machine whose states `W` are
-- opaque: each call gives its answer and the next state. The factor of an attempt, in thousandths, is
-- `Math.round(bump * 1000)`, floating-point arithmetic on the environment, and a parameter. Every
-- transaction that is handed to the node is put behind the list of those before. The log is left out.
pub mod Laws
pub mod Sends
pub mod Bounds
pub mod Examples
use vinuchain_lists.Prelude.{
  ℕ, zero, suc, ◌+◌, ◌*◌, ◌/◌, Bool, true, false, ◌&&◌, Option, none, some, Option, List, [], ◌∷◌,
  ◌++◌, Text, ltb, ◌==◌, if◌then◌else◌, Outcome, ok, threw,
}

-- `null` and `undefined` are `none`.
pub record FeeData : Type 0 where
  pub max_fee_per_gas : Option ℕ
  pub max_priority_fee_per_gas : Option ℕ
  pub gas_price : Option ℕ

pub data Fees : Type 0 where
  no_fees : Fees
  dynamic_fees : (max_fee max_priority_fee : ℕ) → Fees
  legacy_fee : ℕ → Fees

pub record Transaction : Type 0 where
  pub answer : ℕ
  pub source_tag : Text
  pub fees : Fees
  pub nonce : ℕ

pub record Receipt : Type 0 where
  pub tx_hash : Text
  pub attempt : ℕ
  pub block_number : Option ℕ

pub data BroadcastError : Type 0 where
  node_failed : Text → BroadcastError
  stuck_pending : (pending latest : ℕ) → BroadcastError
  no_attempt : BroadcastError

pub record Node (W : Type 0) : Type 0 where
  pub pending_count : W → Outcome BroadcastError ℕ × W
  pub latest_count : W → Outcome BroadcastError ℕ × W
  pub fee_data : W → Outcome BroadcastError FeeData × W
  pub send : Transaction → W → Outcome BroadcastError Text × W
  pub wait : Text → W → Outcome BroadcastError (Option ℕ) × W
  pub sleep : (milliseconds : ℕ) → W → W

-- `BROADCAST_MAX_ATTEMPTS`, the factor and the delay behind each attempt.
pub record Retries : Type 0 where
  pub max_attempts : ℕ
  pub bump : ℕ → ℕ
  pub delay : ℕ → ℕ

-- `bumpBig`
abbrev pub bump_big : ℕ → ℕ → ℕ
bump_big thousandths value = value * thousandths / 1000

-- A fee of 0 counts as none.
unfoldable pub present : Option ℕ → Option ℕ
present (some (suc n)) = some (suc n)
present _ = none

unfoldable pub legacy_or_none : ℕ → Option ℕ → Fees
legacy_or_none b (some g) = legacy_fee (bump_big b g)
legacy_or_none b none = no_fees

unfoldable pub fees_from : ℕ → Option ℕ → Option ℕ → Option ℕ → Fees
unfolding legacy_or_none
fees_from b (some f) (some t) g = dynamic_fees (bump_big b f) (bump_big b t)
fees_from b (some f) none g = legacy_or_none b g
fees_from b none t g = legacy_or_none b g

-- `feeOverrides`, of the data that the node gives.
unfoldable pub fee_overrides : ℕ → FeeData → Fees
unfolding fees_from present
fee_overrides b d =
    fees_from b (present d.max_fee_per_gas) (present d.max_priority_fee_per_gas)
      (present d.gas_price)

-- `receipt?.blockNumber || null`
abbrev pub block_or_null : Option ℕ → Option ℕ
block_or_null n = present n

-- How a run ends, the state of the node, and the transactions handed over so far.
abbrev pub Run : Type 0 → Type 0 → Type 0
Run W A = Outcome BroadcastError A × W × List Transaction

-- The `catch` of the loop: what follows a failure.
abbrev pub or_again :
    {W : Type 0} → Run W Receipt → (W → List Transaction → Run W Receipt) → Run W Receipt
or_again (ok receipt, w, sent) again = (ok receipt, w, sent)
or_again (threw e, w, sent) again = again w sent

module _ {W : Type 0} (node : Node W) where
  unfoldable pub nonce_of : ℕ → ℕ → Outcome BroadcastError ℕ
  nonce_of pending latest =
      if ltb latest pending then threw (stuck_pending pending latest) else ok latest

  unfoldable pub after_latest : ℕ → Outcome BroadcastError ℕ × W → Outcome BroadcastError ℕ × W
  unfolding nonce_of
  after_latest pending (threw e, w) = (threw e, w)
  after_latest pending (ok latest, w) = (nonce_of pending latest, w)

  unfoldable pub after_pending : Outcome BroadcastError ℕ × W → Outcome BroadcastError ℕ × W
  unfolding after_latest
  after_pending (threw e, w) = (threw e, w)
  after_pending (ok pending, w) = after_latest pending (node.latest_count w)

  -- The nonce, where no transaction of the signer is pending.
  unfoldable pub assert_no_stuck_pending_tx : W → Outcome BroadcastError ℕ × W
  unfolding after_pending
  assert_no_stuck_pending_tx w = after_pending (node.pending_count w)

  module _ (r : Retries) (answer : ℕ) (source_tag : Text) (nonce : ℕ) where
    unfoldable pub after_wait :
        ℕ → Text → List Transaction → Outcome BroadcastError (Option ℕ) × W → Run W Receipt
    unfolding present
    after_wait attempt hash sent (threw e, w) = (threw e, w, sent)
    after_wait attempt hash sent (ok block, w) = (
      ok (record { tx_hash = hash; attempt = attempt; block_number = block_or_null block }),
      w,
      sent,
    )

    unfoldable pub after_send :
        ℕ → List Transaction → Outcome BroadcastError Text × W → Run W Receipt
    unfolding after_wait
    after_send attempt sent (threw e, w) = (threw e, w, sent)
    after_send attempt sent (ok hash, w) = after_wait attempt hash sent (node.wait hash w)

    abbrev pub transaction : ℕ → FeeData → Transaction
    transaction attempt d = record {
      answer = answer;
      source_tag = source_tag;
      fees = fee_overrides (r.bump attempt) d;
      nonce = nonce;
    }

    unfoldable pub after_fees :
        ℕ → List Transaction → Outcome BroadcastError FeeData × W → Run W Receipt
    unfolding after_send fee_overrides
    after_fees attempt sent (threw e, w) = (threw e, w, sent)
    after_fees attempt sent (ok d, w) =
        after_send attempt (sent ++ transaction attempt d ∷ [])
          (node.send (transaction attempt d) w)

    -- One attempt, up to the confirmation.
    unfoldable pub try_attempt : ℕ → W → List Transaction → Run W Receipt
    unfolding after_fees
    try_attempt attempt w sent = after_fees attempt sent (node.fee_data w)

    -- The attempts from this one on, with so many behind it.
    unfoldable pub retry_from : ℕ → ℕ → W → List Transaction → Run W Receipt
    unfolding try_attempt
    retry_from zero attempt w sent = try_attempt attempt w sent
    retry_from (suc more) attempt w sent =
        or_again (try_attempt attempt w sent)
          (λ v now. retry_from more (suc attempt) (node.sleep (r.delay attempt) v) now)

    unfoldable pub attempts : ℕ → W → Run W Receipt
    unfolding retry_from
    attempts zero w = (threw no_attempt, w, [])
    attempts (suc more) w = retry_from more 1 w []

  module _ (r : Retries) (answer : ℕ) (source_tag : Text) where
    unfoldable pub after_nonce : Outcome BroadcastError ℕ × W → Run W Receipt
    unfolding attempts
    after_nonce (threw e, w) = (threw e, w, [])
    after_nonce (ok nonce, w) = attempts r answer source_tag nonce r.max_attempts w

    unfoldable pub broadcast_with_retries : W → Run W Receipt
    unfolding after_nonce assert_no_stuck_pending_tx
    broadcast_with_retries w = after_nonce (assert_no_stuck_pending_tx w)
