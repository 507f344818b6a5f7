-- ===== src/Oracle/Broadcast/Examples.antt =====
-- The theorems at a node whose first confirmation fails. Its state counts the calls.
use vinuchain_lists.Prelude.{
  ℕ, zero, suc, ◌+◌, ◌*◌, ◌≤◌, ◌≡◌, ◌↔◌, refl, inl, inr, Option, none, some, List, [], ◌∷◌, codes,
  All, In, arith, Outcome, ok, threw,
}
use vinuchain_lists.Oracle.Broadcast.{
  FeeData, dynamic_fees, Transaction, Receipt, BroadcastError, node_failed, Node, Retries, present,
  fee_overrides, assert_no_stuck_pending_tx, broadcast_with_retries,
}
use vinuchain_lists.Oracle.Broadcast.Laws.{Succeeds}
use vinuchain_lists.Oracle.Broadcast.Sends.{
  executions, broadcast_with_retries_iff, broadcast_with_retries-once,
}
use vinuchain_lists.Oracle.Broadcast.Bounds.{AtMost, suggested, fee_overrides_mono}

abbrev suggestion : FeeData
suggestion = record {
  max_fee_per_gas = some 100;
  max_priority_fee_per_gas = some 10;
  gas_price = none;
}

abbrev first_fails : ℕ → Outcome BroadcastError (Option ℕ)
first_fails zero = threw (node_failed (codes "timeout"))
first_fails (suc n) = ok (some 77)

abbrev node : Node ℕ
node = record {
  pending_count = λ n. (ok 4, n);
  latest_count = λ n. (ok 4, n);
  fee_data = λ n. (ok suggestion, n);
  send = λ tx n. (ok (codes "0xhash"), n);
  wait = λ hash n. (first_fails n, suc n);
  sleep = λ ms n. n;
}

abbrev retries : Retries
retries = record { max_attempts = 3; bump = λ k. 1000 + k * 500; delay = λ k. 30000 }

abbrev handed : List Transaction
handed =
    record { answer = 9; source_tag = []; fees = dynamic_fees 150 15; nonce = 4 }
    ∷ record { answer = 9; source_tag = []; fees = dynamic_fees 200 20; nonce = 4 }
    ∷ []

abbrev receipt : Receipt
receipt = record { tx_hash = codes "0xhash"; attempt = 2; block_number = some 77 }

broadcasts : broadcast_with_retries node retries 9 [] 0 ≡ (ok receipt, 2, handed)
unfolding broadcast_with_retries
broadcasts = refl

free : assert_no_stuck_pending_tx node 0 ≡ (ok 4, 0)
unfolding assert_no_stuck_pending_tx
free = refl

broadcast_with_retries_iff_example :
    (broadcast_with_retries node retries 9 [] 0 ≡ (ok receipt, 2, handed))
    ↔ Succeeds node retries 9 [] 4 3 1 0 [] 2 handed receipt
broadcast_with_retries_iff_example =
    broadcast_with_retries_iff node retries 9 [] 0 0 2 4 handed receipt free

abbrev second : Transaction
second = record { answer = 9; source_tag = []; fees = dynamic_fees 200 20; nonce = 4 }

was_handed :
    All (λ tx. In tx ((broadcast_with_retries node retries 9 [] 0).2)) (second ∷ second ∷ [])
unfolding broadcast_with_retries
was_handed = (inr (inl refl), (inr (inl refl), tt))

broadcast_with_retries-once_example : executions 4 (second ∷ second ∷ []) ≤ 1
broadcast_with_retries-once_example =
    broadcast_with_retries-once node retries 9 [] 0 4 (second ∷ second ∷ []) was_handed

fee_overrides_mono_example :
    AtMost
      (suggested (present (some 100)) (present (some 10)) (present none))
      (fee_overrides 1500 suggestion)
    × AtMost (fee_overrides 1500 suggestion) (fee_overrides 2250 suggestion)
fee_overrides_mono_example = fee_overrides_mono 1500 2250 suggestion (omega arith) (omega arith)
