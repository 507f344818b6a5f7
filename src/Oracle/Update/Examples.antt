-- ===== src/Oracle/Update/Examples.antt =====
-- The theorems at the contract as it is deployed, at a price of 0.001.
use vinuchain_lists.Prelude.{
  ℕ, ◌+◌, ◌*◌, ◌≤◌, ◌<◌, ◌≡◌, ◌↔◌, ◌⊎◌, refl, inl, inr, true, Text, codes, length, arith, Outcome,
  ok, threw,
}
use vinuchain_lists.Oracle.Update.{
  pos, Oracle, Expected, answer_change_too_large, verify_oracle_for_update, view_of,
  set_latest_answer,
}
use vinuchain_lists.Oracle.Update.Laws.{IsUpdatable, pos-injective, verify_oracle_for_update_iff}
use vinuchain_lists.Oracle.Update.Contract.{
  IsOrdinary, Settles, updated, set_latest_answer-verified, verify_oracle_for_update-reverts,
}

abbrev oracle : Oracle
oracle = record {
  owner = codes "0xAb";
  answer = pos 100000;
  source = codes "coingecko";
  max_age = 43200;
  min_answer = 10000;
  max_answer = 1000000;
  max_change_bps = 2000;
  updated_at = 5;
}

abbrev expected : Expected
expected = record { signer = codes "0xab"; max_age = 43200; max_update_bps = 2000 }

ordinary : IsOrdinary oracle
ordinary = (omega arith, λ p h. omega (arith, pos-injective h))

verify_oracle_for_update_iff_example :
    (verify_oracle_for_update expected (view_of oracle) 110000 ≡ ok tt)
    ↔ IsUpdatable expected (view_of oracle) 110000
verify_oracle_for_update_iff_example = verify_oracle_for_update_iff expected (view_of oracle) 110000

verified : verify_oracle_for_update expected (view_of oracle) 110000 ≡ ok tt
unfolding verify_oracle_for_update
verified = refl

set_latest_answer-verified_example : Settles length 9 oracle 110000 (codes "coingecko")
set_latest_answer-verified_example =
    set_latest_answer-verified length 9 oracle 110000 (codes "coingecko") expected ordinary
      (omega arith) (omega arith) verified

same_owner :
    vinuchain_lists.Prelude.to_lower oracle.owner ≡ vinuchain_lists.Prelude.to_lower expected.signer
unfolding vinuchain_lists.Prelude.to_lower
same_owner = refl

verify_oracle_for_update-reverts_example :
    (verify_oracle_for_update expected (view_of oracle) 120001 ≡ ok tt)
    × (set_latest_answer length 9 oracle.owner oracle (pos 120001) (codes "coingecko")
        ≡ threw (answer_change_too_large 100000 120001))
    × (set_latest_answer length 9 oracle.owner oracle (pos 120000) (codes "coingecko")
        ≡ ok (updated oracle 9 120000 (codes "coingecko")))
verify_oracle_for_update-reverts_example =
    verify_oracle_for_update-reverts length 9 expected oracle 100000 (codes "coingecko") refl
      (omega arith) ordinary same_owner refl (omega arith) (omega arith) (omega arith) (omega arith)
      120000 (omega arith) (omega arith) (omega arith)
