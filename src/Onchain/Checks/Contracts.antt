-- ===== src/Onchain/Checks/Contracts.antt =====
-- `checkContractCode` and the condition `IsVerifiedContract`.
use vinuchain_lists.Prelude.{
  ◌≡◌, refl, ap, ◌↔◌, inl, inr, [], Text, ok, >>=-eq-ok, Bool-cases, append-eq-nil,
}
use vinuchain_lists.Onchain.Rpc.{Platform, get_code, raw_json_rpc}
use vinuchain_lists.Onchain.Checks.{
  Contract, Report, pinned, has_code, pin_report, check_code_hash, check_contract_deployed,
  check_contract_code,
}
use vinuchain_lists.Onchain.Checks.Spec.{IsVerifiedContract}
use vinuchain_lists.Onchain.Checks.Stages.{pin_report_sound, pin_report_complete, check_impl_iff}
use vinuchain_lists.Onchain.Checks.Stages.{report-injective, append-nil_of}

module _ (p : Platform) (url : Text) (contract : Contract) where
  check_contract_code_sound :
      ((r : Report) × (check_contract_code p url contract ≡ ok r) × (r.errors ≡ []))
      → IsVerifiedContract p url contract
  unfolding check_contract_code check_contract_deployed check_code_hash
  check_contract_code_sound (r, h, e) =
      let (code, read, h') = >>=-eq-ok (raw_json_rpc p url (get_code contract.address)) _ h in
      elim (Bool-cases (has_code code)) [
        | inl has ↦
            let pin = pinned contract.code_hash in
            let (report, pins, done) = >>=-eq-ok (pin_report p url pin code) _ (rw has at h') in
            let (pin_silent, impl) =
              append-eq-nil report.errors _ (rw (← report-injective done) at e) in
            record {
              code = code;
              deployed = (read, has);
              type_pinned = pin_report_sound p url pin code report pins pin_silent;
              proxy = (check_impl_iff p url contract.address contract.impl_code_hash).0 impl;
            }
        | inr lacks ↦
            let reported = ap (λ (x : Report). x.errors) (report-injective (rw lacks at h')) in
            cc (reported, e)
      ]

  check_contract_code_complete :
      IsVerifiedContract p url contract
      → (r : Report) × (check_contract_code p url contract ≡ ok r) × (r.errors ≡ [])
  unfolding check_contract_code check_contract_deployed check_code_hash
  check_contract_code_complete v =
      let (report, pins, silent) =
        pin_report_complete p url (pinned contract.code_hash) v.code v.type_pinned in
      let impl = (check_impl_iff p url contract.address contract.impl_code_hash).1 v.proxy in
      rw (v.deployed.0, v.deployed.1, pins) (_, refl, append-nil_of silent impl)

  -- `checkContractCode` returns with no error exactly when code stands at the entry's address, the
  -- code has the pinned hash if one is pinned, and the implementation slot agrees with the pin of
  -- the implementation.
  pub check_contract_code_iff :
      ((r : Report) × (check_contract_code p url contract ≡ ok r) × (r.errors ≡ []))
      ↔ IsVerifiedContract p url contract
  check_contract_code_iff = (check_contract_code_sound, check_contract_code_complete)
