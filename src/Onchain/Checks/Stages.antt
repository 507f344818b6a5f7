-- ===== src/Onchain/Checks/Stages.antt =====
-- The stages of the two checks, and their conditions in `Spec`.
use vinuchain_lists.Prelude.{
  ℕ, ◌≡◌, refl, ◌↔◌, inl, inr, ap, true, Option, none, some, List, [], ◌++◌, Text, Outcome, ok,
  threw, ◌>>=◌, >>=-eq-ok, arith, text_eq, text_eq_iff, to_lower, Bool-cases,
}
use vinuchain_lists.Numbers.{JsNumber, number_is}
use vinuchain_lists.Onchain.Rpc.{
  RpcValue, Failure, Platform, get_code, call, raw_json_rpc, parse_hex_int,
}
use vinuchain_lists.Onchain.Checks.{
  Token, Finding, Report, pinned, has_code, caught, pin_report, slot_failed, decimals_failed,
  selector_decimals, check_decimals, check_impl_code, impl_findings, check_impl, read_eip1967_impl,
  decimals_findings,
}
use vinuchain_lists.Onchain.Checks.Spec.{PinHolds, ImplHolds, ProxyHolds, DecimalsMatch}

text_eq_of : (s t : Text) → s ≡ t → text_eq s t ≡ true
text_eq_of s t = (text_eq_iff s t).1

ok-injective : {a b : List Finding} → ◌≡◌ {A = Outcome Failure (List Finding)} (ok a) (ok b) → a ≡ b
ok-injective h = cc h

decimals_findings-eq-nil :
    (o : Option ℕ) (found : JsNumber)
    → decimals_findings o found ≡ []
    → (declared : ℕ) × ((o ≡ some declared) × (number_is found declared ≡ true))
unfolding decimals_findings
decimals_findings-eq-nil none found h = ground arith
decimals_findings-eq-nil (some declared) found h = (declared, (refl, ground arith))

pub report-injective : {a b : Report} → ◌≡◌ {A = Outcome Failure Report} (ok a) (ok b) → a ≡ b
report-injective h = cc h

pub append-nil_of : {xs ys : List Finding} → xs ≡ [] → ys ≡ [] → xs ++ ys ≡ []
append-nil_of h k = rw (h, k)

module _ (p : Platform) (url : Text) where
  -- Whatever it reports, a pin check that throws reports nothing; one that does not is right.
  pub pin_report_sound :
      (pin : Option Text) (code : RpcValue) (r : Report)
      → pin_report p url pin code ≡ ok r
      → r.errors ≡ []
      → PinHolds p pin code
  unfolding pin_report
  pin_report_sound none code r h e = tt
  pin_report_sound (some expected) code r h e =
      let (hash, hashed, same) = >>=-eq-ok (p.keccak256 code) _ h in
      (hash, hashed, ground (arith, text_eq_iff (to_lower hash) (to_lower expected)))

  pub pin_report_complete :
      (pin : Option Text) (code : RpcValue)
      → PinHolds p pin code
      → (r : Report) × (pin_report p url pin code ≡ ok r) × (r.errors ≡ [])
  unfolding pin_report
  pin_report_complete none code h = (_, refl, refl)
  pin_report_complete (some expected) code (hash, hashed, same) =
      rw (hashed, text_eq_of _ _ same) (_, refl, refl)

  pub check_impl_code_sound :
      (expected impl : Text)
      → check_impl_code p url expected impl ≡ ok []
      → ImplHolds p url (some expected) (some impl)
  unfolding check_impl_code
  check_impl_code_sound expected impl h =
      let (code, read, h') = >>=-eq-ok (raw_json_rpc p url (get_code impl)) _ h in
      elim (Bool-cases (has_code code)) [
        | inl has ↦
            let (hash, hashed, same) = >>=-eq-ok (p.keccak256 code) _ (rw has at h') in
            (
              code,
              (read, has),
              (hash, hashed, ground (arith, text_eq_iff (to_lower hash) (to_lower expected))),
            )
        | inr lacks ↦ cc (rw lacks at h')
      ]

  pub check_impl_code_complete :
      (expected impl : Text)
      → ImplHolds p url (some expected) (some impl)
      → check_impl_code p url expected impl ≡ ok []
  unfolding check_impl_code
  check_impl_code_complete expected impl (code, (read, has), (hash, hashed, same)) =
      rw (read, has, hashed, text_eq_of _ _ same)

  impl_findings_sound :
      (pin impl : Option Text) → impl_findings p url pin impl ≡ ok [] → ImplHolds p url pin impl
  unfolding impl_findings
  impl_findings_sound none none h = tt
  impl_findings_sound (some expected) none h = cc h
  impl_findings_sound none (some impl) h = cc h
  impl_findings_sound (some expected) (some impl) h = check_impl_code_sound expected impl h

  impl_findings_complete :
      (pin impl : Option Text) → ImplHolds p url pin impl → impl_findings p url pin impl ≡ ok []
  unfolding impl_findings
  impl_findings_complete none none h = refl
  impl_findings_complete (some expected) none h = absurd h
  impl_findings_complete none (some impl) h = absurd h
  impl_findings_complete (some expected) (some impl) h = check_impl_code_complete expected impl h

  caught-eq-nil : (m : Outcome Failure (List Finding)) (f : Finding) → (caught m f ≡ []) → m ≡ ok []
  unfolding caught
  caught-eq-nil (ok fs) f h = ap ok h
  caught-eq-nil (threw e) f h = ground arith

  -- The slot check is silent exactly when slot and pin agree.
  pub check_impl_iff :
      (address : Text) (pin : Option Text)
      → (check_impl p url address pin ≡ []) ↔ ProxyHolds p url address pin
  unfolding check_impl caught
  check_impl_iff address pin = (
    λ h.
        let done =
          caught-eq-nil (read_eip1967_impl p url address >>= impl_findings p url (pinned pin))
            slot_failed h in
        let (impl, read, found) = >>=-eq-ok (read_eip1967_impl p url address) _ done in
        (impl, read, impl_findings_sound (pinned pin) impl found),
    λ (impl, read, holds). rw (read, impl_findings_complete (pinned pin) impl holds),
  )

  pub check_decimals_iff :
      (token : Token)
      → (caught (check_decimals p url token) decimals_failed ≡ []) ↔ DecimalsMatch p url token
  unfolding check_decimals caught decimals_findings
  check_decimals_iff token = (
    λ h.
        let done = caught-eq-nil (check_decimals p url token) decimals_failed h in
        let (raw, read, h') =
          >>=-eq-ok (raw_json_rpc p url (call token.address selector_decimals)) _ done in
        let (found, parsed, done') = >>=-eq-ok (parse_hex_int raw) _ h' in
        let (declared, same) = decimals_findings-eq-nil token.decimals found (ok-injective done') in
        (raw, found, declared, read, parsed, same.0, same.1),
    λ (raw, found, declared, read, parsed, is_declared, same). rw (read, parsed, is_declared, same),
  )
