-- ===== src/Onchain/Checks/Tokens.antt =====
-- `checkToken`, with the condition `IsVerifiedToken`, and that of an entry with no symbol.
use vinuchain_lists.Prelude.{
  ◌≡◌, ◌≢◌, refl, ap, ◌↔◌, ◌⊎◌, inl, inr, Option, none, some, [], ◌++◌, Text, Outcome, ok,
  >>=-eq-ok, Bool-cases, append-eq-nil,
}
use vinuchain_lists.Onchain.Rpc.{Failure, Platform, get_code, raw_json_rpc}
use vinuchain_lists.Onchain.Checks.{
  Token, Report, selector_symbol, selector_name, has_code, pinned, caught, decimals_failed,
  call_string, pin_report, check_code_hash, check_decimals, check_deployed, check_token,
}
use vinuchain_lists.Onchain.Checks.Spec.{
  Decodes, SymbolMatches, Undecoded, NameMatches, AnySymbol, IsVerifiedBy, IsVerifiedToken,
}
use vinuchain_lists.Onchain.Checks.Stages.{
  pin_report_sound, pin_report_complete, check_impl_iff, check_decimals_iff, report-injective,
  append-nil_of,
}
use vinuchain_lists.Onchain.Checks.Symbols.{Identified, identity_sound, identity_complete}

module _ (p : Platform) (url : Text) (token : Token) where
  abbrev IsIdentified : Type 0
  IsIdentified =
      IsVerifiedBy p url token
        (Identified p url token token.symbol (call_string p url token.address selector_symbol))

  check_token_sound :
      ((r : Report) × (check_token p url token ≡ ok r) × (r.errors ≡ [])) → IsIdentified
  unfolding check_token check_deployed check_code_hash
  check_token_sound (r, h, e) =
      let (code, read, h') = >>=-eq-ok (raw_json_rpc p url (get_code token.address)) _ h in
      elim (Bool-cases (has_code code)) [
        | inl has ↦
            let (pin, pins, done) =
              >>=-eq-ok (pin_report p url (pinned token.code_hash) code) _ (rw has at h') in
            let decimals = caught (check_decimals p url token) decimals_failed in
            let silent = rw (← report-injective done) at e in
            let (before, identity, impl) =
              identity_sound p url token token.symbol
                (record pin { errors = pin.errors ++ decimals })
                (call_string p url token.address selector_symbol) silent in
            let (pin_silent, decimals_silent) = append-eq-nil pin.errors decimals before in
            record {
              code = code;
              deployed = (read, has);
              type_pinned =
                  pin_report_sound p url (pinned token.code_hash) code pin pins pin_silent;
              decimals = (check_decimals_iff p url token).0 decimals_silent;
              identity = identity;
              proxy = (check_impl_iff p url token.address token.impl_code_hash).0 impl;
            }
        | inr lacks ↦
            let reported = ap (λ (x : Report). x.errors) (report-injective (rw lacks at h')) in
            cc (reported, e)
      ]

  check_token_complete :
      IsIdentified → (r : Report) × (check_token p url token ≡ ok r) × (r.errors ≡ [])
  unfolding check_token check_deployed check_code_hash
  check_token_complete v =
      let (pin, pins, silent) =
        pin_report_complete p url (pinned token.code_hash) v.code v.type_pinned in
      let errors = append-nil_of silent ((check_decimals_iff p url token).1 v.decimals) in
      rw (v.deployed.0, v.deployed.1, pins)
        (
          _,
          refl,
          identity_complete p url token token.symbol _ _ (
            errors,
            v.identity,
            (check_impl_iff p url token.address token.impl_code_hash).1 v.proxy,
          ),
        )

  by_identity : {I J : Type 0} → (I → J) → IsVerifiedBy p url token I → IsVerifiedBy p url token J
  by_identity f v = record {
    code = v.code;
    deployed = v.deployed;
    type_pinned = v.type_pinned;
    decimals = v.decimals;
    identity = f v.identity;
    proxy = v.proxy;
  }

  declared_sound :
      (declared : Option Text) (answer : Outcome Failure (Option Text))
      → declared ≢ none
      → Identified p url token declared answer
      → SymbolMatches p declared answer
        ⊎ (Undecoded answer
            × NameMatches token.name (call_string p url token.address selector_name))
  declared_sound none answer k h = absurd (k refl)
  declared_sound (some symbol) answer k (inl (found, decodes, same)) =
      inl (symbol, found, refl, decodes, same)
  declared_sound (some symbol) answer k (inr named) = inr named

  declared_complete :
      (declared : Option Text) (answer : Outcome Failure (Option Text))
      → SymbolMatches p declared answer
        ⊎ (Undecoded answer
            × NameMatches token.name (call_string p url token.address selector_name))
      → Identified p url token declared answer
  declared_complete declared answer (inl (symbol, found, is_declared, decodes, same)) =
      inl (found, decodes, rw is_declared same)
  declared_complete declared answer (inr named) = inr named

  undeclared_sound :
      (declared : Option Text) (answer : Outcome Failure (Option Text))
      → Identified p url token declared answer
      → ((found : Text) × Decodes answer found)
        ⊎ (Undecoded answer
            × NameMatches token.name (call_string p url token.address selector_name))
  undeclared_sound declared answer (inl (found, decodes, same)) = inl (found, decodes)
  undeclared_sound declared answer (inr named) = inr named

  undeclared_complete :
      (declared : Option Text) (answer : Outcome Failure (Option Text))
      → declared ≡ none
      → ((found : Text) × Decodes answer found)
        ⊎ (Undecoded answer
            × NameMatches token.name (call_string p url token.address selector_name))
      → Identified p url token declared answer
  undeclared_complete declared answer undeclared (inl (found, decodes)) =
      inl (found, decodes, rw undeclared tt)
  undeclared_complete declared answer undeclared (inr named) = inr named

  -- For an entry that declares a symbol, `checkToken` returns with no error exactly when code
  -- stands at the address with the pinned hash, if one is pinned; `decimals()` answers the declared
  -- number; `symbol()` decodes to a text that is not empty and is the declared symbol, case apart,
  -- or the call fails or decodes to nothing or to the empty text and `name()` decodes to the
  -- declared name, which is not empty; and the implementation slot agrees with the pin of the
  -- implementation.
  pub check_token_iff :
      token.symbol ≢ none
      → ((r : Report) × (check_token p url token ≡ ok r) × (r.errors ≡ []))
        ↔ IsVerifiedToken p url token
  check_token_iff k = (
    λ silent. by_identity (declared_sound token.symbol _ k) (check_token_sound silent),
    λ v. check_token_complete (by_identity (declared_complete token.symbol _) v),
  )

  -- For an entry with no symbol, `checkToken` returns with no error exactly when code, pin,
  -- decimals and implementation are in order, and `symbol()` decodes to some text that is not
  -- empty, whatever it is and whatever the entry's name is, or the call fails or decodes to nothing
  -- or to the empty text and `name()` decodes to the declared name, which is not empty.
  pub check_token-no_symbol :
      token.symbol ≡ none
      → ((r : Report) × (check_token p url token ≡ ok r) × (r.errors ≡ []))
        ↔ IsVerifiedBy p url token (AnySymbol p url token)
  check_token-no_symbol undeclared = (
    λ silent. by_identity (undeclared_sound token.symbol _) (check_token_sound silent),
    λ v. check_token_complete (by_identity (undeclared_complete token.symbol _ undeclared) v),
  )
