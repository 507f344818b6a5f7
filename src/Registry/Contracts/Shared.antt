-- ===== src/Registry/Contracts/Shared.antt =====
-- What registering one contract from two projects does to the tables.
use vinuchain_lists.Prelude.{
  ◌≡◌, refl, sym, ap, ◌∙◌, inl, inr, true, false, none, some, some-injective, List, [], ◌∷◌, Text,
  includes, text_eq, text_eq_refl, Bool-cases, if◌then◌else◌,
}
use vinuchain_lists.Registry.{Table, put, State}
use vinuchain_lists.Registry.Contracts.{
  ContractData, contract_key, is_registered_token, register_contract,
}

-- Of two values under a key the later one stays.
put-put : {A : Type 0} (t : Table A) (k : Text) (a b : A) → put (put t k a) k b ≡ put t k b
unfolding put
put-put [] k a b = rw (text_eq_refl k) refl
put-put ((j, c) ∷ t) k a b = elim (Bool-cases (text_eq j k)) [
  | inl same ↦ rw (same, put, same) refl
  | inr other ↦ rw (other, put, other) (ap (λ u. (j, c) ∷ u) (put-put t k a b))
]

includes-cons : (k : Text) (ks : List Text) → includes (k ∷ ks) k ≡ true
unfolding includes
includes-cons k ks = rw (text_eq_refl k) refl

-- The state with the contract in its table.
abbrev with_contract : State → Text → ContractData → State
with_contract s slug c = record s {
  contract_addresses =
      put s.contract_addresses (contract_key c) (record { project = slug; contract = c.name });
}

register_shared :
    (s : State) (slug : Text) (c : ContractData)
    → is_registered_token s c ≡ true
    → register_contract s slug c ≡ some (with_contract s slug c)
unfolding register_contract
register_shared s slug c shared = elim (Bool-cases (includes s.all_addresses (contract_key c))) [
  | inl taken ↦ rw (shared, taken) refl
  | inr free ↦ rw (shared, free) refl
]

register_other :
    (s : State) (slug : Text) (c : ContractData)
    → is_registered_token s c ≡ false
    → register_contract s slug c ≡ (
        if includes s.all_addresses (contract_key c)
        then none
        else some
            (record (with_contract s slug c) { all_addresses = contract_key c ∷ s.all_addresses }))
unfolding register_contract
register_other s slug c other = elim (Bool-cases (includes s.all_addresses (contract_key c))) [
  | inl taken ↦ rw (other, taken) refl
  | inr free ↦ rw (other, free) refl
]

refused_again :
    (s next : State) (first second : Text) (c : ContractData)
    → is_registered_token s c ≡ false
    → register_contract s first c ≡ some next
    → register_contract next second c ≡ none
refused_again s next first second c other h =
    let same = sym (register_other s first c other) ∙ h in
    elim (Bool-cases (includes s.all_addresses (contract_key c))) [
      | inl taken ↦ cc (rw taken at same)
      | inr free ↦
          let made = some-injective (rw free at same) in
          let tokens = ap (λ x. is_registered_token x c) made in
          let there = ap (λ x. includes x.all_addresses (contract_key c)) made in
          register_other next second c (sym tokens ∙ other)
          ∙ ap
              (λ b.
                if b
                then none
                else some (record (with_contract next second c) {
                  all_addresses = contract_key c ∷ next.all_addresses;
                }))
              (sym there ∙ includes-cons (contract_key c) s.all_addresses)
    ]

-- A contract that is no registered token is registered from one project only: a second time it is
-- refused. A token's contract is registered from every project that lists it, without an error, and
-- the state is then as if the last project alone had listed it.
pub register_contract-twice :
    (s : State) (first second : Text) (c : ContractData)
    → (is_registered_token s c ≡ false
        → (next : State) → register_contract s first c ≡ some next
        → register_contract next second c ≡ none)
      × (is_registered_token s c ≡ true
          → (next : State) × (register_contract s first c ≡ some next)
            × (register_contract next second c ≡ register_contract s second c))
register_contract-twice s first second c = (
  λ other next h. refused_again s next first second c other h,
  λ shared.
      let next = with_contract s first c in
      (
        next,
        register_shared s first c shared,
        register_shared next second c shared
            ∙ ap (λ t. some (record s { contract_addresses = t }))
                (put-put s.contract_addresses (contract_key c)
                  (record { project = first; contract = c.name })
                  (record { project = second; contract = c.name }))
            ∙ sym (register_shared s second c shared),
      ),
)
