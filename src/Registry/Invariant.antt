-- ===== src/Registry/Invariant.antt =====
-- The tables of `validateTokens`: allAddresses, tokenAddresses, tokenSymbolsByChain and
-- tokenNamesByChain.
use vinuchain_lists.Prelude.{
  ℕ, ◌+◌, ◌≡◌, refl, ap, ◌∙◌, sym, subst, inl, inr, true, false, ◌&&◌, not, Option, some, List, [],
  ◌∷◌, ◌++◌, Text, text_eq, text_eq→eq, text_eq_refl, includes, to_upper, to_lower, All, All-map,
  All-append, arith, Bool-cases, Option-cases, Outcome-cases, length, ltb, Outcome, ok, threw,
}
use vinuchain_lists.Registry.{
  has, put, TokenData, Setting, State, key_of, symbol_key, name_key, register, Rejection,
  or_collision, after_checks, check_entry, visit_all, filter_dirs, after_listing, validate_tokens,
  max_tokens,
}
use vinuchain_lists.Registry.Tables.{Pairwise, Pairwise-snoc, put_new, has-put, has-put_same}

some_pair : {a b : State × ℕ} → ◌≡◌ {A = Option (State × ℕ)} (some a) (some b) → a ≡ b
some_pair h = cc h

module _ (r : Setting) where
  -- Two tokens that may both be listed, by the source's rules.
  abbrev pub Apart : TokenData → TokenData → Type 0
  Apart a b =
      (a.chain_id ≡ b.chain_id → a.address ≡ b.address → ⊥)
      × (a.chain_id ≡ b.chain_id
          → to_upper a.symbol ≡ to_upper b.symbol
          → includes r.allowed_symbols (symbol_key b) ≡ true)
      × (a.chain_id ≡ b.chain_id
          → to_lower a.name ≡ to_lower b.name
          → includes r.allowed_names (name_key b) ≡ true)

  -- The tables know each listed token.
  abbrev IsKnown : State → Text × TokenData → Type 0
  IsKnown s e =
      (e.0 ≡ key_of (e.1))
      × (includes s.all_addresses (e.0) ≡ true)
      × (has s.token_symbols (symbol_key (e.1)) ≡ true)
      × (has s.token_names (name_key (e.1)) ≡ true)

  abbrev pub IsSound : State → Type 0
  IsSound s =
      All (IsKnown s) s.token_addresses × Pairwise (λ d e. Apart (d.1) (e.1)) s.token_addresses

  -- What a registration requires, and what it makes of the state.
  abbrev pub Registered : State → TokenData → State → Type 0
  Registered s token next =
      (includes s.all_addresses (key_of token) ≡ false)
      × ((has s.token_symbols (symbol_key token)
            && not (includes r.allowed_symbols (symbol_key token)))
          ≡ false)
      × ((has s.token_names (name_key token) && not (includes r.allowed_names (name_key token)))
          ≡ false)
      × (next ≡ record s {
        token_symbols = put s.token_symbols (symbol_key token) token.address;
        token_names = put s.token_names (name_key token) token.address;
        all_addresses = key_of token ∷ s.all_addresses;
        token_addresses = put s.token_addresses (key_of token) token;
      })

  pub register_inv :
      (s : State) (token : TokenData) (next : State)
      → register r s token ≡ some next
      → Registered s token next
  unfolding register
  register_inv s token next h = elim (Bool-cases (includes s.all_addresses (key_of token))) [
    | inl taken ↦ cc (rw taken at h)
    | inr free ↦
        elim (Bool-cases (
          has s.token_symbols (symbol_key token)
          && not (includes r.allowed_symbols (symbol_key token)))) [
            | inl clash ↦ cc (rw (free, clash) at h)
            | inr unlike ↦
                elim (Bool-cases (
                  has s.token_names (name_key token)
                  && not (includes r.allowed_names (name_key token)))) [
                    | inl named ↦ cc (rw (free, unlike, named) at h)
                    | inr fine ↦
                        let made = rw (free, unlike, fine) at h in (free, unlike, fine, cc made)
                  ]
          ]
  ]

  IsKnown-Apart :
      (s : State) (token : TokenData)
      → (includes s.all_addresses (key_of token) ≡ false)
      → ((has s.token_symbols (symbol_key token)
            && not (includes r.allowed_symbols (symbol_key token)))
          ≡ false)
      → ((has s.token_names (name_key token) && not (includes r.allowed_names (name_key token)))
          ≡ false)
      → (e : Text × TokenData) → IsKnown s e
      → Apart (e.1) token
  IsKnown-Apart s token free symbols names (k, a) (at_key, listed, symbol, name) = (
    λ c h. absurd (ground (arith, free, rw (at_key, c, h) at listed)),
    λ c h. ground (arith, symbols, rw (c, h) at symbol),
    λ c h. ground (arith, names, rw (c, h) at name),
  )

  IsKnown-kept :
      (s : State) (token : TokenData) (next : State)
      → Registered s token next
      → (e : Text × TokenData) → IsKnown s e
      → IsKnown next e
  unfolding includes
  IsKnown-kept s token next (_, _, _, made) e (at_key, listed, symbol, name) = rw made (
    at_key,
    ground (arith, listed),
    has-put s.token_symbols (symbol_key token) (symbol_key (e.1)) token.address symbol,
    has-put s.token_names (name_key token) (name_key (e.1)) token.address name,
  )

  new_key :
      (s : State) (token : TokenData)
      → (includes s.all_addresses (key_of token) ≡ false)
      → (e : Text × TokenData) → IsKnown s e
      → text_eq (e.0) (key_of token) ≡ false
  new_key s token free e (_, listed, _, _) = elim (Bool-cases (text_eq (e.0) (key_of token))) [
    | inl same ↦ absurd (ground (arith, free, rw (text_eq→eq (e.0) (key_of token) same) at listed))
    | inr other ↦ other
  ]

  -- A registration keeps the tables sound.
  register-IsSound :
      (s : State) (token : TokenData) (next : State)
      → IsSound s
      → register r s token ≡ some next
      → IsSound next
  unfolding includes
  register-IsSound s token next (known, apart) h =
      let inv = register_inv s token next h in
      let (free, symbols, names, made) = inv in
      let appended =
        put_new s.token_addresses (key_of token) token
          (All-map (new_key s token free) s.token_addresses known) in
      let grown : next.token_addresses ≡ s.token_addresses ++ (key_of token, token) ∷ [] =
        ap (λ x. x.token_addresses) made ∙ appended in
      let last : IsKnown next (key_of token, token) = rw made (
        refl,
        rw (text_eq_refl (key_of token)) refl,
        has-put_same s.token_symbols (symbol_key token) token.address,
        has-put_same s.token_names (name_key token) token.address,
      ) in
      (
        subst (All (IsKnown next)) (sym grown) (
            All-append (IsKnown next) s.token_addresses ((key_of token, token) ∷ [])
              (All-map (IsKnown-kept s token next inv) s.token_addresses known) (last, tt)),
        subst (Pairwise (λ d e. Apart (d.1) (e.1))) (sym grown) (
            Pairwise-snoc (λ d e. Apart (d.1) (e.1)) s.token_addresses (key_of token, token) apart
              (All-map (IsKnown-Apart s token free symbols names) s.token_addresses known)),
      )

  after_checks-IsSound :
      (s : State) (count : ℕ) (o : Outcome Rejection (TokenData × ℕ))
      → IsSound s
      → IsSound ((after_checks r s count o).0)
  unfolding after_checks or_collision
  after_checks-IsSound s count (threw e) sound = sound
  after_checks-IsSound s count (ok (token, w)) sound =
      let warned = record s { warnings = s.warnings + w } in
      elim (Option-cases (register r warned token)) [
        | inl refused ↦ rw refused sound
        | inr (next, made) ↦ rw made (register-IsSound warned token next sound made)
      ]

  visit_all-IsSound :
      (s : State) (count : ℕ) (dirs : List Text)
      → IsSound s
      → IsSound ((visit_all r s count dirs).0)
  unfolding visit_all
  visit_all-IsSound s count [] sound = sound
  visit_all-IsSound s count (dir ∷ dirs) sound =
      let next = after_checks r s count (check_entry r dir) in
      visit_all-IsSound (next.0) (next.1) dirs
        (after_checks-IsSound s count (check_entry r dir) sound)

  after_listing-IsSound :
      (s next : State) (n : ℕ) (listing : List Text × ℕ)
      → IsSound s
      → after_listing r s listing ≡ some (next, n)
      → IsSound next
  unfolding after_listing
  after_listing-IsSound s next n (dirs, bad) sound h =
      elim (Bool-cases (ltb max_tokens (length dirs))) [
        | inl over ↦ cc (rw over at h)
        | inr within ↦
            let made : visit_all r (record s { errors = s.errors + bad }) 0 dirs ≡ (next, n) =
              cc (rw within at h) in
            subst IsSound (ap (λ x. x.0) made) (visit_all-IsSound _ 0 dirs sound)
      ]

  -- After a run of the token checks on sound tables, as the empty ones are, the tables are sound: no
  -- two listed tokens share a chain and an address; two that share a chain and a symbol, or a chain
  -- and a name, case apart, are of an allowed key; and each is in the set of addresses.
  pub validate_tokens-IsSound :
      (s next : State) (n : ℕ) → IsSound s → validate_tokens r s ≡ some (next, n) → IsSound next
  unfolding validate_tokens
  validate_tokens-IsSound s next n sound h = elim (Bool-cases (r.fs.exists r.tokens_dir)) [
    | inl there ↦ elim (Outcome-cases (r.fs.read_dir r.tokens_dir)) [
      | inl (entries, listed) ↦
          after_listing-IsSound s next n (filter_dirs r entries) sound (rw (there, listed) at h)
      | inr (e, failed) ↦
          let made : ◌≡◌ {A = Option (State × ℕ)} (some (record s { errors = s.errors + 1 }, 0))
              (some (next, n)) =
            rw (there, failed) at h in
          subst IsSound (ap (λ x. x.0) (some_pair made)) sound
    ]
    | inr absent ↦
        let made : ◌≡◌ {A = Option (State × ℕ)} (some (record s { warnings = s.warnings + 1 }, 0))
            (some (next, n)) =
          rw absent at h in
        subst IsSound (ap (λ x. x.0) (some_pair made)) sound
  ]
