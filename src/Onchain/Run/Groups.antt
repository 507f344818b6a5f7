-- ===== src/Onchain/Run/Groups.antt =====
-- The map from chains to entries in `runOnchainChecks`.
use mathlib.Core.List.{append-nil, append_assoc}
use vinuchain_lists.Prelude.{
  ℕ, ◌≡◌, refl, sym, ap, ◌∙◌, inl, inr, Bool, List, [], ◌∷◌, ◌++◌, arith, leb, ◌==◌, ==_iff,
  if◌then◌else◌, filter_by, In, Any, ◌⊎◌, Bool-cases,
}
use vinuchain_lists.Onchain.Checks.{Token}
use vinuchain_lists.Onchain.Run.{
  ContractEntry, Group, Groups, keys, group_of, upsert, push_token, push_contract, add_tokens,
  add_contracts, group_by_chain, insert_sorted, sort_ascending,
}

group_of-upsert :
    (c k : ℕ) (f : Group → Group) (m : Groups)
    → group_of c (upsert k f m) ≡ (if k == c then f (group_of c m) else group_of c m)
unfolding group_of upsert
group_of-upsert c k f [] = refl
group_of-upsert c k f ((j, g) ∷ m) = ground (arith, group_of-upsert c k f m)

abbrev pub on_chain : ℕ → Token → Bool
on_chain c t = t.chain_id == c

abbrev pub entry_on_chain : ℕ → ContractEntry → Bool
entry_on_chain c e = e.contract.chain_id == c

tokens-add_tokens :
    (c : ℕ) (m : Groups) (ts : List Token)
    → (group_of c (add_tokens m ts)).tokens ≡ (group_of c m).tokens ++ filter_by (on_chain c) ts
unfolding add_tokens
tokens-add_tokens c m [] = sym (append-nil _)
tokens-add_tokens c m (t ∷ ts) =
    tokens-add_tokens c (upsert t.chain_id (push_token t) m) ts
    ∙ rw group_of-upsert (elim (Bool-cases (t.chain_id == c)) [
      | inl here ↦ rw here (append_assoc (group_of c m).tokens (t ∷ []) (filter_by (on_chain c) ts))
      | inr absent ↦ rw absent refl
    ])

contracts-add_tokens :
    (c : ℕ) (m : Groups) (ts : List Token)
    → (group_of c (add_tokens m ts)).contracts ≡ (group_of c m).contracts
unfolding add_tokens
contracts-add_tokens c m [] = refl
contracts-add_tokens c m (t ∷ ts) =
    contracts-add_tokens c (upsert t.chain_id (push_token t) m) ts
    ∙ rw group_of-upsert (ground arith)

tokens-add_contracts :
    (c : ℕ) (m : Groups) (es : List ContractEntry)
    → (group_of c (add_contracts m es)).tokens ≡ (group_of c m).tokens
unfolding add_contracts
tokens-add_contracts c m [] = refl
tokens-add_contracts c m (e ∷ es) =
    tokens-add_contracts c (upsert e.contract.chain_id (push_contract e) m) es
    ∙ rw group_of-upsert (ground arith)

contracts-add_contracts :
    (c : ℕ) (m : Groups) (es : List ContractEntry)
    → (group_of c (add_contracts m es)).contracts
      ≡ (group_of c m).contracts ++ filter_by (entry_on_chain c) es
unfolding add_contracts
contracts-add_contracts c m [] = sym (append-nil _)
contracts-add_contracts c m (e ∷ es) =
    contracts-add_contracts c (upsert e.contract.chain_id (push_contract e) m) es
    ∙ rw group_of-upsert (elim (Bool-cases (e.contract.chain_id == c)) [
      | inl here ↦
          rw here (append_assoc (group_of c m).contracts (e ∷ []) (filter_by (entry_on_chain c) es))
      | inr absent ↦ rw absent refl
    ])

-- The group of a chain holds the chain's tokens and contract entries, each list in its order.
pub group_by_chain_lem :
    (c : ℕ) (ts : List Token) (es : List ContractEntry)
    → ((group_of c (group_by_chain ts es)).tokens ≡ filter_by (on_chain c) ts)
      × ((group_of c (group_by_chain ts es)).contracts ≡ filter_by (entry_on_chain c) es)
unfolding group_by_chain group_of
group_by_chain_lem c ts es = (
  tokens-add_contracts c (add_tokens [] ts) es ∙ tokens-add_tokens c [] ts,
  contracts-add_contracts c (add_tokens [] ts) es
      ∙ ap (λ l. l ++ filter_by (entry_on_chain c) es) (contracts-add_tokens c [] ts),
)

-- A chain whose group holds something is one of the keys.
pub In-keys_of_token : (c : ℕ) (t : Token) (m : Groups) → In t (group_of c m).tokens → In c (keys m)
unfolding group_of
In-keys_of_token c t [] h = h
In-keys_of_token c t ((k, g) ∷ m) h = elim (Bool-cases (k == c)) [
  | inl here ↦ inl ((==_iff k c).0 here)
  | inr absent ↦ inr (In-keys_of_token c t m (rw (absent, group_of) at h))
]

pub In-keys_of_contract :
    (c : ℕ) (e : ContractEntry) (m : Groups) → In e (group_of c m).contracts → In c (keys m)
unfolding group_of
In-keys_of_contract c e [] h = h
In-keys_of_contract c e ((k, g) ∷ m) h = elim (Bool-cases (k == c)) [
  | inl here ↦ inl ((==_iff k c).0 here)
  | inr absent ↦ inr (In-keys_of_contract c e m (rw (absent, group_of) at h))
]

In-insert_sorted : (n : ℕ) (ms : List ℕ) {a : ℕ} → In a (n ∷ ms) → In a (insert_sorted n ms)
unfolding insert_sorted
In-insert_sorted n [] h = h
In-insert_sorted n (m ∷ ms) h = elim (Bool-cases (leb n m)) [
  | inl before ↦ rw before h
  | inr behind ↦ rw behind (elim h [
    | inl e ↦ inr (In-insert_sorted n ms (inl e))
    | inr (inl e) ↦ inl e
    | inr (inr later) ↦ inr (In-insert_sorted n ms (inr later))
  ])
]

pub In-sort_ascending : (a : ℕ) (ns : List ℕ) → In a ns → In a (sort_ascending ns)
unfolding sort_ascending
In-sort_ascending a [] h = h
In-sort_ascending a (n ∷ ns) (inl e) = In-insert_sorted n (sort_ascending ns) (inl e)
In-sort_ascending a (n ∷ ns) (inr h) =
    In-insert_sorted n (sort_ascending ns) (inr (In-sort_ascending a ns h))

In-insert_sorted_inv : (n : ℕ) (ms : List ℕ) {a : ℕ} → In a (insert_sorted n ms) → In a (n ∷ ms)
unfolding insert_sorted
In-insert_sorted_inv n [] h = h
In-insert_sorted_inv n (m ∷ ms) {a} h = elim (Bool-cases (leb n m)) [
  | inl before ↦ rw before at h
  | inr behind ↦
      let h₁ : In a (m ∷ insert_sorted n ms) = rw behind at h in
      elim h₁ [
        | inl e ↦ inr (inl e)
        | inr later ↦ elim (In-insert_sorted_inv n ms later) [
          | inl e ↦ inl e
          | inr rest ↦ inr (inr rest)
        ]
      ]
]

pub In-sort_ascending_inv : (a : ℕ) (ns : List ℕ) → In a (sort_ascending ns) → In a ns
unfolding sort_ascending
In-sort_ascending_inv a [] h = h
In-sort_ascending_inv a (n ∷ ns) h = elim (In-insert_sorted_inv n (sort_ascending ns) h) [
  | inl e ↦ inl e
  | inr later ↦ inr (In-sort_ascending_inv a ns later)
]

In-keys-upsert :
    (c k : ℕ) (f : Group → Group) (m : Groups)
    → In c (keys (upsert k f m))
    → (k ≡ c) ⊎ In c (keys m)
unfolding upsert
In-keys-upsert c k f [] h = h
In-keys-upsert c k f ((j, g) ∷ m) h = elim (Bool-cases (j == k)) [
  | inl same ↦ inr (rw (same, upsert) at h)
  | inr other ↦
      let h₁ : In c (j ∷ keys (upsert k f m)) = rw (other, upsert) at h in
      elim h₁ [
        | inl e ↦ inr (inl e)
        | inr later ↦ elim (In-keys-upsert c k f m later) [
          | inl e ↦ inl e
          | inr rest ↦ inr (inr rest)
        ]
      ]
]

In-keys_tokens :
    (c : ℕ) (m : Groups) (ts : List Token)
    → In c (keys (add_tokens m ts))
    → Any (λ t. t.chain_id ≡ c) ts ⊎ In c (keys m)
unfolding add_tokens
In-keys_tokens c m [] h = inr h
In-keys_tokens c m (t ∷ ts) h = elim (In-keys_tokens c (upsert t.chain_id (push_token t) m) ts h) [
  | inl later ↦ inl (inr later)
  | inr here ↦ elim (In-keys-upsert c t.chain_id (push_token t) m here) [
    | inl e ↦ inl (inl e)
    | inr before ↦ inr before
  ]
]

In-keys_contracts :
    (c : ℕ) (m : Groups) (es : List ContractEntry)
    → In c (keys (add_contracts m es))
    → Any (λ e. e.contract.chain_id ≡ c) es ⊎ In c (keys m)
unfolding add_contracts
In-keys_contracts c m [] h = inr h
In-keys_contracts c m (e ∷ es) h =
    elim (In-keys_contracts c (upsert e.contract.chain_id (push_contract e) m) es h) [
      | inl later ↦ inl (inr later)
      | inr here ↦ elim (In-keys-upsert c e.contract.chain_id (push_contract e) m here) [
        | inl same ↦ inl (inl same)
        | inr before ↦ inr before
      ]
    ]

-- A chain that has a key has an entry.
pub In-keys_inv :
    (c : ℕ) (ts : List Token) (es : List ContractEntry)
    → In c (keys (group_by_chain ts es))
    → Any (λ t. t.chain_id ≡ c) ts ⊎ Any (λ e. e.contract.chain_id ≡ c) es
unfolding group_by_chain
In-keys_inv c ts es h = elim (In-keys_contracts c (add_tokens [] ts) es h) [
  | inl listed ↦ inr listed
  | inr before ↦ elim (In-keys_tokens c [] ts before) [
    | inl listed ↦ inl listed
    | inr none_there ↦ absurd none_there
  ]
]
