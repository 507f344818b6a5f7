-- ===== src/Capture.antt =====
-- scripts/capture-codehashes.js, which pins the hash of the deployed code of each entry. An entry is
-- a token or a contract of Onchain.Checks; requests, the endpoints and the slot of a proxy are as
-- there. The reports are counted, their texts are left out, and `unreachable` and `fatal` are the
-- exits before the files are written. `collectTargets`, which reads the registry, is a parameter by
-- its result.
pub mod Entries
pub mod Laws
pub mod Kept
pub mod Examples
use vinuchain_lists.Prelude.{
  ℕ, ◌+◌, Bool, true, false, ◌&&◌, not, Option, none, some, List, [], ◌∷◌, ◌++◌, Text, text_eq,
  to_lower, includes, ltb, ◌==◌, if◌then◌else◌, Outcome, ok, threw, ◌>>=◌,
}
use vinuchain_lists.Onchain.Rpc.{
  RpcValue, Failure, Platform, testnet_chain_id, get_code, raw_json_rpc, resolve_checked_rpc,
}
use vinuchain_lists.Onchain.Checks.{Token, Contract, pinned, has_code, read_eip1967_impl}

-- The object of a target, by its `kind`.
pub data Entry : Type 0 where
  token : Token → Entry
  contract : Contract → Entry

abbrev pub address_of : Entry → Text
address_of (token t) = t.address
address_of (contract c) = c.address

abbrev pub chain_of : Entry → ℕ
chain_of (token t) = t.chain_id
chain_of (contract c) = c.chain_id

abbrev pub code_hash_of : Entry → Option Text
code_hash_of (token t) = t.code_hash
code_hash_of (contract c) = c.code_hash

abbrev pub impl_hash_of : Entry → Option Text
impl_hash_of (token t) = t.impl_code_hash
impl_hash_of (contract c) = c.impl_code_hash

-- The object after its two fields are assigned.
abbrev pub with_pins : Entry → (code_hash impl_code_hash : Option Text) → Entry
with_pins (token t) a b = token (record t { code_hash = a; impl_code_hash = b })
with_pins (contract c) a b = contract (record c { code_hash = a; impl_code_hash = b })

pub record Tally : Type 0 where
  pub newly : ℕ
  pub unchanged : ℕ
  pub conflicts : ℕ
  pub unpinned : ℕ

abbrev pub no_change : Tally
no_change = record { newly = 0; unchanged = 0; conflicts = 0; unpinned = 0 }

abbrev pub left_unpinned : Tally
left_unpinned = record { newly = 0; unchanged = 0; conflicts = 0; unpinned = 1 }

abbrev pub both_tallies : Tally → Tally → Tally
both_tallies a b = record {
  newly = a.newly + b.newly;
  unchanged = a.unchanged + b.unchanged;
  conflicts = a.conflicts + b.conflicts;
  unpinned = a.unpinned + b.unpinned;
}

module _ (force : Bool) where
  -- The pin that a field then has, beside the pin that counts before.
  unfoldable pub apply_checked : (prior counts : Option Text) → (live : Text) → Option Text × Tally
  unfolding text_eq to_lower
  apply_checked prior none live =
      (some live, record { newly = 1; unchanged = 0; conflicts = 0; unpinned = 0 })
  apply_checked prior (some expected) live =
      if text_eq (to_lower expected) (to_lower live)
      then (prior, record { newly = 0; unchanged = 1; conflicts = 0; unpinned = 0 })
      else if not force
      then (prior, record { newly = 0; unchanged = 0; conflicts = 1; unpinned = 0 })
      else (some live, record { newly = 1; unchanged = 0; conflicts = 0; unpinned = 0 })

  unfoldable pub apply_pin : Option Text → Text → Option Text × Tally
  unfolding apply_checked pinned
  apply_pin prior live = apply_checked prior (pinned prior) live

  module _ (p : Platform) (url : Text) where
    unfoldable pub hash_and_pin :
        Option Text → Outcome Failure Text → Outcome Failure (Option Text × Tally)
    unfolding apply_pin
    hash_and_pin prior (threw e) = threw e
    hash_and_pin prior (ok live) = ok (apply_pin prior live)

    unfoldable pub after_impl_code :
        Option Text → Outcome Failure RpcValue → Outcome Failure (Option Text × Tally)
    unfolding hash_and_pin has_code
    after_impl_code prior (threw e) = ok (prior, left_unpinned)
    after_impl_code prior (ok code) =
        if has_code code then hash_and_pin prior (p.keccak256 code) else ok (prior, left_unpinned)

    -- A slot of zero leaves the entry as it is, and a pin that it has is reported.
    unfoldable pub no_proxy : Option Text → Option Text → Option Text × Tally
    no_proxy prior none = (prior, no_change)
    no_proxy prior (some stale) = (prior, left_unpinned)

    unfoldable pub after_slot :
        Option Text → Outcome Failure (Option Text) → Outcome Failure (Option Text × Tally)
    unfolding after_impl_code raw_json_rpc no_proxy pinned
    after_slot prior (threw e) = ok (prior, left_unpinned)
    after_slot prior (ok none) = ok (no_proxy prior (pinned prior))
    after_slot prior (ok (some impl)) = after_impl_code prior (raw_json_rpc p url (get_code impl))

    unfoldable pub capture_impl : Entry → Outcome Failure (Option Text × Tally)
    unfolding after_slot read_eip1967_impl
    capture_impl c = after_slot (impl_hash_of c) (read_eip1967_impl p url (address_of c))

    unfoldable pub capture_deployed : Entry → RpcValue → Outcome Failure (Entry × Tally)
    unfolding hash_and_pin capture_impl
    capture_deployed c code = do
      (code_hash, first) ← hash_and_pin (code_hash_of c) (p.keccak256 code)
      (impl_code_hash, second) ← capture_impl c
      ok (with_pins c code_hash impl_code_hash, both_tallies first second)

    unfoldable pub after_code : Entry → Outcome Failure RpcValue → Outcome Failure (Entry × Tally)
    unfolding capture_deployed has_code
    after_code c (threw e) = ok (c, left_unpinned)
    after_code c (ok code) =
        if has_code code then capture_deployed c code else ok (c, left_unpinned)

    -- One entry at the endpoint of its chain.
    unfoldable pub capture_entry : Entry → Outcome Failure (Entry × Tally)
    unfolding after_code raw_json_rpc
    capture_entry c = after_code c (raw_json_rpc p url (get_code (address_of c)))

-- An entry and the file that it stands in.
pub record Target : Type 0 where
  pub entry : Entry
  pub file : Text

unfoldable pub endpoint_of : List (ℕ × Text) → ℕ → Option Text
endpoint_of [] chain = none
endpoint_of ((id, url) ∷ rest) chain = if id == chain then some url else endpoint_of rest chain

-- `[...new Set(ids)].sort((a, b) => a - b)`, one id at a time.
unfoldable pub insert_chain : ℕ → List ℕ → List ℕ
insert_chain n [] = n ∷ []
insert_chain n (m ∷ ms) =
    let rest = insert_chain n ms in
    if n == m then m ∷ ms else if ltb n m then n ∷ m ∷ ms else m ∷ rest

unfoldable pub chain_ids : List Target → List ℕ
unfolding insert_chain
chain_ids [] = []
chain_ids (t ∷ ts) = insert_chain (chain_of t.entry) (chain_ids ts)

pub data CaptureError : Type 0 where
  unreachable : ℕ → Failure → CaptureError
  fatal : Failure → CaptureError

pub record Captured : Type 0 where
  pub targets : List Target
  pub tally : Tally
  pub dirty : List Text

-- `dirtyFiles.set`; the order of the files does not matter.
abbrev pub add_file : Bool → Text → List Text → List Text
add_file changed file files = if changed && not (includes files file) then file ∷ files else files

module _ (p : Platform) (force strict : Bool) where
  -- One chain, in front of the others: the testnet may be skipped.
  unfoldable pub after_resolve :
      ℕ
      → Outcome CaptureError (List (ℕ × Text))
      → Outcome Failure Text
      → Outcome CaptureError (List (ℕ × Text))
  after_resolve id rest (ok url) = rest >>= (λ urls. ok ((id, url) ∷ urls))
  after_resolve id rest (threw e) =
      if (id == testnet_chain_id) && not strict then rest else threw (unreachable id e)

  unfoldable pub resolve_chains : List ℕ → Outcome CaptureError (List (ℕ × Text))
  unfolding after_resolve resolve_checked_rpc
  resolve_chains [] = ok []
  resolve_chains (id ∷ ids) = after_resolve id (resolve_chains ids) (resolve_checked_rpc p id)

  unfoldable pub visit : Option Text → Entry → Outcome Failure (Entry × Tally)
  unfolding capture_entry
  visit none c = ok (c, left_unpinned)
  visit (some url) c = capture_entry force p url c

  unfoldable pub or_fatal : {A : Type 0} → Outcome Failure A → Outcome CaptureError A
  or_fatal (ok a) = ok a
  or_fatal (threw e) = threw (fatal e)

  -- The loop over the entries.
  unfoldable pub capture_all : List (ℕ × Text) → List Target → Outcome CaptureError Captured
  unfolding or_fatal visit endpoint_of includes
  capture_all urls [] = ok (record { targets = []; tally = no_change; dirty = [] })
  capture_all urls (t ∷ ts) =
      or_fatal (visit (endpoint_of urls (chain_of t.entry)) t.entry) >>= (λ (entry, tally).
        capture_all urls ts >>= (λ rest. ok (record {
          targets = record { entry = entry; file = t.file } ∷ rest.targets;
          tally = both_tallies tally rest.tally;
          dirty = add_file (ltb 0 tally.newly) t.file rest.dirty;
        })))

  unfoldable pub capture : List Target → Outcome CaptureError Captured
  unfolding resolve_chains chain_ids capture_all
  capture targets = do urls ← resolve_chains (chain_ids targets); capture_all urls targets

-- The codes are those of `EXIT_CODES`.
unfoldable pub capture_exit_code : Outcome CaptureError Captured → ℕ
capture_exit_code (threw (unreachable chain e)) = 1
capture_exit_code (threw (fatal e)) = 2
capture_exit_code (ok c) = if ltb 0 (c.tally).conflicts then 1 else 0
