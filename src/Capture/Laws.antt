-- ===== src/Capture/Laws.antt =====
-- What a capture leaves in the registry.
use vinuchain_lists.Prelude.{ℕ, ◌≡◌, ap, Bool, List, [], ◌∷◌, Text, Outcome, ok, threw}
use vinuchain_lists.Onchain.Rpc.{Failure, Platform, resolve_checked_rpc}
use vinuchain_lists.Capture.{Entry, chain_of, Target, or_fatal}
use vinuchain_lists.Capture.Entries.{ok-value, IsCaptured}

module _ (p : Platform) where
  -- The entry is verified at the endpoint that its chain resolves to.
  abbrev pub VerifiedAt : ℕ → Entry → Type 0
  VerifiedAt chain c = (url : Text) × (resolve_checked_rpc p chain ≡ ok url) × IsCaptured p url c

  -- Each entry of the result, at the chain of the target that it comes from.
  abbrev pub AllVerified : List Target → List Target → Type 0
  AllVerified [] [] = Unit
  AllVerified (t ∷ ts) (u ∷ us) = VerifiedAt (chain_of t.entry) u.entry × AllVerified ts us
  AllVerified _ _ = ⊥

module _ (p : Platform) (force strict : Bool) where
  pub fatal-ok :
      {A : Type 0} (o : Outcome Failure A) (a : A) → or_fatal p force strict o ≡ ok a → o ≡ ok a
  unfolding or_fatal
  fatal-ok (ok b) a h = ap ok (ok-value h)
  fatal-ok (threw e) a h = cc h
