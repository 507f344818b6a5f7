-- ===== src/Oracle/Run/Tags.antt =====
-- The tags of the prices that a run can come to.
use vinuchain_lists.Prelude.{
  ℕ, ◌≤◌, ◌<◌, ◌≡◌, refl, sym, ap, ◌∙◌, subst, ◌⊎◌, inl, inr, Bool, true, false, ◌&&◌, not, Option,
  none, some, some-injective, List, [], ◌∷◌, Text, codes, text_eq, length, In, ltb, ◌==◌, arith,
  Bool-cases, if◌then◌else◌, Outcome, ok, threw, >>=-eq-ok,
}
use vinuchain_lists.Oracle.Rpc.{resolve_checked_provider}
use vinuchain_lists.Oracle.Price.{
  Floats, PoolPrice, CoingeckoPrice, Price, deviation_bps, composed, pool_price, is_strict, agreed,
  compared, reconcile_vns_price,
}
use vinuchain_lists.Oracle.Update.{
  pool_advisory, short_tag, to_oracle_source_tag, oracle_source_max_bytes,
}
use vinuchain_lists.Oracle.Run.{
  CoingeckoAnswer, unreachable, refused, answered, Script, no_target, price_failed, or_null, wrap,
  coingecko_price, fetch_coingecko_price, twap_at, fetch_pool_price, resolve_vns_oracle_price,
}
use vinuchain_lists.Oracle.Run.Laws.{wrap-eq-ok}

abbrev known_sources : List Text
known_sources =
    codes "coingecko"
    ∷ codes "v3-twap"
    ∷ codes "v3-spot"
    ∷ codes "coingecko+v3-twap"
    ∷ codes "coingecko+v3-spot"
    ∷ pool_advisory
    ∷ []

abbrev IsKnown : Text → Type 0
IsKnown t = In t known_sources

abbrev pub is_ascii : Text → Bool
is_ascii [] = true
is_ascii (c ∷ t) = ltb c 128 && is_ascii t

abbrev pub IsAscii : Text → Type 0
IsAscii t = is_ascii t ≡ true

abbrev pub HasTag : (Text → ℕ) → Text → Type 0
HasTag byte_length source =
    (tag : Text) × (to_oracle_source_tag byte_length source ≡ ok tag)
    × (byte_length tag ≤ oracle_source_max_bytes)

module _ (byte_length : Text → ℕ) (ascii : (t : Text) → IsAscii t → byte_length t ≡ length t) where
  short-HasTag :
      (source tag : Text)
      → short_tag source ≡ tag
      → IsAscii tag
      → 0 < length tag
      → length tag ≤ 32
      → HasTag byte_length source
  unfolding to_oracle_source_tag
  short-HasTag source tag same plain some_bytes short =
      let size = ascii tag plain in
      let filled : (byte_length tag == 0) ≡ false = ground (arith, size, some_bytes) in
      let within : ltb oracle_source_max_bytes (byte_length tag) ≡ false =
        ground (arith, size, short) in
      (tag, rw (same, filled, within) refl, omega (arith, size, short))

  known-HasTag : (source : Text) → IsKnown source → HasTag byte_length source
  unfolding short_tag text_eq
  known-HasTag source (inl e) =
      subst (HasTag byte_length) e
        (short-HasTag (codes "coingecko") (codes "coingecko") refl refl (omega arith) (omega arith))
  known-HasTag source (inr (inl e)) =
      subst (HasTag byte_length) e
        (short-HasTag (codes "v3-twap") (codes "v3-twap") refl refl (omega arith) (omega arith))
  known-HasTag source (inr (inr (inl e))) =
      subst (HasTag byte_length) e
        (short-HasTag (codes "v3-spot") (codes "v3-spot") refl refl (omega arith) (omega arith))
  known-HasTag source (inr (inr (inr (inl e)))) = subst (HasTag byte_length) e (
      short-HasTag (codes "coingecko+v3-twap") (codes "coingecko+v3-twap") refl refl (omega arith)
        (omega arith))
  known-HasTag source (inr (inr (inr (inr (inl e))))) = subst (HasTag byte_length) e (
      short-HasTag (codes "coingecko+v3-spot") (codes "coingecko+v3-spot") refl refl (omega arith)
        (omega arith))
  known-HasTag source (inr (inr (inr (inr (inr (inl e)))))) = subst (HasTag byte_length) e (
      short-HasTag pool_advisory (codes "coingecko-pool-advisory") refl refl (omega arith)
        (omega arith))
  known-HasTag source (inr (inr (inr (inr (inr (inr never)))))) = absurd never

guarded-some : {A : Type 0} (b : Bool) (d c : A) → (if b then some d else none) ≡ some c → c ≡ d
guarded-some true d c h = sym (some-injective h)
guarded-some false d c h = cc h

or_null-some : {E A : Type 0} (o : Outcome E A) (a : A) → or_null o ≡ some a → o ≡ ok a
unfolding or_null
or_null-some (ok b) a h = ap ok (some-injective h)
or_null-some (threw e) a h = cc h

ok-price : {E A : Type 0} {a b : A} → ◌≡◌ {A = Outcome E A} (ok a) (ok b) → a ≡ b
ok-price h = cc h

abbrev IsPoolSource : Text → Type 0
IsPoolSource t = (codes "v3-twap" ≡ t) ⊎ (codes "v3-spot" ≡ t)

pool_source-IsKnown : (t : Text) → IsPoolSource t → IsKnown t
pool_source-IsKnown t (inl e) = inr (inl e)
pool_source-IsKnown t (inr e) = inr (inr (inl e))

module _ {F : Type 0} (x : Floats F) where
  composed-source :
      (max : ℕ) (real : Bool) (direct cross : Option F) (p : PoolPrice F)
      → composed x max real direct cross ≡ ok p
      → IsPoolSource p.source
  unfolding composed
  composed-source max real none cross p h = cc h
  composed-source max real (some d) none p h = cc h
  composed-source max true (some d) (some c) p h =
      elim (Bool-cases (x.is_less (x.number max) (deviation_bps x d c))) [
        | inl far ↦ cc (rw far at h)
        | inr near ↦ let h₁ = rw near at h in inl (ap (λ z. z.source) (ok-price h₁))
      ]
  composed-source max false (some d) (some c) p h =
      elim (Bool-cases (x.is_less (x.number max) (deviation_bps x d c))) [
        | inl far ↦ cc (rw far at h)
        | inr near ↦ let h₁ = rw near at h in inr (ap (λ z. z.source) (ok-price h₁))
      ]

  agreed-IsKnown : (p : PoolPrice F) (c : CoingeckoPrice F) → IsKnown (agreed x p c).source
  unfolding agreed
  agreed-IsKnown p c = elim (Bool-cases p.is_real_twap) [
    | inl real ↦ rw real (inr (inr (inr (inl refl))))
    | inr spot ↦ rw spot (inr (inr (inr (inr (inl refl)))))
  ]

  compared-IsKnown :
      (far strict : Bool) (p : PoolPrice F) (c : CoingeckoPrice F) (price : Price F)
      → compared x far strict p c ≡ ok price
      → IsKnown price.source
  unfolding compared
  compared-IsKnown true true p c price h = cc h
  compared-IsKnown true false p c price h =
      inr (inr (inr (inr (inr (inl (ap (λ z. z.source) (ok-price h)))))))
  compared-IsKnown false strict p c price h =
      subst (λ z. IsKnown z.source) (ok-price h) (agreed-IsKnown p c)

  reconciled-IsKnown :
      (guard single : Bool) (max : ℕ) (c : Option (CoingeckoPrice F)) (p : Option (PoolPrice F))
      (price : Price F)
      → ((d : CoingeckoPrice F) → c ≡ some d → d.source ≡ codes "coingecko")
      → ((q : PoolPrice F) → p ≡ some q → IsPoolSource q.source)
      → reconcile_vns_price x guard single max c p ≡ ok price
      → IsKnown price.source
  unfolding reconcile_vns_price
  reconciled-IsKnown guard single max (some c) (some p) price hc hp h =
      compared-IsKnown (x.is_less (x.number max) (deviation_bps x c.usd p.usd))
        (is_strict x (some p) guard single) p c price h
  reconciled-IsKnown guard single max (some c) none price hc hp h =
      elim (Bool-cases (guard && not single)) [
        | inl strict ↦ cc (rw strict at h)
        | inr lax ↦ let h₁ = rw lax at h in inl (sym (hc c refl) ∙ ap (λ z. z.source) (ok-price h₁))
      ]
  reconciled-IsKnown guard single max none (some p) price hc hp h =
      elim (Bool-cases (p.is_real_twap && (guard && not single))) [
        | inl strict ↦ cc (rw strict at h)
        | inr lax ↦
            let h₁ = rw lax at h in
            pool_source-IsKnown price.source
              (subst IsPoolSource (ap (λ z. z.source) (ok-price h₁)) (hp p refl))
      ]
  reconciled-IsKnown guard single max none none price hc hp h = cc h

module _ {F W : Type 0} (s : Script F W) where
  coingecko_price-source :
      (a : CoingeckoAnswer F) (c : CoingeckoPrice F)
      → coingecko_price s a ≡ some c
      → c.source ≡ codes "coingecko"
  unfolding coingecko_price
  coingecko_price-source unreachable c h = cc h
  coingecko_price-source refused c h = cc h
  coingecko_price-source (answered none u) c h = cc h
  coingecko_price-source (answered (some usd) none) c h = cc h
  coingecko_price-source (answered (some usd) (some updated)) c h =
      ap (λ z. z.source) (guarded-some _ _ c h)

  fetched-source :
      (c : CoingeckoPrice F) → fetch_coingecko_price s ≡ some c → c.source ≡ codes "coingecko"
  unfolding fetch_coingecko_price
  fetched-source c h = elim (Bool-cases s.disable_coingecko) [
    | inl off ↦ cc (ap (λ b. if b then none else coingecko_price s s.coingecko) (sym off) ∙ h)
    | inr on ↦
        coingecko_price-source s.coingecko c
          (ap (λ b. if b then none else coingecko_price s s.coingecko) (sym on) ∙ h)
  ]

  pooled-source : (p : PoolPrice F) → fetch_pool_price s ≡ ok p → IsPoolSource p.source
  unfolding fetch_pool_price pool_price
  pooled-source p h =
      let ((url, chain, block), _, h₁) =
        >>=-eq-ok
          (wrap no_target
            (resolve_checked_provider s.fetch s.price_rpc_urls s.expected_price_chain_id))
          _ h in
      let (vc_usdt, _, h₂) = >>=-eq-ok (twap_at s url s.vc_usdt) _ h₁ in
      let (vinu_vc, _, h₃) = >>=-eq-ok (twap_at s url s.vinu_vc) _ h₂ in
      let (vinu_usdt, _, h₄) = >>=-eq-ok (twap_at s url s.vinu_usdt) _ h₃ in
      composed-source s.floats s.max_deviation_bps _ _ _ p (wrap-eq-ok price_failed _ p h₄)

  -- Where the number of bytes of a text in ASCII is its length, each price that a run can come to has a
  -- tag, within the 32 bytes that the oracle contract takes.
  pub resolve_vns_oracle_price-HasTag :
      (price : Price F)
      → ((t : Text) → IsAscii t → s.byte_length t ≡ length t)
      → resolve_vns_oracle_price s ≡ ok price
      → HasTag s.byte_length price.source
  unfolding resolve_vns_oracle_price
  resolve_vns_oracle_price-HasTag price ascii h = known-HasTag s.byte_length ascii price.source (
      reconciled-IsKnown s.floats s.require_pool_guard s.allow_single_source s.max_deviation_bps
        (fetch_coingecko_price s) (or_null (fetch_pool_price s)) price fetched-source
        (λ q e. pooled-source q (or_null-some (fetch_pool_price s) q e))
        (wrap-eq-ok price_failed _ price h))
