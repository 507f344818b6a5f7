-- ===== src/Oracle/Price.antt =====
-- The prices of scripts/update-vns-oracle.js: the reads of the pools, the price that they give, and the
-- reconciliation with CoinGecko's. A JavaScript number is of a type `F` with its operations, a
-- parameter. The contracts of the pools and fetch are parameters by their answers. Of a price, what the
-- log alone reads is left out.
pub mod Laws
pub mod Floor
pub mod Examples
use vinuchain_lists.Prelude.{
  ℕ, zero, suc, ◌+◌, ◌-◌, ◌*◌, ◌/◌, ◌%◌, Bool, true, false, ◌&&◌, ◌||◌, not, Option, none, some,
  List, [], ◌∷◌, Text, codes, text_eq, to_lower, contains, ltb, leb, ◌==◌, if◌then◌else◌, Outcome,
  ok, threw, ◌>>=◌, ◌>>◌, require,
}
use vinuchain_lists.Numbers.{JsNumber, nan, int}
use vinuchain_lists.Oracle.Rpc.{max_safe_integer}
use vinuchain_lists.Oracle.Update.{ℤ, pos, negsuc, pool_advisory}

pub record Floats (F : Type 0) : Type 0 where
  pub number : ℕ → F
  pub plus : F → F → F
  pub minus : F → F → F
  pub times : F → F → F
  pub over : F → F → F
  pub absolute : F → F
  -- `Math.pow(1.0001, tick)`, and `10 ** (a - b)`
  pub tick_power : ℤ → F
  pub ten_power : (a b : ℕ) → F
  pub is_less : F → F → Bool
  pub is_finite : F → Bool
  -- Neither 0 nor NaN.
  pub is_truthy : F → Bool
  -- `Math.round`; what is not finite is `nan`.
  pub rounded : F → JsNumber

pub data PriceError : Type 0 where
  call_failed : Text → PriceError
  low_liquidity observe_failed unexpected_token invalid_twap : PriceError
  no_pool_price pool_deviation : PriceError
  deviation_too_large no_corroboration no_coingecko no_price : PriceError
  invalid_price : PriceError

-- `POOLS`
pub record Pool : Type 0 where
  pub token0 : Text
  pub token1 : Text
  pub token0_address : Text
  pub token1_address : Text
  pub token0_decimals : ℕ
  pub token1_decimals : ℕ

-- What the contract of a pool answers.
pub record PoolAnswers : Type 0 where
  pub token0 : Text
  pub token1 : Text
  pub liquidity : ℕ
  pub observation_cardinality : ℕ
  -- The two cumulative ticks of a window, as a difference, or the message of the error.
  pub observe : ℕ → Outcome Text ℤ

pub record Twap (F : Type 0) : Type 0 where
  pub token0 : Text
  pub token1 : Text
  pub token1_per_token0 : F
  pub window_seconds : ℕ
  pub is_real_twap : Bool

pub record PoolPrice (F : Type 0) : Type 0 where
  pub usd : F
  pub source : Text
  pub is_real_twap : Bool

pub record CoingeckoPrice (F : Type 0) : Type 0 where
  pub usd : F
  pub source : Text

pub record Price (F : Type 0) : Type 0 where
  pub usd : F
  pub source : Text

-- The quotient of BigInt, which is cut towards zero.
unfoldable pub cut_quotient : ℤ → ℕ → ℤ
cut_quotient (pos n) d = pos (n / d)
cut_quotient (negsuc n) d = elim (suc n / d) [ zero ↦ pos 0 | suc q ↦ negsuc q ]

unfoldable pub minus_one : ℤ → ℤ
minus_one (pos (suc n)) = pos n
minus_one (pos zero) = negsuc 0
minus_one (negsuc n) = negsuc (suc n)

unfoldable pub div_floor : ℤ → ℕ → ℤ
unfolding cut_quotient minus_one
div_floor (pos n) d = cut_quotient (pos n) d
div_floor (negsuc n) d =
    if suc n % d == 0 then cut_quotient (negsuc n) d else minus_one (cut_quotient (negsuc n) d)

unfoldable pub token_meta : Pool → Text → Outcome PriceError (Text × ℕ)
unfolding text_eq to_lower
token_meta pool address =
    if text_eq (to_lower address) (to_lower pool.token0_address)
    then ok (pool.token0, pool.token0_decimals)
    else if text_eq (to_lower address) (to_lower pool.token1_address)
    then ok (pool.token1, pool.token1_decimals)
    else threw unexpected_token

-- The first window that the pool can observe; an error without `OLD` ends the search.
unfoldable pub first_window : (ℕ → Outcome Text ℤ) → List ℕ → Outcome PriceError (ℕ × ℤ)
unfolding contains
first_window observe [] = threw observe_failed
first_window observe (window ∷ windows) =
    let rest = first_window observe windows in
    elim (observe window) [
      | ok delta ↦ ok (window, delta)
      | threw message ↦ if contains (codes "OLD") message then rest else threw (call_failed message)
    ]

module _ {F : Type 0} (x : Floats F) where
  abbrev pub is_positive : F → Bool
  is_positive v = x.is_less (x.number 0) v

  unfoldable pub read_pool_twap :
      (min_liquidity : ℕ) → List ℕ → Pool → PoolAnswers → Outcome PriceError (Twap F)
  unfolding first_window token_meta div_floor
  read_pool_twap min_liquidity windows pool a = do
    require (not (ltb a.liquidity min_liquidity)) low_liquidity
    (window, delta) ← first_window a.observe windows
    require (not (window == 0)) observe_failed
    (symbol0, decimals0) ← token_meta pool a.token0
    (symbol1, decimals1) ← token_meta pool a.token1
    let price = x.times (x.tick_power (div_floor delta window)) (x.ten_power decimals0 decimals1)
    require (x.is_finite price && is_positive price) invalid_twap
    ok (record {
      token0 = symbol0;
      token1 = symbol1;
      token1_per_token0 = price;
      window_seconds = window;
      is_real_twap = ltb 1 a.observation_cardinality;
    })

  unfoldable pub quote : Twap F → Text → Text → Option F
  unfolding text_eq
  quote t base counter =
      if text_eq t.token0 base && text_eq t.token1 counter
      then some t.token1_per_token0
      else if text_eq t.token0 counter && text_eq t.token1 base
      then some (x.over (x.number 1) t.token1_per_token0)
      else none

  unfoldable pub deviation_bps : F → F → F
  deviation_bps a b =
      x.times (x.over (x.absolute (x.minus a b)) (x.over (x.plus a b) (x.number 2)))
        (x.number 10000)

  unfoldable pub truthy : Option F → Option F
  truthy none = none
  truthy (some v) = if x.is_truthy v then some v else none

  -- `a && b ? a / b : null`
  unfoldable pub ratio : Option F → Option F → Option F
  ratio (some a) (some b) = some (x.over a b)
  ratio _ _ = none

  unfoldable pub composed : ℕ → Bool → Option F → Option F → Outcome PriceError (PoolPrice F)
  unfolding deviation_bps
  composed max_deviation real (some direct) (some cross) =
      if x.is_less (x.number max_deviation) (deviation_bps direct cross)
      then threw pool_deviation
      else ok (record {
        usd = direct;
        source = if real then codes "v3-twap" else codes "v3-spot";
        is_real_twap = real;
      })
  composed max_deviation real _ _ = threw no_pool_price

  -- What `fetchPoolPrice` makes of the reads of the three pools.
  unfoldable pub pool_price : ℕ → Twap F → Twap F → Twap F → Outcome PriceError (PoolPrice F)
  unfolding composed truthy ratio quote
  pool_price max_deviation vc_usdt vinu_vc vinu_usdt =
      composed max_deviation
        (vc_usdt.is_real_twap && (vinu_vc.is_real_twap && vinu_usdt.is_real_twap))
        (truthy (quote vc_usdt (codes "WVC") (codes "USDT")))
        (truthy (
          ratio (truthy (quote vinu_usdt (codes "VINU") (codes "USDT")))
            (truthy (quote vinu_vc (codes "VINU") (codes "WVC")))))

  -- `requirePoolGuard`, `allowSingleSource` and `maxDeviationBps`.
  abbrev pub is_strict : Option (PoolPrice F) → Bool → Bool → Bool
  is_strict none guard single = guard && not single
  is_strict (some p) guard single = p.is_real_twap && (guard && not single)

  unfoldable pub agreed : PoolPrice F → CoingeckoPrice F → Price F
  agreed p c = record {
    usd = c.usd;
    source = if p.is_real_twap then codes "coingecko+v3-twap" else codes "coingecko+v3-spot";
  }

  unfoldable pub compared :
      Bool → Bool → PoolPrice F → CoingeckoPrice F → Outcome PriceError (Price F)
  unfolding agreed
  compared far strict p c =
      if far
      then (if strict
          then threw deviation_too_large
          else ok (record { usd = c.usd; source = pool_advisory }))
      else ok (agreed p c)

  unfoldable pub reconcile_vns_price :
      (guard single : Bool) (max_deviation : ℕ)
      → Option (CoingeckoPrice F)
      → Option (PoolPrice F)
      → Outcome PriceError (Price F)
  unfolding compared deviation_bps
  reconcile_vns_price guard single max_deviation (some c) (some p) =
      compared (x.is_less (x.number max_deviation) (deviation_bps c.usd p.usd))
        (is_strict (some p) guard single) p c
  reconcile_vns_price guard single max_deviation (some c) none =
      if is_strict none guard single
      then threw no_corroboration
      else ok (record { usd = c.usd; source = c.source })
  reconcile_vns_price guard single max_deviation none (some p) =
      if is_strict (some p) guard single
      then threw no_coingecko
      else ok (record { usd = p.usd; source = p.source })
  reconcile_vns_price guard single max_deviation none none = threw no_price

  -- `Math.round(usd * 1e8)`, where it is a safe integer over 0.
  unfoldable pub answer_of : JsNumber → Outcome PriceError ℕ
  answer_of (int false n) = if leb n max_safe_integer && ltb 0 n then ok n else threw invalid_price
  answer_of _ = threw invalid_price

  unfoldable pub to_oracle_answer : F → Outcome PriceError ℕ
  unfolding answer_of
  to_oracle_answer usd = answer_of (x.rounded (x.times usd (x.number 100000000)))
