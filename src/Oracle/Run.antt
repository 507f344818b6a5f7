-- ===== src/Oracle/Run.antt =====
-- `main` of scripts/update-vns-oracle.js, with the fetches that it composes. What is constant during a
-- run is a record; the node's state is passed on by the calls of the sending half alone.
pub mod Laws
pub mod Tags
pub mod Examples
use vinuchain_lists.Prelude.{
  ℕ, Bool, true, false, ◌&&◌, ◌||◌, not, Option, none, some, List, [], ◌∷◌, Text, codes,
  if◌then◌else◌, Outcome, ok, threw, ◌>>=◌, ◌>>◌, require,
}
use vinuchain_lists.Onchain.Rpc.{Request, Response}
use vinuchain_lists.Oracle.Rpc.{ProviderError, resolve_checked_provider}
use vinuchain_lists.Oracle.Price.{
  Floats, PriceError, call_failed, Pool, PoolAnswers, Twap, PoolPrice, CoingeckoPrice, Price,
  is_positive, read_pool_twap, pool_price, reconcile_vns_price, to_oracle_answer,
}
use vinuchain_lists.Oracle.Update.{
  UpdateError, OracleView, Expected, to_oracle_source_tag, verify_oracle_for_update,
}
use vinuchain_lists.Oracle.Broadcast.{
  BroadcastError, Transaction, Receipt, Node, Retries, broadcast_with_retries,
}

-- What CoinGecko answers: a member that is no number is `none`.
pub data CoingeckoAnswer (F : Type 0) : Type 0 where
  unreachable : CoingeckoAnswer F
  refused : CoingeckoAnswer F
  answered : (usd updated_at : Option F) → CoingeckoAnswer F

pub record Script (F W : Type 0) : Type 0 where
  pub floats : Floats F
  pub fetch : Text → Request → Response
  pub byte_length : Text → ℕ
  pub target_rpc_urls : List Text
  pub expected_target_chain_id : ℕ
  pub price_rpc_urls : List Text
  pub expected_price_chain_id : ℕ
  pub disable_coingecko : Bool
  pub coingecko : CoingeckoAnswer F
  pub now : ℕ
  pub coingecko_max_age_seconds : ℕ
  -- The reads of a pool at an endpoint; an error holds its message.
  pub pool_answers : Text → Pool → Outcome Text PoolAnswers
  pub min_pool_liquidity : ℕ
  pub twap_windows_seconds : List ℕ
  pub vc_usdt : Pool
  pub vinu_vc : Pool
  pub vinu_usdt : Pool
  pub max_deviation_bps : ℕ
  pub require_pool_guard : Bool
  pub allow_single_source : Bool
  pub should_send : Bool
  pub oracle_address : Text
  pub private_key : Text
  pub expected : Expected
  pub read_oracle : W → Outcome Text OracleView
  pub node : Node W
  pub retries : Retries

pub data RunError : Type 0 where
  no_target : ProviderError → RunError
  price_failed : PriceError → RunError
  update_refused : UpdateError → RunError
  read_failed : Text → RunError
  no_oracle_address no_private_key : RunError
  broadcast_failed : BroadcastError → RunError

abbrev pub is_set : Text → Bool
is_set [] = false
is_set (c ∷ t) = true

unfoldable pub or_null {ℓ} : {E A : Type ℓ} → Outcome E A → Option A
or_null (ok a) = some a
or_null (threw e) = none

unfoldable pub wrap : {E A : Type 0} → (E → RunError) → Outcome E A → Outcome RunError A
wrap f (ok a) = ok a
wrap f (threw e) = threw (f e)

module _ {F W : Type 0} (s : Script F W) where
  -- The age is compared as JavaScript does: an age that is no number passes.
  unfoldable pub coingecko_price : CoingeckoAnswer F → Option (CoingeckoPrice F)
  coingecko_price (answered (some usd) (some updated_at)) =
      if (s.floats.is_finite usd && is_positive s.floats usd)
        && not (
            s.floats.is_less (s.floats.number s.coingecko_max_age_seconds)
              (s.floats.minus (s.floats.number s.now) updated_at))
      then some (record { usd = usd; source = codes "coingecko" })
      else none
  coingecko_price _ = none

  unfoldable pub fetch_coingecko_price : Option (CoingeckoPrice F)
  unfolding coingecko_price
  fetch_coingecko_price = if s.disable_coingecko then none else coingecko_price s.coingecko

  unfoldable pub twap_at : Text → Pool → Outcome RunError (Twap F)
  unfolding wrap read_pool_twap
  twap_at url pool = do
    answers ← wrap read_failed (s.pool_answers url pool)
    wrap price_failed
        (read_pool_twap s.floats s.min_pool_liquidity s.twap_windows_seconds pool answers)

  unfoldable pub fetch_pool_price : Outcome RunError (PoolPrice F)
  unfolding wrap twap_at resolve_checked_provider pool_price
  fetch_pool_price = do
    (url, chain, block) ←
        wrap no_target (resolve_checked_provider s.fetch s.price_rpc_urls s.expected_price_chain_id)
    vc_usdt ← twap_at url s.vc_usdt
    vinu_vc ← twap_at url s.vinu_vc
    vinu_usdt ← twap_at url s.vinu_usdt
    wrap price_failed (pool_price s.floats s.max_deviation_bps vc_usdt vinu_vc vinu_usdt)

  unfoldable pub resolve_vns_oracle_price : Outcome RunError (Price F)
  unfolding wrap fetch_pool_price fetch_coingecko_price or_null reconcile_vns_price
  resolve_vns_oracle_price = wrap price_failed (
      reconcile_vns_price s.floats s.require_pool_guard s.allow_single_source s.max_deviation_bps
        fetch_coingecko_price (or_null fetch_pool_price))

  -- The answer and the tag that a run would send.
  unfoldable pub prepare : Outcome RunError (ℕ × Text)
  unfolding wrap resolve_vns_oracle_price to_oracle_answer to_oracle_source_tag
  prepare = do
    wrap no_target (resolve_checked_provider s.fetch s.target_rpc_urls s.expected_target_chain_id)
    price ← resolve_vns_oracle_price
    answer ← wrap price_failed (to_oracle_answer s.floats price.usd)
    tag ← wrap update_refused (to_oracle_source_tag s.byte_length price.source)
    ok (answer, tag)

  -- The checks of a run that sends.
  unfoldable pub check_send : W → ℕ → Outcome RunError (Unit {0})
  unfolding wrap verify_oracle_for_update
  check_send w answer = do
    require (is_set s.oracle_address) no_oracle_address
    require (is_set s.private_key) no_private_key
    oracle ← wrap read_failed (s.read_oracle w)
    wrap update_refused (verify_oracle_for_update s.expected oracle answer)

  abbrev pub Result : Type 0
  Result = Outcome RunError (Option Receipt) × W × List Transaction

  unfoldable pub after_broadcast : Outcome BroadcastError Receipt × W × List Transaction → Result
  after_broadcast (ok receipt, w, sent) = (ok (some receipt), w, sent)
  after_broadcast (threw e, w, sent) = (threw (broadcast_failed e), w, sent)

  unfoldable pub after_check : W → ℕ → Text → Outcome RunError (Unit {0}) → Result
  unfolding after_broadcast broadcast_with_retries
  after_check w answer tag (threw e) = (threw e, w, [])
  after_check w answer tag (ok u) =
      after_broadcast (broadcast_with_retries s.node s.retries answer tag w)

  unfoldable pub after_prepare : W → Outcome RunError (ℕ × Text) → Result
  unfolding after_check check_send
  after_prepare w (threw e) = (threw e, w, [])
  after_prepare w (ok (answer, tag)) =
      if not s.should_send then (ok none, w, []) else after_check w answer tag (check_send w answer)

  -- `main`: a receipt, or `none` for a dry run, and the transactions handed over.
  unfoldable pub run : W → Result
  unfolding after_prepare prepare
  run w = after_prepare w prepare
