-- ===== src/Oracle/Update.antt =====
-- The checks of scripts/update-vns-oracle.js before an update (toOracleAnswer's range, the source tag
-- and `verifyOracleForUpdate`), and `setLatestAnswer` of contracts/vns/VinuUsdOracle.sol, which the
-- update calls. The number of bytes of a text in UTF-8 is a parameter. The contract's arithmetic is
-- that of 256 bits, which reverts where it overflows.
pub mod Laws
pub mod Contract
pub mod Examples
use vinuchain_lists.Prelude.{
  ℕ, ◌+◌, ◌-◌, ◌*◌, ◌/◌, ◌^◌, Bool, true, false, ◌&&◌, ◌||◌, not, Option, none, some, List, [], ◌∷◌,
  Text, codes, text_eq, to_lower, ltb, leb, ◌==◌, if◌then◌else◌, Outcome, ok, threw, ◌>>=◌, ◌>>◌,
  require,
}

-- An integer, as BigInt and int256 have them: `negsuc n` is -(n + 1).
pub data ℤ : Type 0 where
  pos : ℕ → ℤ
  negsuc : ℕ → ℤ

abbrev pub oracle_source_max_bytes : ℕ
oracle_source_max_bytes = 32

abbrev pub pool_advisory : Text
pool_advisory = codes "coingecko (pool advisory: deviation exceeded cap)"

-- What the script refuses an update for.
pub data UpdateError : Type 0 where
  empty_tag tag_too_long : UpdateError
  no_code wrong_owner wrong_decimals wrong_description wrong_version wrong_max_age : UpdateError
  outside_bounds deviation_too_large : UpdateError

-- `ORACLE_SOURCE_TAGS[source] || source`
unfoldable pub short_tag : Text → Text
unfolding text_eq
short_tag source = if text_eq source pool_advisory then codes "coingecko-pool-advisory" else source

unfoldable pub to_oracle_source_tag : (Text → ℕ) → Text → Outcome UpdateError Text
unfolding short_tag
to_oracle_source_tag byte_length source =
    let tag = short_tag source in
    if byte_length tag == 0
    then threw empty_tag
    else if ltb oracle_source_max_bytes (byte_length tag)
    then threw tag_too_long
    else ok tag

abbrev pub distance : ℕ → ℕ → ℕ
distance a b = if ltb b a then a - b else b - a

-- The division is that of BigInt: it drops the fraction.
unfoldable pub deviation_bps_big : ℕ → ℕ → ℕ
deviation_bps_big a b = distance a b * 10000 / a

-- What the script reads of the oracle.
pub record OracleView : Type 0 where
  pub has_code : Bool
  pub owner : Text
  pub decimals : ℕ
  pub description : Text
  pub version : ℕ
  pub max_age : ℕ
  pub min_answer : ℕ
  pub max_answer : ℕ
  pub max_change_bps : ℕ
  pub previous : ℤ

-- The signer, `EXPECTED_ORACLE_MAX_AGE` and `MAX_UPDATE_BPS`.
pub record Expected : Type 0 where
  pub signer : Text
  pub max_age : ℕ
  pub max_update_bps : ℕ

abbrev pub allowed_bps : Expected → OracleView → ℕ
allowed_bps x o =
    if ltb o.max_change_bps x.max_update_bps then o.max_change_bps else x.max_update_bps

unfoldable pub check_deviation : ℤ → ℕ → ℕ → Outcome UpdateError (Unit {0})
unfolding deviation_bps_big
check_deviation (negsuc n) allowed answer = ok tt
check_deviation (pos p) allowed answer =
    if ltb 0 p
    then (if ltb allowed (deviation_bps_big p answer) then threw deviation_too_large else ok tt)
    else ok tt

unfoldable pub verify_oracle_for_update : Expected → OracleView → ℕ → Outcome UpdateError (Unit {0})
unfolding to_lower text_eq check_deviation
verify_oracle_for_update x o answer = do
  require o.has_code no_code
  require (text_eq (to_lower o.owner) (to_lower x.signer)) wrong_owner
  require (o.decimals == 8) wrong_decimals
  require (text_eq o.description (codes "VC / USD")) wrong_description
  require (o.version == 1) wrong_version
  require (o.max_age == x.max_age) wrong_max_age
  require (not (ltb answer o.min_answer || ltb o.max_answer answer)) outside_bounds
  check_deviation o.previous (allowed_bps x o) answer

-- The state of the contract.
pub record Oracle : Type 0 where
  pub owner : Text
  pub answer : ℤ
  pub source : Text
  pub max_age : ℕ
  pub min_answer : ℕ
  pub max_answer : ℕ
  pub max_change_bps : ℕ
  pub updated_at : ℕ

pub data Revert : Type 0 where
  not_the_owner invalid_answer source_too_long overflow : Revert
  answer_out_of_bounds : ℕ → Revert
  answer_change_too_large : (previous new : ℕ) → Revert

-- A product of 256 bits.
unfoldable pub checked_product : ℕ → ℕ → Outcome Revert ℕ
checked_product a b = if ltb (a * b) (2 ^ 256) then ok (a * b) else threw overflow

unfoldable pub require_answer_in_bounds : Oracle → ℕ → Outcome Revert (Unit {0})
require_answer_in_bounds c a =
    if ltb a c.min_answer || ltb c.max_answer a then threw (answer_out_of_bounds a) else ok tt

unfoldable pub require_small_change : Oracle → ℤ → ℕ → Outcome Revert (Unit {0})
unfolding checked_product
require_small_change c (negsuc n) a = ok tt
require_small_change c (pos p) a =
    if ltb 0 p
    then (do
      change ← checked_product (distance p a) 10000
      permitted ← checked_product p c.max_change_bps
      require (not (ltb permitted change)) (answer_change_too_large p a))
    else ok tt

-- The answer is positive and a value of 256 bits.
unfoldable pub set_answer : (Text → ℕ) → ℕ → Oracle → ℤ → Text → Outcome Revert Oracle
unfolding require_answer_in_bounds require_small_change
set_answer byte_length now c (negsuc n) source = threw invalid_answer
set_answer byte_length now c (pos a) source = do
  require (ltb 0 a) invalid_answer
  require (leb (byte_length source) 32) source_too_long
  require_answer_in_bounds c a
  require_small_change c c.answer a
  ok (record c { answer = pos a; source = source; updated_at = now })

unfoldable pub set_latest_answer : (Text → ℕ) → ℕ → Text → Oracle → ℤ → Text → Outcome Revert Oracle
unfolding set_answer text_eq
set_latest_answer byte_length now sender c a source = do
  require (text_eq sender c.owner) not_the_owner
  set_answer byte_length now c a source

-- What the script reads where the contract stands.
abbrev pub view_of : Oracle → OracleView
view_of c = record {
  has_code = true;
  owner = c.owner;
  decimals = 8;
  description = codes "VC / USD";
  version = 1;
  max_age = c.max_age;
  min_answer = c.min_answer;
  max_answer = c.max_answer;
  max_change_bps = c.max_change_bps;
  previous = c.answer;
}
