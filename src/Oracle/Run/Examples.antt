-- ===== src/Oracle/Run/Examples.antt =====
-- The theorems at a run that sends, with whole numbers in the place of JavaScript's.
use vinuchain_lists.Prelude.{
  ℕ, suc, ◌+◌, ◌-◌, ◌*◌, ◌/◌, ◌≤◌, ◌≡◌, refl, ◌⊎◌, Bool, true, false, not, Option, none, some, List,
  [], ◌∷◌, Text, codes, length, ltb, ◌==◌, text_eq, if◌then◌else◌, Outcome, ok, threw,
}
use vinuchain_lists.Numbers.{int}
use vinuchain_lists.Onchain.Rpc.{Request, chain_id, Response, replied, payload, str}
use vinuchain_lists.Oracle.Update.{ℤ, pos, OracleView}
use vinuchain_lists.Oracle.Price.{Floats, Pool, PoolAnswers, Price}
use vinuchain_lists.Oracle.Broadcast.{Node, Transaction, legacy_fee}
use vinuchain_lists.Oracle.Run.{Script, answered, resolve_vns_oracle_price, run}
use vinuchain_lists.Oracle.Run.Laws.{Justified, run-sends}
use vinuchain_lists.Oracle.Run.Tags.{HasTag, resolve_vns_oracle_price-HasTag}

abbrev whole : Floats ℕ
whole = record {
  number = λ n. n;
  plus = λ a b. a + b;
  minus = λ a b. (a - b) + (b - a);
  times = λ a b. a * b;
  over = λ a b. a / b;
  absolute = λ a. a;
  tick_power = λ t. 2;
  ten_power = λ a b. 1;
  is_less = ltb;
  is_finite = λ a. true;
  is_truthy = λ a. not (a == 0);
  rounded = λ a. int false a;
}

abbrev pool_of : Text → Text → Pool
pool_of a b = record {
  token0 = a;
  token1 = b;
  token0_address = a;
  token1_address = b;
  token0_decimals = 18;
  token1_decimals = 18;
}

abbrev node : Node ℕ
node = record {
  pending_count = λ n. (ok 4, n);
  latest_count = λ n. (ok 4, n);
  fee_data = λ n. (
    ok (record { max_fee_per_gas = none; max_priority_fee_per_gas = none; gas_price = some 100 }),
    n,
  );
  send = λ tx n. (ok (codes "0xhash"), suc n);
  wait = λ hash n. (ok (some 77), n);
  sleep = λ ms n. n;
}

abbrev oracle : OracleView
oracle = record {
  has_code = true;
  owner = codes "0xAb";
  decimals = 8;
  description = codes "VC / USD";
  version = 1;
  max_age = 43200;
  min_answer = 100;
  max_answer = 900000000;
  max_change_bps = 2000;
  previous = pos 200000000;
}

-- Each endpoint answers 0xce, 206, and each pool the two tokens of its description.
abbrev script : Script ℕ ℕ
script = record {
  floats = whole;
  fetch = λ url request. replied true (payload false (str (codes "0xce")));
  byte_length = length;
  target_rpc_urls = codes "a" ∷ [];
  expected_target_chain_id = 206;
  price_rpc_urls = codes "b" ∷ [];
  expected_price_chain_id = 206;
  disable_coingecko = false;
  coingecko = answered (some 2) (some 90);
  now = 100;
  coingecko_max_age_seconds = 900;
  pool_answers = λ url pool. ok (record {
    token0 = pool.token0_address;
    token1 = pool.token1_address;
    liquidity = 1000;
    observation_cardinality = 1;
    observe = λ seconds. ok (pos 6000);
  });
  min_pool_liquidity = 10;
  twap_windows_seconds = 600 ∷ [];
  vc_usdt = pool_of (codes "WVC") (codes "USDT");
  vinu_vc = pool_of (codes "VINU") (codes "WVC");
  vinu_usdt = pool_of (codes "VINU") (codes "USDT");
  max_deviation_bps = 10000;
  require_pool_guard = true;
  allow_single_source = false;
  should_send = true;
  oracle_address = codes "0x1";
  private_key = codes "0x2";
  expected = record { signer = codes "0xab"; max_age = 43200; max_update_bps = 2000 };
  read_oracle = λ n. ok oracle;
  node = node;
  retries = record { max_attempts = 3; bump = λ k. 1000; delay = λ k. 30000 };
}

abbrev price : Price ℕ
price = record { usd = 2; source = codes "coingecko+v3-spot" }

resolves : resolve_vns_oracle_price script ≡ ok price
unfolding vinuchain_lists.Oracle.Rpc.safe_quantity vinuchain_lists.Oracle.Rpc.after_0x
    vinuchain_lists.Oracle.Rpc.parse_quantity vinuchain_lists.Oracle.Rpc.or_request_failed
    vinuchain_lists.Oracle.Rpc.raw_json_rpc vinuchain_lists.Oracle.Rpc.probe_rpc_endpoint
    vinuchain_lists.Oracle.Rpc.provider_from vinuchain_lists.Oracle.Rpc.resolve_checked_provider
    vinuchain_lists.Oracle.Price.cut_quotient vinuchain_lists.Oracle.Price.minus_one
    vinuchain_lists.Oracle.Price.div_floor vinuchain_lists.Oracle.Price.token_meta
    vinuchain_lists.Oracle.Price.first_window vinuchain_lists.Oracle.Price.read_pool_twap
    vinuchain_lists.Oracle.Price.quote vinuchain_lists.Oracle.Price.deviation_bps
    vinuchain_lists.Oracle.Price.truthy vinuchain_lists.Oracle.Price.ratio
    vinuchain_lists.Oracle.Price.composed vinuchain_lists.Oracle.Price.pool_price
    vinuchain_lists.Oracle.Price.agreed vinuchain_lists.Oracle.Price.compared
    vinuchain_lists.Oracle.Price.reconcile_vns_price vinuchain_lists.Oracle.Price.answer_of
    vinuchain_lists.Oracle.Price.to_oracle_answer vinuchain_lists.Oracle.Update.short_tag
    vinuchain_lists.Oracle.Update.to_oracle_source_tag
    vinuchain_lists.Oracle.Update.deviation_bps_big vinuchain_lists.Oracle.Update.check_deviation
    vinuchain_lists.Oracle.Update.verify_oracle_for_update vinuchain_lists.Oracle.Broadcast.present
    vinuchain_lists.Oracle.Broadcast.legacy_or_none vinuchain_lists.Oracle.Broadcast.fees_from
    vinuchain_lists.Oracle.Broadcast.fee_overrides vinuchain_lists.Oracle.Broadcast.nonce_of
    vinuchain_lists.Oracle.Broadcast.after_latest vinuchain_lists.Oracle.Broadcast.after_pending
    vinuchain_lists.Oracle.Broadcast.assert_no_stuck_pending_tx
    vinuchain_lists.Oracle.Broadcast.after_wait vinuchain_lists.Oracle.Broadcast.after_send
    vinuchain_lists.Oracle.Broadcast.after_fees vinuchain_lists.Oracle.Broadcast.try_attempt
    vinuchain_lists.Oracle.Broadcast.retry_from vinuchain_lists.Oracle.Broadcast.attempts
    vinuchain_lists.Oracle.Broadcast.after_nonce
    vinuchain_lists.Oracle.Broadcast.broadcast_with_retries vinuchain_lists.Oracle.Run.or_null
    vinuchain_lists.Oracle.Run.wrap vinuchain_lists.Oracle.Run.coingecko_price
    vinuchain_lists.Oracle.Run.fetch_coingecko_price vinuchain_lists.Oracle.Run.twap_at
    vinuchain_lists.Oracle.Run.fetch_pool_price vinuchain_lists.Oracle.Run.resolve_vns_oracle_price
    vinuchain_lists.Oracle.Run.prepare vinuchain_lists.Oracle.Run.check_send
    vinuchain_lists.Oracle.Run.after_broadcast vinuchain_lists.Oracle.Run.after_check
    vinuchain_lists.Oracle.Run.after_prepare vinuchain_lists.Oracle.Run.run
    vinuchain_lists.Numbers.hex_from vinuchain_lists.Numbers.hex_digit
    vinuchain_lists.Onchain.Rpc.result_of vinuchain_lists.Prelude.text_eq
    vinuchain_lists.Prelude.to_lower vinuchain_lists.Prelude.contains
    vinuchain_lists.Prelude.starts_with vinuchain_lists.Regex.regexes
resolves = refl

abbrev handed : List Transaction
handed =
    record {
      answer = 200000000;
      source_tag = codes "coingecko+v3-spot";
      fees = legacy_fee 100;
      nonce = 4;
    }
    ∷ []

hands_over : (run script 0).2 ≡ handed
unfolding vinuchain_lists.Oracle.Rpc.safe_quantity vinuchain_lists.Oracle.Rpc.after_0x
    vinuchain_lists.Oracle.Rpc.parse_quantity vinuchain_lists.Oracle.Rpc.or_request_failed
    vinuchain_lists.Oracle.Rpc.raw_json_rpc vinuchain_lists.Oracle.Rpc.probe_rpc_endpoint
    vinuchain_lists.Oracle.Rpc.provider_from vinuchain_lists.Oracle.Rpc.resolve_checked_provider
    vinuchain_lists.Oracle.Price.cut_quotient vinuchain_lists.Oracle.Price.minus_one
    vinuchain_lists.Oracle.Price.div_floor vinuchain_lists.Oracle.Price.token_meta
    vinuchain_lists.Oracle.Price.first_window vinuchain_lists.Oracle.Price.read_pool_twap
    vinuchain_lists.Oracle.Price.quote vinuchain_lists.Oracle.Price.deviation_bps
    vinuchain_lists.Oracle.Price.truthy vinuchain_lists.Oracle.Price.ratio
    vinuchain_lists.Oracle.Price.composed vinuchain_lists.Oracle.Price.pool_price
    vinuchain_lists.Oracle.Price.agreed vinuchain_lists.Oracle.Price.compared
    vinuchain_lists.Oracle.Price.reconcile_vns_price vinuchain_lists.Oracle.Price.answer_of
    vinuchain_lists.Oracle.Price.to_oracle_answer vinuchain_lists.Oracle.Update.short_tag
    vinuchain_lists.Oracle.Update.to_oracle_source_tag
    vinuchain_lists.Oracle.Update.deviation_bps_big vinuchain_lists.Oracle.Update.check_deviation
    vinuchain_lists.Oracle.Update.verify_oracle_for_update vinuchain_lists.Oracle.Broadcast.present
    vinuchain_lists.Oracle.Broadcast.legacy_or_none vinuchain_lists.Oracle.Broadcast.fees_from
    vinuchain_lists.Oracle.Broadcast.fee_overrides vinuchain_lists.Oracle.Broadcast.nonce_of
    vinuchain_lists.Oracle.Broadcast.after_latest vinuchain_lists.Oracle.Broadcast.after_pending
    vinuchain_lists.Oracle.Broadcast.assert_no_stuck_pending_tx
    vinuchain_lists.Oracle.Broadcast.after_wait vinuchain_lists.Oracle.Broadcast.after_send
    vinuchain_lists.Oracle.Broadcast.after_fees vinuchain_lists.Oracle.Broadcast.try_attempt
    vinuchain_lists.Oracle.Broadcast.retry_from vinuchain_lists.Oracle.Broadcast.attempts
    vinuchain_lists.Oracle.Broadcast.after_nonce
    vinuchain_lists.Oracle.Broadcast.broadcast_with_retries vinuchain_lists.Oracle.Run.or_null
    vinuchain_lists.Oracle.Run.wrap vinuchain_lists.Oracle.Run.coingecko_price
    vinuchain_lists.Oracle.Run.fetch_coingecko_price vinuchain_lists.Oracle.Run.twap_at
    vinuchain_lists.Oracle.Run.fetch_pool_price vinuchain_lists.Oracle.Run.resolve_vns_oracle_price
    vinuchain_lists.Oracle.Run.prepare vinuchain_lists.Oracle.Run.check_send
    vinuchain_lists.Oracle.Run.after_broadcast vinuchain_lists.Oracle.Run.after_check
    vinuchain_lists.Oracle.Run.after_prepare vinuchain_lists.Oracle.Run.run
    vinuchain_lists.Numbers.hex_from vinuchain_lists.Numbers.hex_digit
    vinuchain_lists.Onchain.Rpc.result_of vinuchain_lists.Prelude.text_eq
    vinuchain_lists.Prelude.to_lower vinuchain_lists.Prelude.contains
    vinuchain_lists.Prelude.starts_with vinuchain_lists.Regex.regexes
hands_over = refl

run-sends_example : ((run script 0).2 ≡ []) ⊎ Justified script 0 ((run script 0).2)
run-sends_example = run-sends script 0

resolve_vns_oracle_price-HasTag_example : HasTag length (codes "coingecko+v3-spot")
resolve_vns_oracle_price-HasTag_example =
    resolve_vns_oracle_price-HasTag script price (λ t h. refl) resolves
