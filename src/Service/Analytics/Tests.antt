-- ===== src/Service/Analytics/Tests.antt =====
-- Statistics of two served requests, with whole numbers for floats: one unit for a wei.
use xfund_router.Common.{ℕ, ◌+◌, ◌-◌, ◌*◌, ◌/◌, ◌≡◌, refl, true, false, [], ◌∷◌, some, ◌==◌, arith}
use xfund_router.Common.Int.{pos, pos_part, to_int64}
use xfund_router.Models.{DataRequests, no_request}
use xfund_router.OooApi.Adhoc.Tests.{floats}
use xfund_router.Service.Analytics.Types.{Arithmetic, AnalyticsTask}
use xfund_router.Service.Analytics.Fee.{
  mean_cost, expected_cost, Searched, run_suggest_fee, run_suggest_fee-cases, cost_sum, raise_fee,
}
use xfund_router.Service.Analytics.Stats.{run_analytics}
use xfund_router.Service.Analytics.Stats.Extremes.{run_analytics-gas}

abbrev pub arithmetic : Arithmetic floats
arithmetic = record {
  of_int = pos_part;
  mul = λ x y. x * y;
  quo = λ x y. x / y;
  minus = λ x y. x - y;
  add53 = λ x y. x + y;
  mul53 = λ x y. x * y;
  cmp_equal = λ x y. x == y;
  float_uint64 = λ x. x;
  int_uint64 = pos_part;
  ceil = λ x. x;
  times = λ x y. x * y;
  over = λ x y. x / y;
  fee_step = 1;
}

abbrev served : ℕ → DataRequests
served gas = record no_request { fulfill_gas_used = gas; fulfill_gas_price = 30000000000000 }

abbrev pub task : AnalyticsTask floats
task = record {
  consumer = "";
  num_txs = pos 0;
  curr_xfund_price = 2;
  simulate = false;
  suggest_fee = true;
  gas_price = 0;
  xfund_fee = 0;
}

run_suggest_fee-cases_example :
    Searched arithmetic 5 2
      (expected_cost arithmetic (served 90000 ∷ served 70000 ∷ []))
      (run_suggest_fee arithmetic 5 (served 90000 ∷ served 70000 ∷ []) task)
run_suggest_fee-cases_example =
    run_suggest_fee-cases arithmetic 5 (served 90000 ∷ served 70000 ∷ []) task

suggested_test : run_suggest_fee arithmetic 5 (served 90000 ∷ served 70000 ∷ []) task ≡ some (2, 2)
unfolding run_suggest_fee mean_cost cost_sum raise_fee to_int64
suggested_test = refl

run_analytics-gas_example :
    let stats = (run_analytics arithmetic (served 90000 ∷ served 70000 ∷ []) task).gas_used in
    (stats.min ≡ 70000) × (stats.max ≡ 90000) × (stats.mean ≡ 80000)
run_analytics-gas_example =
    run_analytics-gas arithmetic task (served 90000) (served 70000 ∷ [])
      ((omega arith, omega arith), ((omega arith, omega arith), tt))
