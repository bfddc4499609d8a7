-- ===== src/Service/Analytics/Stats.antt =====
-- go-ooo/service/analytics.go, runAnalytics: sums, extremes and means over the served requests.
pub mod Extremes
use xfund_router.Common.{ℕ, String, Bool, true, false, ◌||◌, List, [], ◌∷◌, if◌then◌else◌, length}
use xfund_router.Common.Int.{ℤ, pos, to_int64, is_zero, ltz, ◌+ℤ◌}
use xfund_router.Common.Words.{mul64}
use xfund_router.Models.{DataRequests}
use xfund_router.Utils.{Floats, ether}
use xfund_router.Service.Analytics.Types.{Arithmetic, AnalyticsTask, AnalyticsData}
use xfund_router.Service.Analytics.Fee.{big, cost_of}

abbrev pub gwei : ℕ
gwei = 1000000000

-- The least, the greatest and the sum; a least of 0 stands for none yet.
pub record IntTotals : Type 0 where
  pub min : ℤ
  pub max : ℤ
  pub sum : ℤ

abbrev pub no_totals : IntTotals
no_totals = record { min = pos 0; max = pos 0; sum = pos 0 }

unfoldable pub add_value : ℤ → IntTotals → IntTotals
add_value val t = record {
  min = if is_zero t.min || ltz val t.min then val else t.min;
  max = if ltz t.max val then val else t.max;
  sum = t.sum +ℤ val;
}

pub record FloatTotals (f : Floats) : Type 0 where
  pub min : f.B
  pub max : f.B
  pub sum : f.B

pub record Totals (f : Floats) : Type 0 where
  pub gas : IntTotals
  pub gas_price : IntTotals
  pub cost : FloatTotals f
  pub total_fees : f.B

module _ {f : Floats} (a : Arithmetic f) where
  -- The gas price of a request, or the one that is simulated, in `int64`.
  abbrev pub gas_price_val : AnalyticsTask f → DataRequests → ℤ
  gas_price_val task r =
      if task.simulate then to_int64 (mul64 task.gas_price gwei) else to_int64 r.fulfill_gas_price

  abbrev pub add_cost : f.B → FloatTotals f → FloatTotals f
  add_cost cost t = record {
    min = if a.cmp_equal t.min (big a 0) || f.cmp_less cost t.min then cost else t.min;
    max = if f.cmp_less t.max cost then cost else t.max;
    sum = a.add53 t.sum cost;
  }

  abbrev req_fee : AnalyticsTask f → DataRequests → f.B
  req_fee task r =
      if task.simulate
      then a.mul53 (f.new_float task.xfund_fee) (big a gwei)
      else a.of_int (pos r.fee)

  -- One round of the loop.
  unfoldable pub add_row : AnalyticsTask f → DataRequests → Totals f → Totals f
  unfolding add_value
  add_row task r t = record {
    gas = add_value (to_int64 r.fulfill_gas_used) t.gas;
    gas_price = add_value (gas_price_val task r) t.gas_price;
    cost = add_cost (cost_of a (to_int64 r.fulfill_gas_used) (gas_price_val task r)) t.cost;
    total_fees = a.add53 t.total_fees (req_fee task r);
  }

  unfoldable pub add_rows : AnalyticsTask f → List DataRequests → Totals f → Totals f
  add_rows task [] t = t
  add_rows task (r ∷ rows) t = add_rows task rows (add_row task r t)

  abbrev pub none_yet : Totals f
  none_yet = record {
    gas = no_totals;
    gas_price = no_totals;
    cost = record { min = big a 0; max = big a 0; sum = big a 0 };
    total_fees = big a 0;
  }

  -- An integer in gwei, cut to a `uint64`.
  abbrev in_gwei : f.B → ℕ
  in_gwei x = a.float_uint64 (a.quo x (big a gwei))

  abbrev in_eth : f.B → f.F
  in_eth x = f.float64 (a.quo x (big a ether))

  abbrev statistics : AnalyticsTask f → ℕ → Totals f → AnalyticsData f
  statistics task num_rows t =
      let rows : f.B = a.of_int (pos num_rows) in
      let total_fees_xfund = f.float64 (a.quo t.total_fees (big a gwei)) in
      let total_fees_eth =
        a.mul (f.new_float total_fees_xfund) (f.new_float task.curr_xfund_price) in
      let total_cost_eth = a.quo t.cost.sum (big a ether) in
      record {
        gas_used = record {
          min = a.int_uint64 t.gas.min;
          max = a.int_uint64 t.gas.max;
          mean = a.float_uint64 (a.quo (a.of_int t.gas.sum) rows);
        };
        gas_price = record {
          min = in_gwei (a.of_int t.gas_price.min);
          max = in_gwei (a.of_int t.gas_price.max);
          mean = in_gwei (a.quo (a.of_int t.gas_price.sum) rows);
        };
        eth_costs = record {
          min = in_eth t.cost.min;
          max = in_eth t.cost.max;
          mean = in_eth (a.quo t.cost.sum rows);
        };
        current_xfund_price_eth = task.curr_xfund_price;
        total_fees_earned_xfund = total_fees_xfund;
        total_fees_earned_eth = f.float64 total_fees_eth;
        total_costs_eth = f.float64 total_cost_eth;
        profit_loss_eth = f.float64 (a.minus total_fees_eth total_cost_eth);
        most_gas_used_consumer = "";
        least_gas_used_consumer = "";
        number_analysed = num_rows;
        suggested_fee = f.of_nat 0;
      }

  unfoldable pub run_analytics : List DataRequests → AnalyticsTask f → AnalyticsData f
  run_analytics rows task = statistics task (length rows) (add_rows task rows none_yet)
