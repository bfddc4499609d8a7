-- ===== src/Service/Analytics/Types.antt =====
-- go-ooo/types/types.go: the tasks and answers of the statistics; and `math/big` on floats.
use xfund_router.Common.{ℕ, String, Bool}
use xfund_router.Common.Int.{ℤ, pos}
use xfund_router.Utils.{Floats}

-- More of `math/big` and `math`: `new(Float).SetInt`, `Mul`, `Quo` and `Sub` into a new float, `Add`
-- and `Mul` into `NewFloat(0)`, whose results have 53 bits; `Cmp` equal; `Uint64` of a float and of
-- an integer; `math.Ceil`, products and quotients of `float64`, and the constant 0.00001.
pub record Arithmetic (f : Floats) : Type 0 where
  pub of_int : ℤ → f.B
  pub mul : f.B → f.B → f.B
  pub quo : f.B → f.B → f.B
  pub minus : f.B → f.B → f.B
  pub add53 : f.B → f.B → f.B
  pub mul53 : f.B → f.B → f.B
  pub cmp_equal : f.B → f.B → Bool
  pub float_uint64 : f.B → ℕ
  pub int_uint64 : ℤ → ℕ
  pub ceil : f.F → f.F
  pub times : f.F → f.F → f.F
  pub over : f.F → f.F → f.F
  pub fee_step : f.F

-- With the fields of `SimulationParams`.
pub record AnalyticsTask (f : Floats) : Type 0 where
  pub consumer : String
  pub num_txs : ℤ
  pub curr_xfund_price : f.F
  pub simulate : Bool
  pub suggest_fee : Bool
  pub gas_price : ℕ
  pub xfund_fee : f.F

pub record IntStats : Type 0 where
  pub max : ℕ
  pub min : ℕ
  pub mean : ℕ

pub record FloatStats (f : Floats) : Type 0 where
  pub max : f.F
  pub min : f.F
  pub mean : f.F

-- With the fields of `Earnings`.
pub record AnalyticsData (f : Floats) : Type 0 where
  pub gas_used : IntStats
  pub gas_price : IntStats
  pub eth_costs : FloatStats f
  pub current_xfund_price_eth : f.F
  pub total_fees_earned_xfund : f.F
  pub total_fees_earned_eth : f.F
  pub total_costs_eth : f.F
  pub profit_loss_eth : f.F
  pub most_gas_used_consumer : String
  pub least_gas_used_consumer : String
  pub number_analysed : ℕ
  pub suggested_fee : f.F

-- With the fields of `SimValues` and `Filters`.
pub record AnalyticsResult (f : Floats) : Type 0 where
  pub analytics_data : AnalyticsData f
  pub if_gas : ℕ
  pub if_fees : f.F
  pub consumer_contract : String
  pub limit : ℤ

pub record AnalyticsTaskResponse (f : Floats) : Type 0 where
  pub task : AnalyticsTask f
  pub success : Bool
  pub error : String
  pub result : AnalyticsResult f

abbrev no_stats : IntStats
no_stats = record { max = 0; min = 0; mean = 0 }

-- The zero values.
abbrev pub no_data : (f : Floats) → AnalyticsData f
no_data f = record {
  gas_used = no_stats;
  gas_price = no_stats;
  eth_costs = record { max = f.of_nat 0; min = f.of_nat 0; mean = f.of_nat 0 };
  current_xfund_price_eth = f.of_nat 0;
  total_fees_earned_xfund = f.of_nat 0;
  total_fees_earned_eth = f.of_nat 0;
  total_costs_eth = f.of_nat 0;
  profit_loss_eth = f.of_nat 0;
  most_gas_used_consumer = "";
  least_gas_used_consumer = "";
  number_analysed = 0;
  suggested_fee = f.of_nat 0;
}

abbrev pub no_result : (f : Floats) → AnalyticsResult f
no_result f = record {
  analytics_data = no_data f;
  if_gas = 0;
  if_fees = f.of_nat 0;
  consumer_contract = "";
  limit = pos 0;
}
