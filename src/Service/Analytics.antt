-- ===== src/Service/Analytics.antt =====
-- go-ooo/service/analytics.go: ProcessAnalyticsTask over the table of requests.
pub mod Types
pub mod Stats
pub mod Fee
pub mod Reads
pub mod Tests
use xfund_router.Common.{
  ℕ, String, Bool, true, false, List, [], ◌∷◌, Option, none, some, Result, ok, err, if◌then◌else◌,
  str_eq,
}
use xfund_router.Models.{DataRequests}
use xfund_router.Gorm.{Gorm}
use xfund_router.Database.Queries.{
  get_last_x_successful_requests, get_most_gas_used, get_least_gas_used,
}
use xfund_router.Utils.{Floats}
use xfund_router.Service.Analytics.Types.{
  Arithmetic, AnalyticsTask, AnalyticsData, AnalyticsResult, AnalyticsTaskResponse, no_data,
  no_result,
}
use xfund_router.Service.Analytics.Stats.{run_analytics}
use xfund_router.Service.Analytics.Fee.{run_suggest_fee}

module _ {f : Floats} (a : Arithmetic f) (g : Gorm DataRequests) where
  abbrev consumer_of : Result DataRequests → String
  consumer_of (ok r) = r.consumer
  consumer_of (err m) = ""

  abbrev failed : AnalyticsTask f → String → AnalyticsTaskResponse f
  failed task m = record { task = task; success = false; error = m; result = no_result f }

  abbrev succeeded : AnalyticsTask f → AnalyticsData f → AnalyticsTaskResponse f
  succeeded task analytics_data = record {
    task = task;
    success = true;
    error = "";
    result = record {
      analytics_data = analytics_data;
      if_gas = task.gas_price;
      if_fees = task.xfund_fee;
      consumer_contract = task.consumer;
      limit = task.num_txs;
    };
  }

  abbrev with_fee : AnalyticsTask f → Option (f.F × f.F) → Option (AnalyticsTaskResponse f)
  with_fee task none = none
  with_fee task (some (suggested_fee, profit)) = some (
      succeeded task
        (record (no_data f) { suggested_fee = suggested_fee; profit_loss_eth = profit }))

  abbrev with_stats :
      AnalyticsTask f → List DataRequests → String → String → AnalyticsTaskResponse f
  with_stats task jobs most least =
      let analytics_data = run_analytics a jobs task in
      succeeded task (
        if str_eq task.consumer ""
        then record analytics_data {
          most_gas_used_consumer = most;
          least_gas_used_consumer = least;
        }
        else analytics_data)

  abbrev analyse :
      (fuel : ℕ)
      → AnalyticsTask f
      → Result (List DataRequests)
      → g.Table
      → Option (AnalyticsTaskResponse f) × g.Table
  analyse fuel task (err m) t = (some (failed task m), t)
  analyse fuel task (ok []) t = (some (failed task "No jobs in DB to analyse"), t)
  analyse fuel task (ok (job ∷ jobs)) t =
      let (mgu, t1) = get_most_gas_used g t in
      let (lgu, t2) = get_least_gas_used g t1 in
      (
        (if task.suggest_fee
            then with_fee task (run_suggest_fee a fuel (job ∷ jobs) task)
            else some (with_stats task (job ∷ jobs) (consumer_of mgu) (consumer_of lgu))),
        t2,
      )

  -- The fuel is for the loop over the fees; `none` is out of fuel.
  unfoldable pub process_analytics_task :
      (fuel : ℕ) → AnalyticsTask f → g.Table → Option (AnalyticsTaskResponse f) × g.Table
  process_analytics_task fuel task t =
      let (jobs, t1) = get_last_x_successful_requests g task.num_txs task.consumer t in
      analyse fuel task jobs t1
