-- ===== src/Service/Analytics/Reads.antt =====
-- go-ooo/service/analytics.go: the statistics leave the table as it is.
use xfund_router.Common.{ℕ, List, [], ◌∷◌, Result, ok, err, ◌≡◌, refl, ◌∙◌}
use xfund_router.Models.{DataRequests}
use xfund_router.Gorm.{Gorm, IsGorm}
use xfund_router.Database.Schemas.{request_schema}
use xfund_router.Database.Queries.{
  get_last_x_successful_requests, get_most_gas_used, get_least_gas_used,
}
use xfund_router.Utils.{Floats}
use xfund_router.Service.Analytics.{process_analytics_task, analyse}
use xfund_router.Service.Analytics.Types.{Arithmetic, AnalyticsTask}

module _ {f : Floats} (a : Arithmetic f) (g : Gorm DataRequests) (law : IsGorm request_schema g)
    (fuel : ℕ) (task : AnalyticsTask f) where
  analyse-rows :
      (jobs : Result (List DataRequests)) (t : g.Table)
      → g.rows (analyse a g fuel task jobs t).1 ≡ g.rows t
  unfolding get_most_gas_used get_least_gas_used
  analyse-rows (err m) t = refl
  analyse-rows (ok []) t = refl
  analyse-rows (ok (job ∷ jobs)) t = law.top_rows _ _ _ ∙ law.top_rows _ _ t

  pub process_analytics_task-rows :
      (t : g.Table) → g.rows (process_analytics_task a g fuel task t).1 ≡ g.rows t
  unfolding process_analytics_task get_last_x_successful_requests
  process_analytics_task-rows t = analyse-rows _ _ ∙ law.newest_rows _ _ t
