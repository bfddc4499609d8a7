-- ===== src/Chain/Schedule/Safety.antt =====
-- The rows of go-ooo/chain in every node that the handlers lead to.
use xfund_router.Common.{String, List, ◌++◌, All}
use xfund_router.Models.{DataRequests}
use xfund_router.Gorm.{IsGorm}
use xfund_router.Database.Schemas.{request_schema}
use xfund_router.Chain.Env.{Env, Node}
use xfund_router.Chain.Jobs.{run_task}
use xfund_router.Chain.Admin.{Display}
use xfund_router.Chain.Closed.{IsClosed}
use xfund_router.Chain.Closed.Handlers.{
  process_incoming_requests-Keeps, process_incoming_fulfilments-Keeps, get_historical_events-Keeps,
  process_pending_job_queue-Keeps, process_fulfillment_fetch_data-Keeps, shutdown-Keeps,
}
use xfund_router.Chain.Closed.AdminTasks.{process_admin_task-Keeps}
use xfund_router.Chain.Invariant.{IsRowInvariant, OnRows-IsClosed}
use xfund_router.Chain.Invariant.Statuses.{IsConsistent, Statuses-IsRowInvariant}
use xfund_router.Chain.Invariant.Keys.{HasKeys, Keys-IsRowInvariant}
use xfund_router.Chain.Invariant.Settled.{IsSettled, Settled-IsRowInvariant}
use xfund_router.Chain.Schedule.{Step, Reach, here, next}

module _ {e : Env} (I : Node e → Type 0) (closed : IsClosed e I) (d : Display) where
  Step-keeps : {n m : Node e} → Step d n m → I n → I m
  unfolding run_task
  Step-keeps (Step.request n ev) i = (process_incoming_requests-Keeps I closed ev).run n i
  Step-keeps (Step.fulfilled n ev) i = (process_incoming_fulfilments-Keeps I closed ev).run n i
  Step-keeps (Step.history n) i = (get_historical_events-Keeps I closed).run n i
  Step-keeps (Step.tick n) i = (process_pending_job_queue-Keeps I closed).run n i
  Step-keeps (Step.goroutine n before after t h) i =
      (process_fulfillment_fetch_data-Keeps I closed t.job t.block_num).run _
        (closed.spawned (before ++ after) n i)
  Step-keeps (Step.admin n task) i = (process_admin_task-Keeps I closed d task).run n i
  Step-keeps (Step.analytics n t same) i = closed.same_rows t n same i
  Step-keeps (Step.update_pairs n p) i = closed.api p n i
  Step-keeps (Step.stop n b) i = (shutdown-Keeps I closed b).run n i

  pub Reach-keeps : {n m : Node e} → Reach d n m → I n → I m
  Reach-keeps here i = i
  Reach-keeps (next r s) i = Step-keeps s (Reach-keeps r i)

module _ {e : Env} (law : IsGorm request_schema e.requests) (d : Display) where
  Reach-rows :
      (J : List DataRequests → Type 0)
      → IsRowInvariant J
      → {n m : Node e} → Reach d n m
      → J (e.requests.rows n.requests)
      → J (e.requests.rows m.requests)
  Reach-rows J inv r v = Reach-keeps _ (OnRows-IsClosed e law J inv) d r v

  -- With a database that keeps its promises, if every row is consistent at the start, every row is
  -- consistent in every node that is reached: neither of its statuses is UNKNOWN, and a job whose
  -- request status is SUCCESS or FULFILMENT FAILED is not pending, so a pending job always has a
  -- status for which the queue has a step.
  pub Reach-IsConsistent :
      {n m : Node e}
      → Reach d n m
      → All IsConsistent (e.requests.rows n.requests)
      → All IsConsistent (e.requests.rows m.requests)
  Reach-IsConsistent r = Reach-rows (All IsConsistent) Statuses-IsRowInvariant r

  -- With a database that keeps its promises, no primary key and no request id occurs twice in any
  -- node that is reached, if none did at the start: an event that is delivered again, live or in
  -- the historical pass, adds no second job.
  pub Reach-HasKeys :
      {n m : Node e}
      → Reach d n m
      → HasKeys (e.requests.rows n.requests)
      → HasKeys (e.requests.rows m.requests)
  Reach-HasKeys r = Reach-rows HasKeys Keys-IsRowInvariant r

  -- With a database that keeps its promises, a job that is in a table with no primary key twice,
  -- with a job status other than PENDING, is so in every node that the handlers reach: no later
  -- pass of the queue reads a finished or failed job as pending.
  pub Reach-IsSettled :
      {n m : Node e} (k : String)
      → Reach d n m
      → IsSettled k (e.requests.rows n.requests)
      → IsSettled k (e.requests.rows m.requests)
  Reach-IsSettled k r = Reach-rows (IsSettled k) (Settled-IsRowInvariant k) r
