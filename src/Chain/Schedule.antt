-- ===== src/Chain/Schedule.antt =====
-- The node as it runs, go-ooo/service/service.go and go-ooo/chain: its handlers in any order, as
-- the timer, the operator, the subscriptions and the scheduler call them. A handler, and each
-- goroutine of the job queue, runs to its end before the next one.
pub mod Safety
pub mod Counters
use xfund_router.Common.{ℕ, Bool, List, ◌∷◌, ◌++◌, ◌≡◌}
use xfund_router.Chain.Env.{Env, Node, DataRequested, RequestFulfilled, FetchTask}
use xfund_router.Chain.Events.{
  process_incoming_requests, process_incoming_fulfilments, get_historical_events, shutdown,
}
use xfund_router.Chain.Jobs.{process_pending_job_queue, run_task}
use xfund_router.Chain.Admin.{Display, AdminTask, process_admin_task}

pub data Step {e : Env} (d : Display) : Node e → Node e → Type 0 where
  request : (n : Node e) (ev : DataRequested) → Step d n (process_incoming_requests ev n).1
  fulfilled : (n : Node e) (ev : RequestFulfilled) → Step d n (process_incoming_fulfilments ev n).1
  history : (n : Node e) → Step d n (get_historical_events n).1
  tick : (n : Node e) → Step d n (process_pending_job_queue n).1
  -- the goroutine `t` leaves the others that wait
  goroutine :
      (n : Node e) (before after : List FetchTask) (t : FetchTask)
      → n.spawned ≡ before ++ t ∷ after
      → Step d n (run_task t (record n { spawned = before ++ after })).1
  admin : (n : Node e) (task : AdminTask) → Step d n (process_admin_task d task n).1
  -- the statistics only read the requests
  analytics :
      (n : Node e) (t : e.requests.Table)
      → e.requests.rows t ≡ e.requests.rows n.requests
      → Step d n (record n { requests = t })
  -- the goroutine that updates the pairs changes the state of the API alone
  update_pairs : (n : Node e) (p : e.api.Api) → Step d n (record n { api = p })
  stop : (n : Node e) (subscribed : Bool) → Step d n (shutdown subscribed n).1

pub data Reach {e : Env} (d : Display) (n : Node e) : Node e → Type 0 where
  here : Reach d n n
  next : {m k : Node e} → Reach d n m → Step d m k → Reach d n k
