-- ===== src/Service/Loop.antt =====
-- go-ooo/service/service.go: `Run`, with the HTTP handlers and the other goroutines beside it. The
-- channels have no buffer: a send and its receive are one step. What a goroutine does with the
-- node in one go is one step.
pub mod Handlers
pub mod Refinement
pub mod Safety
pub mod Replies
pub mod Tests
use xfund_router.Common.{ℕ, String, Bool, true, false, none, some, List, [], ◌∷◌, ◌++◌, ◌≡◌, str_eq}
use xfund_router.Utils.{Floats}
use xfund_router.Chain.Env.{Env, Node, DataRequested, RequestFulfilled, FetchTask}
use xfund_router.Chain.Events.{
  process_incoming_requests, process_incoming_fulfilments, get_historical_events, shutdown,
}
use xfund_router.Chain.Jobs.{process_pending_job_queue, run_task}
use xfund_router.Chain.Admin.{Display, AdminTask, AdminTaskResponse, process_admin_task}
use xfund_router.Service.Analytics.{process_analytics_task}
use xfund_router.Service.Analytics.Types.{Arithmetic, AnalyticsTask, AnalyticsTaskResponse}
use xfund_router.Service.Server.{HttpRequest, Web, key_auth}

-- An HTTP handler: it sends its task, then waits for a response, then has answered.
pub data Handler (T R : Type 0) : Type 0 where
  sending : T → Handler T R
  waiting : T → Handler T R
  answered : T → R → Handler T R

-- Where `Run` stands: before its loop, at the `select`, or sending a response.
pub data Phase (f : Floats) : Type 0 where
  starting : Phase f
  selecting : Phase f
  replying_admin : AdminTaskResponse → Phase f
  replying_analytics : AnalyticsTaskResponse f → Phase f

abbrev pub is_started : {f : Floats} → Phase f → Bool
is_started Phase.starting = false
is_started _ = true

pub record Service (e : Env) (f : Floats) : Type 0 where
  pub node : Node e
  pub phase : Phase f
  pub admin : List (Handler AdminTask AdminTaskResponse)
  pub analytics : List (Handler (AnalyticsTask f) (AnalyticsTaskResponse f))

-- `NewService` around a node.
abbrev pub new_service : {e : Env} (f : Floats) → Node e → Service e f
new_service f n = record { node = n; phase = Phase.starting; admin = []; analytics = [] }

-- `RunEventWatchers`: an event from one of the two subscriptions.
pub data Watches {e : Env} : Node e → Node e → Type 0 where
  request : (n : Node e) (ev : DataRequested) → Watches n (process_incoming_requests ev n).1
  fulfilled : (n : Node e) (ev : RequestFulfilled) → Watches n (process_incoming_fulfilments ev n).1

-- The goroutines that fetch data, that update the pairs, and that waits for a signal.
pub data Works {e : Env} : Node e → Node e → Type 0 where
  fetch :
      (n : Node e) (before after : List FetchTask) (t : FetchTask)
      → n.spawned ≡ before ++ t ∷ after
      → Works n (run_task t (record n { spawned = before ++ after })).1
  update_pairs : (n : Node e) (p : e.api.Api) → Works n (record n { api = p })
  stop : (n : Node e) (subscribed : Bool) → Works n (shutdown subscribed n).1

-- The fuel is for the search for a fee; a search that does not end leaves `Run` where it is.
pub data Turn {e : Env} {f : Floats} (w : Web f) (a : Arithmetic f) (fuel : ℕ) (d : Display)
    (auth_token : String) : Service e f → Service e f → Type 0 where
  history :
      (s : Service e f)
      → s.phase ≡ Phase.starting
      → Turn w a fuel d auth_token s
          (record s { node = (get_historical_events s.node).1; phase = Phase.selecting })
  post_admin :
      (s : Service e f) (r : HttpRequest)
      → key_auth w auth_token r ≡ none
      → str_eq r.path "/admin" ≡ true
      → Turn w a fuel d auth_token s
          (record s { admin = s.admin ++ Handler.sending (w.admin_task_in r.body) ∷ [] })
  post_analytics :
      (s : Service e f) (r : HttpRequest)
      → key_auth w auth_token r ≡ none
      → str_eq r.path "/analytics" ≡ true
      → Turn w a fuel d auth_token s (record s {
        analytics = s.analytics ++ Handler.sending (w.analytics_task_in r.body) ∷ [];
      })
  tick :
      (s : Service e f)
      → s.phase ≡ Phase.selecting
      → Turn w a fuel d auth_token s (record s { node = (process_pending_job_queue s.node).1 })
  take_admin :
      (s : Service e f) (before after : List (Handler AdminTask AdminTaskResponse)) (t : AdminTask)
      (r : AdminTaskResponse)
      → s.phase ≡ Phase.selecting
      → s.admin ≡ before ++ Handler.sending t ∷ after
      → (process_admin_task d t s.node).0 ≡ some r
      → Turn w a fuel d auth_token s (record s {
        node = (process_admin_task d t s.node).1;
        phase = Phase.replying_admin r;
        admin = before ++ Handler.waiting t ∷ after;
      })
  reply_admin :
      (s : Service e f) (before after : List (Handler AdminTask AdminTaskResponse)) (t : AdminTask)
      (r : AdminTaskResponse)
      → s.phase ≡ Phase.replying_admin r
      → s.admin ≡ before ++ Handler.waiting t ∷ after
      → Turn w a fuel d auth_token s
          (record s { phase = Phase.selecting; admin = before ++ Handler.answered t r ∷ after })
  take_analytics :
      (s : Service e f) (before after : List (Handler (AnalyticsTask f) (AnalyticsTaskResponse f)))
      (t : AnalyticsTask f) (r : AnalyticsTaskResponse f)
      → s.phase ≡ Phase.selecting
      → s.analytics ≡ before ++ Handler.sending t ∷ after
      → (process_analytics_task a e.requests fuel t s.node.requests).0 ≡ some r
      → Turn w a fuel d auth_token s (record s {
        node = record s.node {
          requests = (process_analytics_task a e.requests fuel t s.node.requests).1;
        };
        phase = Phase.replying_analytics r;
        analytics = before ++ Handler.waiting t ∷ after;
      })
  reply_analytics :
      (s : Service e f) (before after : List (Handler (AnalyticsTask f) (AnalyticsTaskResponse f)))
      (t : AnalyticsTask f) (r : AnalyticsTaskResponse f)
      → s.phase ≡ Phase.replying_analytics r
      → s.analytics ≡ before ++ Handler.waiting t ∷ after
      → Turn w a fuel d auth_token s
          (record s { phase = Phase.selecting; analytics = before ++ Handler.answered t r ∷ after })
  watch :
      {n : Node e} (s : Service e f)
      → is_started s.phase ≡ true
      → Watches s.node n
      → Turn w a fuel d auth_token s (record s { node = n })
  work :
      {n : Node e} (s : Service e f)
      → Works s.node n
      → Turn w a fuel d auth_token s (record s { node = n })

pub data Run {e : Env} {f : Floats} (w : Web f) (a : Arithmetic f) (fuel : ℕ) (d : Display)
    (auth_token : String) (s : Service e f) : Service e f → Type 0 where
  begin : Run w a fuel d auth_token s s
  then_turn :
      {u v : Service e f}
      → Run w a fuel d auth_token s u
      → Turn w a fuel d auth_token u v
      → Run w a fuel d auth_token s v
