-- ===== src/Service/Loop/Replies.antt =====
-- go-ooo/service: the responses that the handlers get from the loop.
use xfund_router.Common.{ℕ, String, Bool, true, false, List, ◌∷◌, ◌++◌, ◌≡◌, refl}
use xfund_router.Utils.{Floats}
use xfund_router.Gorm.{IsGorm}
use xfund_router.Database.Schemas.{request_schema}
use xfund_router.Chain.Env.{Env, Node}
use xfund_router.Chain.Admin.{Display, AdminTask, AdminTaskResponse, process_admin_task}
use xfund_router.Chain.Admin.Answers.{
  IsFor-task, process_admin_task-Answers, process_admin_task-IsFor,
}
use xfund_router.Chain.Schedule.{Reach, here}
use xfund_router.Service.Analytics.Types.{Arithmetic}
use xfund_router.Service.Server.{Web}
use xfund_router.Service.Loop.{Handler, Phase, Service, new_service, Turn, Run}
use xfund_router.Service.Loop.Handlers.{AllAnswered, AllAnswered-mono, OneWaits-split}
use xfund_router.Service.Loop.Safety.{
  IsAdminOutcome, IsAnalyticsOutcome, Waits, Run-IsServed, new_service-IsServed,
}
use xfund_router.Service.Loop.Refinement.{Run-Reach}

abbrev pub is_replying : {f : Floats} → Phase f → Bool
is_replying Phase.starting = false
is_replying Phase.selecting = false
is_replying (Phase.replying_admin r) = true
is_replying (Phase.replying_analytics r) = true

module _ {e : Env} {f : Floats} (w : Web f) (a : Arithmetic f) (fuel : ℕ) (d : Display)
    (auth_token : String) (law : IsGorm request_schema e.requests) (n0 : Node e)
    {s : Service e f} where
  -- With a database that keeps its promises, whatever requests, ticks, events and goroutines make
  -- up a run of a new service, the node that it leads to is one that the handlers reach from the
  -- first node, taken one after the other.
  pub new_service-Reach : Run w a fuel d auth_token (new_service f n0) s → Reach d n0 s.node
  new_service-Reach run = Run-Reach w a fuel d auth_token law run here

  -- With a database that keeps its promises, in every run of a new service, each HTTP handler that
  -- has answered, of however many at once, has the response that its own task got on a node that
  -- was reached, and the response to an administration task names that task.
  pub new_service-replies :
      Run w a fuel d auth_token (new_service f n0) s
      → AllAnswered (λ t r. IsAdminOutcome a fuel d n0 t r × (r.admin_task ≡ t)) s.admin
        × AllAnswered (IsAnalyticsOutcome a fuel d n0) s.analytics
  new_service-replies run =
      let i =
        Run-IsServed w a fuel d auth_token law n0 run
          (new_service-IsServed w a fuel d auth_token law n0) in
      (
        AllAnswered-mono _ _
            (λ t r q.
              let (n, _, given) = q in (q, IsFor-task (process_admin_task-IsFor d t n given)))
            s.admin i.admin,
        i.analytics,
      )

  replied :
      (p : Phase f)
      → s.phase ≡ p
      → is_replying p ≡ true
      → Waits a fuel d n0 p s.admin s.analytics
      → (u : Service e f) × Turn w a fuel d auth_token s u × (u.phase ≡ Phase.selecting)
  replied Phase.starting h k v = cc
  replied Phase.selecting h k v = cc
  replied (Phase.replying_admin r) h k v =
      let (before, t, after, same, _) = OneWaits-split _ s.admin v.0 in
      (_, Turn.reply_admin s before after t r h same, refl)
  replied (Phase.replying_analytics r) h k v =
      let (before, t, after, same, _) = OneWaits-split _ s.analytics v.1 in
      (_, Turn.reply_analytics s before after t r h same, refl)

  -- With a database that keeps its promises, whenever the loop of a service that was newly started
  -- sends a response, a handler is there to receive it, and the loop goes on to its select.
  pub new_service-progress :
      Run w a fuel d auth_token (new_service f n0) s
      → is_replying s.phase ≡ true
      → (u : Service e f) × Turn w a fuel d auth_token s u × (u.phase ≡ Phase.selecting)
  new_service-progress run h =
      let i =
        Run-IsServed w a fuel d auth_token law n0 run
          (new_service-IsServed w a fuel d auth_token law n0) in
      replied s.phase refl h i.waits

module _ {e : Env} {f : Floats} (w : Web f) (a : Arithmetic f) (fuel : ℕ) (d : Display)
    (auth_token : String) where
  -- While the loop is at its select, any administration task that a handler is sending, whatever
  -- other handlers there are, can be answered in two turns, which change that handler alone, lead
  -- to the node that the task leads to and bring the loop back to its select; the response names
  -- the task.
  pub admin_served :
      (s : Service e f) (before after : List (Handler AdminTask AdminTaskResponse)) (t : AdminTask)
      → s.phase ≡ Phase.selecting
      → s.admin ≡ before ++ Handler.sending t ∷ after
      → (u v : Service e f) × (r : AdminTaskResponse) × Turn w a fuel d auth_token s u
        × Turn w a fuel d auth_token u v
        × (v.phase ≡ Phase.selecting)
        × (v.admin ≡ before ++ Handler.answered t r ∷ after)
        × (v.node ≡ (process_admin_task d t s.node).1)
        × (r.admin_task ≡ t)
  admin_served s before after t h k =
      let (r, given, own) = (process_admin_task-Answers {e = e} d t).run s.node in
      let u : Service e f = record s {
        node = (process_admin_task d t s.node).1;
        phase = Phase.replying_admin r;
        admin = before ++ Handler.waiting t ∷ after;
      } in
      (
        u,
        record u { phase = Phase.selecting; admin = before ++ Handler.answered t r ∷ after },
        r,
        Turn.take_admin s before after t r h k given,
        Turn.reply_admin u before after t r refl refl,
        refl,
        refl,
        refl,
        IsFor-task own,
      )
