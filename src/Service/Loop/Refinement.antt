-- ===== src/Service/Loop/Refinement.antt =====
-- go-ooo/service/service.go: the node that the service runs, whatever the requests to it.
use xfund_router.Common.{ℕ, String}
use xfund_router.Utils.{Floats}
use xfund_router.Gorm.{IsGorm}
use xfund_router.Database.Schemas.{request_schema}
use xfund_router.Chain.Env.{Env, Node}
use xfund_router.Chain.Admin.{Display}
use xfund_router.Chain.Schedule.{Step, Reach, next}
use xfund_router.Service.Analytics.Types.{Arithmetic}
use xfund_router.Service.Analytics.Reads.{process_analytics_task-rows}
use xfund_router.Service.Server.{Web}
use xfund_router.Service.Loop.{Service, Watches, Works, Turn, Run, begin, then_turn}

module _ {e : Env} (d : Display) where
  Watches-Step : {n m : Node e} → Watches n m → Step d n m
  Watches-Step (Watches.request n ev) = Step.request n ev
  Watches-Step (Watches.fulfilled n ev) = Step.fulfilled n ev

  Works-Step : {n m : Node e} → Works n m → Step d n m
  Works-Step (Works.fetch n before after t h) = Step.goroutine n before after t h
  Works-Step (Works.update_pairs n p) = Step.update_pairs n p
  Works-Step (Works.stop n b) = Step.stop n b

module _ {e : Env} {f : Floats} (w : Web f) (a : Arithmetic f) (fuel : ℕ) (d : Display)
    (auth_token : String) (law : IsGorm request_schema e.requests) {n0 : Node e} where
  pub Turn-Reach :
      {s u : Service e f} → Turn w a fuel d auth_token s u → Reach d n0 s.node → Reach d n0 u.node
  Turn-Reach (Turn.history s h) r = next r (Step.history s.node)
  Turn-Reach (Turn.post_admin s q h k) r = r
  Turn-Reach (Turn.post_analytics s q h k) r = r
  Turn-Reach (Turn.tick s h) r = next r (Step.tick s.node)
  Turn-Reach (Turn.take_admin s before after t q h k given) r = next r (Step.admin s.node t)
  Turn-Reach (Turn.reply_admin s before after t q h k) r = r
  Turn-Reach (Turn.take_analytics s before after t q h k given) r = next r (
      Step.analytics s.node _ (process_analytics_task-rows a e.requests law fuel t s.node.requests))
  Turn-Reach (Turn.reply_analytics s before after t q h k) r = r
  Turn-Reach (Turn.watch s h c) r = next r (Watches-Step d c)
  Turn-Reach (Turn.work s c) r = next r (Works-Step d c)

  -- With a database that keeps its promises, a run of the service from a node that is reached leads
  -- to a node that is reached.
  pub Run-Reach :
      {s u : Service e f} → Run w a fuel d auth_token s u → Reach d n0 s.node → Reach d n0 u.node
  Run-Reach begin r = r
  Run-Reach (then_turn run t) r = Turn-Reach t (Run-Reach run r)
