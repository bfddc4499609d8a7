-- ===== src/Service/Loop/Safety.antt =====
-- go-ooo/service: which response an HTTP handler gets.
use xfund_router.Common.{ℕ, String, some, List, [], ◌∷◌, ◌++◌, ◌≡◌, subst}
use xfund_router.Utils.{Floats}
use xfund_router.Gorm.{IsGorm}
use xfund_router.Database.Schemas.{request_schema}
use xfund_router.Chain.Env.{Env, Node}
use xfund_router.Chain.Admin.{Display, AdminTask, AdminTaskResponse, process_admin_task}
use xfund_router.Chain.Schedule.{Reach, here}
use xfund_router.Service.Analytics.{process_analytics_task}
use xfund_router.Service.Analytics.Types.{Arithmetic, AnalyticsTask, AnalyticsTaskResponse}
use xfund_router.Service.Server.{Web}
use xfund_router.Service.Loop.{Handler, Phase, Service, new_service, Turn, Run, begin, then_turn}
use xfund_router.Service.Loop.Handlers.{
  NoneWaiting, OneWaits, AllAnswered, OneWaits-of_sending, OneWaits-received, AllAnswered-taken,
  AllAnswered-received, NoneWaiting-posted, OneWaits-posted, AllAnswered-posted,
}
use xfund_router.Service.Loop.Refinement.{Turn-Reach}

module _ {e : Env} {f : Floats} (a : Arithmetic f) (fuel : ℕ) (d : Display) (n0 : Node e) where
  -- The response is the outcome of the task on a node that was reached.
  abbrev pub IsAdminOutcome : AdminTask → AdminTaskResponse → Type 0
  IsAdminOutcome t r = (n : Node e) × Reach d n0 n × ((process_admin_task d t n).0 ≡ some r)

  abbrev pub IsAnalyticsOutcome : AnalyticsTask f → AnalyticsTaskResponse f → Type 0
  IsAnalyticsOutcome t r =
      (n : Node e) × Reach d n0 n
      × ((process_analytics_task a e.requests fuel t n.requests).0 ≡ some r)

  -- A handler waits exactly while a response is sent, and the response is to its task.
  abbrev pub Waits :
      Phase f
      → List (Handler AdminTask AdminTaskResponse)
      → List (Handler (AnalyticsTask f) (AnalyticsTaskResponse f))
      → Type 0
  Waits Phase.starting hs ks = NoneWaiting hs × NoneWaiting ks
  Waits Phase.selecting hs ks = NoneWaiting hs × NoneWaiting ks
  Waits (Phase.replying_admin r) hs ks = OneWaits (λ t. IsAdminOutcome t r) hs × NoneWaiting ks
  Waits (Phase.replying_analytics r) hs ks =
      NoneWaiting hs × OneWaits (λ t. IsAnalyticsOutcome t r) ks

  pub record IsServed (s : Service e f) : Type 0 where
    pub reached : Reach d n0 s.node
    pub waits : Waits s.phase s.admin s.analytics
    pub admin : AllAnswered IsAdminOutcome s.admin
    pub analytics : AllAnswered IsAnalyticsOutcome s.analytics

  Waits-admin_posted :
      (p : Phase f) (hs : List (Handler AdminTask AdminTaskResponse))
      (ks : List (Handler (AnalyticsTask f) (AnalyticsTaskResponse f))) (t : AdminTask)
      → Waits p hs ks
      → Waits p (hs ++ Handler.sending t ∷ []) ks
  Waits-admin_posted Phase.starting hs ks t v = (NoneWaiting-posted hs t v.0, v.1)
  Waits-admin_posted Phase.selecting hs ks t v = (NoneWaiting-posted hs t v.0, v.1)
  Waits-admin_posted (Phase.replying_admin r) hs ks t v = (OneWaits-posted _ hs t v.0, v.1)
  Waits-admin_posted (Phase.replying_analytics r) hs ks t v = (NoneWaiting-posted hs t v.0, v.1)

  Waits-analytics_posted :
      (p : Phase f) (hs : List (Handler AdminTask AdminTaskResponse))
      (ks : List (Handler (AnalyticsTask f) (AnalyticsTaskResponse f))) (t : AnalyticsTask f)
      → Waits p hs ks
      → Waits p hs (ks ++ Handler.sending t ∷ [])
  Waits-analytics_posted Phase.starting hs ks t v = (v.0, NoneWaiting-posted ks t v.1)
  Waits-analytics_posted Phase.selecting hs ks t v = (v.0, NoneWaiting-posted ks t v.1)
  Waits-analytics_posted (Phase.replying_admin r) hs ks t v = (v.0, NoneWaiting-posted ks t v.1)
  Waits-analytics_posted (Phase.replying_analytics r) hs ks t v = (v.0, OneWaits-posted _ ks t v.1)

module _ {e : Env} {f : Floats} (w : Web f) (a : Arithmetic f) (fuel : ℕ) (d : Display)
    (auth_token : String) (law : IsGorm request_schema e.requests) (n0 : Node e) where
  Turn-IsServed :
      {s u : Service e f}
      → Turn w a fuel d auth_token s u
      → IsServed a fuel d n0 s
      → IsServed a fuel d n0 u
  Turn-IsServed (Turn.history s h) i = record {
    reached = Turn-Reach w a fuel d auth_token law (Turn.history s h) i.reached;
    waits = subst (λ p. Waits a fuel d n0 p s.admin s.analytics) h i.waits;
    admin = i.admin;
    analytics = i.analytics;
  }
  Turn-IsServed (Turn.post_admin s q h k) i = record {
    reached = i.reached;
    waits = Waits-admin_posted a fuel d n0 s.phase s.admin s.analytics _ i.waits;
    admin = AllAnswered-posted _ s.admin _ i.admin;
    analytics = i.analytics;
  }
  Turn-IsServed (Turn.post_analytics s q h k) i = record {
    reached = i.reached;
    waits = Waits-analytics_posted a fuel d n0 s.phase s.admin s.analytics _ i.waits;
    admin = i.admin;
    analytics = AllAnswered-posted _ s.analytics _ i.analytics;
  }
  Turn-IsServed (Turn.tick s h) i = record {
    reached = Turn-Reach w a fuel d auth_token law (Turn.tick s h) i.reached;
    waits = i.waits;
    admin = i.admin;
    analytics = i.analytics;
  }
  Turn-IsServed (Turn.take_admin s before after t r h k given) i =
      let (hs, ks) = subst (λ p. Waits a fuel d n0 p s.admin s.analytics) h i.waits in
      record {
        reached =
            Turn-Reach w a fuel d auth_token law (Turn.take_admin s before after t r h k given)
              i.reached;
        waits = (
          OneWaits-of_sending _ before after t (s.node, i.reached, given) (subst NoneWaiting k hs),
          ks,
        );
        admin = AllAnswered-taken _ before after t (subst (AllAnswered _) k i.admin);
        analytics = i.analytics;
      }
  Turn-IsServed (Turn.reply_admin s before after t r h k) i =
      let (hs, ks) = subst (λ p. Waits a fuel d n0 p s.admin s.analytics) h i.waits in
      let (own, none) = OneWaits-received _ before after t r (subst (OneWaits _) k hs) in
      record {
        reached = i.reached;
        waits = (none, ks);
        admin = AllAnswered-received _ before after t r own (subst (AllAnswered _) k i.admin);
        analytics = i.analytics;
      }
  Turn-IsServed (Turn.take_analytics s before after t r h k given) i =
      let (hs, ks) = subst (λ p. Waits a fuel d n0 p s.admin s.analytics) h i.waits in
      record {
        reached =
            Turn-Reach w a fuel d auth_token law (Turn.take_analytics s before after t r h k given)
              i.reached;
        waits = (
          hs,
          OneWaits-of_sending _ before after t (s.node, i.reached, given) (subst NoneWaiting k ks),
        );
        admin = i.admin;
        analytics = AllAnswered-taken _ before after t (subst (AllAnswered _) k i.analytics);
      }
  Turn-IsServed (Turn.reply_analytics s before after t r h k) i =
      let (hs, ks) = subst (λ p. Waits a fuel d n0 p s.admin s.analytics) h i.waits in
      let (own, none) = OneWaits-received _ before after t r (subst (OneWaits _) k ks) in
      record {
        reached = i.reached;
        waits = (hs, none);
        admin = i.admin;
        analytics =
            AllAnswered-received _ before after t r own (subst (AllAnswered _) k i.analytics);
      }
  Turn-IsServed (Turn.watch s h c) i = record {
    reached = Turn-Reach w a fuel d auth_token law (Turn.watch s h c) i.reached;
    waits = i.waits;
    admin = i.admin;
    analytics = i.analytics;
  }
  Turn-IsServed (Turn.work s c) i = record {
    reached = Turn-Reach w a fuel d auth_token law (Turn.work s c) i.reached;
    waits = i.waits;
    admin = i.admin;
    analytics = i.analytics;
  }

  pub Run-IsServed :
      {s u : Service e f}
      → Run w a fuel d auth_token s u
      → IsServed a fuel d n0 s
      → IsServed a fuel d n0 u
  Run-IsServed begin i = i
  Run-IsServed (then_turn run t) i = Turn-IsServed t (Run-IsServed run i)

  pub new_service-IsServed : IsServed a fuel d n0 (new_service f n0)
  new_service-IsServed = record { reached = here; waits = (tt, tt); admin = tt; analytics = tt }
