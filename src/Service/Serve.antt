-- ===== src/Service/Serve.antt =====
-- go-ooo/service/echo.go: an administration request that is served while no other turn is taken.
use xfund_router.Common.{
  ℕ, String, Option, none, some, [], ◌∷◌, ◌++◌, ◌≡◌, refl, sym, str_eq, true, ap, subst,
}
use xfund_router.Utils.{Floats}
use xfund_router.Chain.Env.{Env, Node}
use xfund_router.Chain.Admin.{Display, AdminTask, AdminTaskResponse, process_admin_task}
use xfund_router.Service.Analytics.Types.{Arithmetic}
use xfund_router.Service.Server.{HttpRequest, HttpResponse, Web, key_auth, admin_answer}
use xfund_router.Service.Loop.{Handler, Phase, Service, Turn, Run, begin, then_turn}

module _ {e : Env} {f : Floats} (w : Web f) (d : Display) (auth_token : String) where
  abbrev answered_by :
      AdminTask
      → Option AdminTaskResponse × Node e
      → Service e f
      → Option HttpResponse × Service e f
  answered_by t (none, n) s = (none, record s { node = n })
  answered_by t (some tr, n) s = (
    some (admin_answer w tr),
    record s { node = n; admin = s.admin ++ Handler.answered t tr ∷ [] },
  )

  -- `AddAdminTask` behind the middleware, with the loop's turn in between.
  abbrev let_through :
      HttpRequest → Option HttpResponse → Service e f → Option HttpResponse × Service e f
  let_through request (some refusal) s = (some refusal, s)
  let_through request none s =
      let t = w.admin_task_in request.body in answered_by t (process_admin_task d t s.node) s

  unfoldable pub serve_admin : HttpRequest → Service e f → Option HttpResponse × Service e f
  serve_admin request s = let_through request (key_auth w auth_token request) s

  pub serve_admin-refuses :
      (request : HttpRequest) (s : Service e f) {refusal : HttpResponse}
      → key_auth w auth_token request ≡ some refusal
      → serve_admin request s ≡ (some refusal, s)
  unfolding serve_admin
  serve_admin-refuses request s h = rw h refl

  pub serve_admin-answers :
      (request : HttpRequest) (s : Service e f) (t : AdminTask) (tr : AdminTaskResponse)
      → key_auth w auth_token request ≡ none
      → w.admin_task_in request.body ≡ t
      → (process_admin_task d t s.node).0 ≡ some tr
      → serve_admin request s ≡ (
        some (admin_answer w tr),
        record s {
          node = (process_admin_task d t s.node).1;
          admin = s.admin ++ Handler.answered t tr ∷ [];
        },
      )
  unfolding serve_admin
  serve_admin-answers request s t tr h k given =
      rw h (rw k (λ i. answered_by t (given i, (process_admin_task d t s.node).1) s))

  module _ (a : Arithmetic f) (fuel : ℕ) where
    -- The three turns that serve the request.
    pub serve_admin-Run :
        (request : HttpRequest) (s : Service e f) (t : AdminTask) (tr : AdminTaskResponse)
        → key_auth w auth_token request ≡ none
        → str_eq request.path "/admin" ≡ true
        → w.admin_task_in request.body ≡ t
        → s.phase ≡ Phase.selecting
        → (process_admin_task d t s.node).0 ≡ some tr
        → Run w a fuel d auth_token s (record s {
          node = (process_admin_task d t s.node).1;
          admin = s.admin ++ Handler.answered t tr ∷ [];
        })
    serve_admin-Run request s t tr h path k idle given =
        let posted : Service e f = record s {
          admin = s.admin ++ Handler.sending (w.admin_task_in request.body) ∷ [];
        } in
        let taken : Service e f = record posted {
          node = (process_admin_task d t s.node).1;
          phase = Phase.replying_admin tr;
          admin = s.admin ++ Handler.waiting t ∷ [];
        } in
        let served : Service e f = record taken { admin = s.admin ++ Handler.answered t tr ∷ [] } in
        subst (λ p. Run w a fuel d auth_token s (record served { phase = p })) (sym idle)
          (then_turn
            (then_turn (then_turn begin (Turn.post_admin s request h path)) (
              Turn.take_admin posted s.admin [] t tr idle
                (ap (λ u. s.admin ++ Handler.sending u ∷ []) k) given))
            (Turn.reply_admin taken s.admin [] t tr refl refl))
