-- ===== src/Service/Loop/Tests.antt =====
-- A service that two operators ask at once.
use xfund_router.Common.{String, none, some, [], ◌∷◌, ◌≡◌, refl, if◌then◌else◌, str_eq}
use xfund_router.OooApi.Adhoc.Tests.{floats}
use xfund_router.Chain.Monad.{◌>>=◌, pure, modify, on_chain}
use xfund_router.Chain.Caller.{price_renewed, nonce_renewed, renew_transact_opts}
use xfund_router.Chain.Admin.{
  AdminTask, AdminTaskResponse, process_admin_task, after_renewal, run_task, query_withdrawable,
  report, succeeded,
}
use xfund_router.Chain.Events.{get_historical_events}
use xfund_router.Chain.Tests.{env, law, display, node}
use xfund_router.Service.Analytics.Tests.{arithmetic, task}
use xfund_router.Service.Server.{HttpRequest, Web, key_auth}
use xfund_router.Service.Loop.{Handler, Phase, Service, new_service, Turn, Run, begin, then_turn}
use xfund_router.Service.Loop.Handlers.{AllAnswered}
use xfund_router.Service.Loop.Safety.{IsAdminOutcome, IsAnalyticsOutcome}
use xfund_router.Service.Loop.Replies.{new_service-replies, new_service-progress, admin_served}

abbrev pub question : String → AdminTask
question s = record { task = s; fee_or_amount = 0; to_or_consumer = "" }

-- The key is `secret`, and the body of a request is the name of its task.
abbrev pub web : Web floats
web = record {
  key_of = λ s. if str_eq s "Bearer secret" then some "secret" else some "other";
  missing_key = record { status = 400; body = "missing key in request header" };
  invalid_key = record { status = 401; body = "Unauthorized" };
  admin_task_in = question;
  analytics_task_in = λ s. task;
  admin_json = λ tr. tr.result;
  analytics_json = λ tr. "";
  text_json = λ s. s;
}

abbrev asks : String → HttpRequest
asks s = record { path = "/admin"; authorization = "Bearer secret"; body = s }

abbrev fees : AdminTask
fees = question "query_fees"

abbrev amount : AdminTask
amount = question "query_withdrawable"

abbrev TestService : Type 0
TestService = Service env floats

abbrev ready : TestService
ready = record (new_service floats node) {
  node = (get_historical_events node).1;
  phase = Phase.selecting;
  admin = Handler.sending fees ∷ Handler.sending amount ∷ [];
}

let_in : (s : String) → key_auth web "secret" (asks s) ≡ none
unfolding key_auth
let_in s = refl

abbrev Runs : TestService → Type 0
Runs s = Run web arithmetic 5 display "secret" (new_service floats node) s

ready_run : Runs ready
ready_run =
    then_turn
      (then_turn (then_turn begin (Turn.history (new_service floats node) refl))
        (Turn.post_admin _ (asks "query_fees") (let_in "query_fees") refl))
      (Turn.post_admin _ (asks "query_withdrawable") (let_in "query_withdrawable") refl)

abbrev response : AdminTaskResponse
response = succeeded amount "amount available: n"

response_test : (process_admin_task display amount ready.node).0 ≡ some response
unfolding process_admin_task renew_transact_opts nonce_renewed price_renewed after_renewal run_task
    query_withdrawable report on_chain modify pure ◌>>=◌
response_test = refl

-- The second question is answered first.
abbrev taken : TestService
taken = record ready {
  node = (process_admin_task display amount ready.node).1;
  phase = Phase.replying_admin response;
  admin = Handler.sending fees ∷ Handler.waiting amount ∷ [];
}

abbrev replied : TestService
replied = record taken {
  phase = Phase.selecting;
  admin = Handler.sending fees ∷ Handler.answered amount response ∷ [];
}

taken_run : Runs taken
taken_run =
    then_turn ready_run
      (Turn.take_admin ready (Handler.sending fees ∷ []) [] amount response refl refl response_test)

replied_run : Runs replied
replied_run =
    then_turn taken_run
      (Turn.reply_admin taken (Handler.sending fees ∷ []) [] amount response refl refl)

new_service-replies_example :
    AllAnswered
      (λ t r. IsAdminOutcome arithmetic 5 display node t r × (r.admin_task ≡ t))
      replied.admin
    × AllAnswered (IsAnalyticsOutcome arithmetic 5 display node) replied.analytics
new_service-replies_example =
    new_service-replies web arithmetic 5 display "secret" law node replied_run

new_service-progress_example :
    (u : TestService) × Turn web arithmetic 5 display "secret" taken u × (u.phase ≡ Phase.selecting)
new_service-progress_example =
    new_service-progress web arithmetic 5 display "secret" law node taken_run refl

admin_served_example :
    (u v : TestService) × (r : AdminTaskResponse) × Turn web arithmetic 5 display "secret" ready u
    × Turn web arithmetic 5 display "secret" u v
    × (v.phase ≡ Phase.selecting)
    × (v.admin ≡ Handler.answered fees r ∷ Handler.sending amount ∷ [])
    × (v.node ≡ (process_admin_task display fees ready.node).1)
    × (r.admin_task ≡ fees)
admin_served_example =
    admin_served web arithmetic 5 display "secret" ready [] (Handler.sending amount ∷ []) fees refl
      refl
