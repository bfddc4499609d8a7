-- ===== src/Cmd/Remote.antt =====
-- go-ooo/cmd/admin.go with go-ooo/service: a command, from the terminal to the node and back.
use Prim.Native.String.{◌++◌ as ◌<>◌}
use xfund_router.Common.{
  ℕ, String, true, false, Option, none, some, List, [], ◌∷◌, ◌≡◌, refl, ap, Result, ok, err, ◌==◌,
  str_eq, if◌then◌else◌, inl, inr,
}
use text.Mathlib.TextPositions.{eq_refl}
use xfund_router.Utils.{Floats}
use xfund_router.Chain.Env.{Env}
use xfund_router.Chain.Admin.{
  Display, AdminTask, AdminTaskResponse, succeeded, process_admin_task as run_admin_task,
}
use xfund_router.Chain.Admin.Answers.{IsFor, IsFor-task, process_admin_task-Answers}
use xfund_router.Service.Analytics.Types.{Arithmetic}
use xfund_router.Service.Server.{HttpRequest, HttpResponse, Web, key_auth, admin_answer}
use xfund_router.Service.Loop.{Phase, Service, Run}
use xfund_router.Service.Serve.{
  serve_admin, serve_admin-refuses, serve_admin-answers, serve_admin-Run,
}
use xfund_router.Cmd.Admin.{
  Remote, Output, printed, process_admin_task, send, answer_lines, response_lines, error_lines,
}

abbrev received : {S : Type 0} → Option HttpResponse × S → Result HttpResponse × S
received (none, s) = (err "EOF", s)
received (some resp, s) = (ok resp, s)

-- The commands' connection to a service that does nothing else meanwhile.
abbrev pub connected : (e : Env) {f : Floats} → Remote → Web f → Display → String → Remote
connected e {f} c w d auth_token = record c {
  Net = Service e f;
  post = λ r s. received (serve_admin w d auth_token r s);
  get = λ url s. (err "EOF", s);
}

-- The lines that a command prints for a response of the service.
abbrev pub response_text :
    {f : Floats} → Remote → Web f → AdminTask → AdminTaskResponse → List String
response_text c w t tr =
    if tr.success
    then ("Task    : " <> t.task) ∷ "Success : true" ∷ ("Result  : " <> tr.result) ∷ []
    else ("Error   : " <> c.status_text (admin_answer w tr))
      ∷ ("Message : " <> w.text_json tr.error)
      ∷ []

module _ {e : Env} {f : Floats} (c : Remote) (w : Web f) (d : Display) (auth_token : String)
    (t : AdminTask) (password body : String) (url_ok : c.valid_url ≡ true)
    (marshalled : c.admin_task_text t ≡ ok body)
    (whole_body : (r : HttpResponse) → c.read_all r ≡ ok r.body) (s : Service e f) where
  abbrev request : HttpRequest
  request = record {
    path = "/admin";
    authorization = "Bearer " <> c.trim_space password;
    body = body;
  }

  wrong_key :
      (key : String)
      → w.key_of request.authorization ≡ some key
      → str_eq key auth_token ≡ false
      → key_auth w auth_token request ≡ some w.invalid_key
  unfolding key_auth
  wrong_key key has_key other = rw (has_key, other) refl

  right_key :
      w.key_of request.authorization ≡ some auth_token → key_auth w auth_token request ≡ none
  unfolding key_auth
  right_key has_key = rw (has_key, eq_refl auth_token) refl

  -- For a URL that is well formed and a task that can be marshalled, a command with a password
  -- whose header gives another key than the token of the service leaves the service as it was,
  -- node and handlers, and prints the refusal, if its status is not 200.
  pub command-refused :
      (key : String)
      → w.key_of ("Bearer " <> c.trim_space password) ≡ some key
      → str_eq key auth_token ≡ false
      → (w.invalid_key.status == 200) ≡ false
      → process_admin_task (connected e c w d auth_token) t (ok password) s ≡ (
        printed (
            ""
            ∷ ("attempting to send task " <> t.task)
            ∷ ""
            ∷ ("Error   : " <> c.status_text w.invalid_key)
            ∷ ("Message : " <> w.invalid_key.body)
            ∷ []),
        s,
      )
  unfolding process_admin_task send answer_lines
  command-refused key has_key other bad =
      let refused : key_auth w auth_token request ≡ some w.invalid_key =
        wrong_key key has_key other in
      rw
        (
          marshalled,
          serve_admin-refuses w d auth_token request s refused,
          url_ok,
          whole_body _,
          bad,
        )
        refl

  module _ (unmarshalled : w.admin_task_in body ≡ t)
      (response_json : (m : String)
        → c.admin_response_in (w.admin_json (succeeded t m)) ≡ ok (succeeded t m))
      (has_key : w.key_of ("Bearer " <> c.trim_space password) ≡ some auth_token) where
    answer_text :
        (tr : AdminTaskResponse)
        → IsFor t tr
        → answer_lines c
            (λ b. response_lines c (c.admin_response_in b))
            (error_lines c)
            (ok (admin_answer w tr))
          ≡ printed (response_text c w t tr)
    unfolding answer_lines admin_answer
    answer_text tr (inl (m, h)) = rw h (rw (whole_body _) refl)
    answer_text tr (inr (m, h)) = rw h (rw (whole_body _, response_json m) refl)

    -- For a URL that is well formed, a task and its successful responses that JSON carries
    -- unchanged, and the password whose header gives the token of the service, a command sent to a
    -- service at its select, with no other turn in between, leads by turns of the service to the
    -- node that the task leads to, and prints the result of the task if it succeeds, or else the
    -- status and the error that the task ends with.
    pub command-answered :
        (a : Arithmetic f) (fuel : ℕ)
        → s.phase ≡ Phase.selecting
        → let (out, u) = process_admin_task (connected e c w d auth_token) t (ok password) s in
          (tr : AdminTaskResponse) × ((run_admin_task d t s.node).0 ≡ some tr)
          × (tr.admin_task ≡ t)
          × (out
              ≡ printed ("" ∷ ("attempting to send task " <> t.task) ∷ "" ∷ response_text c w t tr))
          × (u.node ≡ (run_admin_task d t s.node).1)
          × Run w a fuel d auth_token s u
    unfolding process_admin_task send answer_lines
    command-answered a fuel idle =
        let (tr, given, own) = (process_admin_task-Answers d t).run s.node in
        let key_ok = right_key has_key in
        let served = serve_admin-answers w d auth_token request s t tr key_ok unmarshalled given in
        (
          tr,
          given,
          IsFor-task own,
          rw (marshalled, served, url_ok)
              (ap {A = Output}
                (λ o. record o {
                  lines = "" ∷ ("attempting to send task " <> t.task) ∷ "" ∷ o.lines;
                })
                (answer_text tr own)),
          rw (marshalled, served, url_ok) refl,
          rw (marshalled, served, url_ok)
              (serve_admin-Run w d auth_token a fuel request s t tr key_ok refl unmarshalled idle
                given),
        )
