-- ===== src/Cmd/Admin.antt =====
-- go-ooo/cmd: the commands that are tasks for the running node, admin.go and the tasks of its
-- sub-commands.
use Prim.Native.String.{◌++◌ as ◌<>◌}
use xfund_router.Common.{
  String, Bool, true, false, List, [], ◌∷◌, Result, ok, err, ◌==◌, if◌then◌else◌,
}
use xfund_router.Chain.Admin.{AdminTask, AdminTaskResponse}
use xfund_router.Service.Server.{HttpRequest, HttpResponse}
use xfund_router.Cmd.Numbers.{fee_of}

abbrev pub no_task : AdminTask
no_task = record { task = ""; fee_or_amount = 0; to_or_consumer = "" }

unfoldable pub register_cmd : String → AdminTask
register_cmd fee = record no_task { task = "register"; fee_or_amount = fee_of fee }

unfoldable pub set_fee_cmd : String → AdminTask
set_fee_cmd fee = record no_task { task = "set_fee"; fee_or_amount = fee_of fee }

unfoldable pub set_granular_fee_cmd : String → String → AdminTask
set_granular_fee_cmd fee consumer = record {
  task = "set_granular_fee";
  fee_or_amount = fee_of fee;
  to_or_consumer = consumer;
}

unfoldable pub withdraw_cmd : String → String → AdminTask
withdraw_cmd amount recipient = record {
  task = "withdraw";
  fee_or_amount = fee_of amount;
  to_or_consumer = recipient;
}

unfoldable pub query_fees_cmd : AdminTask
query_fees_cmd = record no_task { task = "query_fees" }

unfoldable pub query_withdrawable_cmd : AdminTask
query_withdrawable_cmd = record no_task { task = "query_withdrawable" }

unfoldable pub query_granular_fees_cmd : String → AdminTask
query_granular_fees_cmd consumer = record no_task {
  task = "query_granular_fees";
  to_or_consumer = consumer;
}

-- What a command prints, and whether it ends in a panic.
pub record Output : Type 0 where
  pub lines : List String
  pub panicked : Bool

abbrev pub printed : List String → Output
printed lines = record { lines = lines; panicked = false }

-- `net/http`, `encoding/json` and `strings.TrimSpace`, as the commands use them. A request is made
-- if the URL of the settings is well formed.
pub record Remote : Type 1 where
  pub Net : Type 0
  pub valid_url : Bool
  pub trim_space : String → String
  pub post : HttpRequest → Net → Result HttpResponse × Net
  pub get : String → Net → Result HttpResponse × Net
  pub read_all : HttpResponse → Result String
  pub status_text : HttpResponse → String
  pub admin_task_text : AdminTask → Result String
  pub admin_response_in : String → Result AdminTaskResponse
  pub indent : String → Result String

abbrev pub bool_text : Bool → String
bool_text true = "true"
bool_text false = "false"

module _ (c : Remote) where
  abbrev pub body_lines :
      (String → List String)
      → (HttpResponse → String → List String)
      → HttpResponse
      → Result String
      → Output
  body_lines done refused resp (err e) = printed (e ∷ [])
  body_lines done refused resp (ok body) =
      printed (if resp.status == 200 then done body else refused resp body)

  -- The answer to a request with the typed password; without one, `resp.Body` is read of `nil`.
  unfoldable pub answer_lines :
      (String → List String) → (HttpResponse → String → List String) → Result HttpResponse → Output
  answer_lines done refused (err e) = record {
    lines = "Something went wrong." ∷ e ∷ [];
    panicked = true;
  }
  answer_lines done refused (ok resp) = body_lines done refused resp (c.read_all resp)

  unfoldable pub send :
      String
      → String
      → String
      → (String → List String)
      → (HttpResponse → String → List String)
      → c.Net
      → Output × c.Net
  send path password request_json done refused net =
      let authorization = "Bearer " <> c.trim_space password in
      let (resp, net1) =
        c.post (record { path = path; authorization = authorization; body = request_json }) net in
      if c.valid_url
      then (answer_lines done refused resp, net1)
      else (record { lines = []; panicked = true }, net)

  abbrev outcome_lines : AdminTaskResponse → String × String
  outcome_lines tr = if tr.success then ("Result  : ", tr.result) else ("Error   : ", tr.error)

  abbrev pub response_lines : Result AdminTaskResponse → List String
  response_lines (err e) = e ∷ []
  response_lines (ok tr) =
      let (label, text) = outcome_lines tr in
      ("Task    : " <> tr.admin_task.task)
      ∷ ("Success : " <> bool_text tr.success)
      ∷ (label <> text)
      ∷ []

  abbrev pub error_lines : HttpResponse → String → List String
  error_lines resp body = ("Error   : " <> c.status_text resp) ∷ ("Message : " <> body) ∷ []

  abbrev pub with_header : AdminTask → Output × c.Net → Output × c.Net
  with_header admin_task (out, net) = (
    record out { lines = "" ∷ ("attempting to send task " <> admin_task.task) ∷ "" ∷ out.lines },
    net,
  )

  abbrev send_task : AdminTask → String → Result String → c.Net → Output × c.Net
  send_task admin_task password (err e) net = (printed ("Can't marshal request" ∷ []), net)
  send_task admin_task password (ok request_json) net =
      send "/admin" password request_json (λ body. response_lines (c.admin_response_in body))
        error_lines net

  -- The password as it was read from the terminal, or the error of reading it.
  unfoldable pub process_admin_task : AdminTask → Result String → c.Net → Output × c.Net
  process_admin_task admin_task (err e) net = (printed (e ∷ []), net)
  process_admin_task admin_task (ok password) net =
      with_header admin_task (send_task admin_task password (c.admin_task_text admin_task) net)
