-- ===== src/Service/Server.antt =====
-- go-ooo/service/echo.go: the HTTP interface to the tasks, and its key.
use xfund_router.Common.{ℕ, String, Option, none, some, if◌then◌else◌, str_eq}
use xfund_router.Utils.{Floats}
use xfund_router.Chain.Admin.{AdminTask, AdminTaskResponse}
use xfund_router.Service.Analytics.Types.{AnalyticsTask, AnalyticsTaskResponse}

pub record HttpRequest : Type 0 where
  pub path : String
  pub authorization : String
  pub body : String

pub record HttpResponse : Type 0 where
  pub status : ℕ
  pub body : String

-- `echo` and `encoding/json`: the key in an `Authorization` header and the answers of the
-- middleware without a key and with a wrong one; what `Decode` leaves in a task, whatever its
-- error; and the texts of the answers.
pub record Web (f : Floats) : Type 0 where
  pub key_of : String → Option String
  pub missing_key : HttpResponse
  pub invalid_key : HttpResponse
  pub admin_task_in : String → AdminTask
  pub analytics_task_in : String → AnalyticsTask f
  pub admin_json : AdminTaskResponse → String
  pub analytics_json : AnalyticsTaskResponse f → String
  pub text_json : String → String

module _ {f : Floats} (w : Web f) where
  abbrev pub refused : String → Option String → Option HttpResponse
  refused auth_token none = some w.missing_key
  refused auth_token (some key) = if str_eq key auth_token then none else some w.invalid_key

  -- `middleware.KeyAuth`: the answer to a request that is not let through.
  unfoldable pub key_auth : String → HttpRequest → Option HttpResponse
  key_auth auth_token request = refused auth_token (w.key_of request.authorization)

  -- The ends of `AddAdminTask` and `AddAnalyticsTask`, with the answer from the channel.
  unfoldable pub admin_answer : AdminTaskResponse → HttpResponse
  admin_answer tr =
      if tr.success
      then record { status = 200; body = w.admin_json tr }
      else record { status = 500; body = w.text_json tr.error }

  unfoldable pub analytics_answer : AnalyticsTaskResponse f → HttpResponse
  analytics_answer tr =
      if tr.success
      then record { status = 200; body = w.analytics_json tr }
      else record { status = 500; body = w.text_json tr.error }
