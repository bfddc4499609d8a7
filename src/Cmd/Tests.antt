-- ===== src/Cmd/Tests.antt =====
-- Commands to a service on its own, numbers that are typed, and a fee that is never found.
use Prim.Native.String.{◌++◌ as ◌<>◌}
use xfund_router.Common.{true, none, some, [], ◌∷◌, ◌≡◌, refl, ok, err, arith}
use xfund_router.Common.Int.{pos}
use xfund_router.OooApi.Finchains.{itoa}
use xfund_router.OooApi.Adhoc.Tests.{floats}
use xfund_router.Chain.Admin.{
  AdminTask, AdminTaskResponse, succeeded, process_admin_task as run_admin_task,
}
use xfund_router.Chain.Tests.{env, display, node, done_row, rows}
use xfund_router.Service.Analytics.{process_analytics_task}
use xfund_router.Service.Analytics.Tests.{arithmetic}
use xfund_router.Database.Queries.{get_last_x_successful_requests}
use xfund_router.Service.Loop.{Phase, Service, new_service, Run}
use xfund_router.Service.Loop.Tests.{web, question}
use xfund_router.Cmd.Admin.{Remote, printed, set_fee_cmd, register_cmd, process_admin_task}
use xfund_router.Cmd.Numbers.{fee_of, int_value, digits64, scan64}
use xfund_router.Cmd.Numbers.Reads.{set_fee_cmd-reads}
use xfund_router.Cmd.Remote.{connected, response_text, command-refused, command-answered}
use xfund_router.Cmd.Analytics.{Flags, Json, curr_xfund_price, suggest_fee_task}
use xfund_router.Cmd.Suggestion.{IsOrdered, suggest_fee-hangs}

set_fee_cmd-reads_example :
    ((set_fee_cmd (itoa 250)).fee_or_amount ≡ 250)
    × ((register_cmd (itoa 250)).fee_or_amount ≡ 250)
    × ((set_fee_cmd (itoa 250 <> ("." <> "5"))).fee_or_amount ≡ 0)
    × ((register_cmd (itoa 250 <> ("." <> "5"))).fee_or_amount ≡ 0)
set_fee_cmd-reads_example = set_fee_cmd-reads 250 "5" (omega arith) (omega arith)

negative_test : fee_of "-1" ≡ 18446744073709551615
unfolding fee_of int_value digits64 scan64
negative_test = refl

great_test : fee_of "99999999999999999999x" ≡ 9223372036854775807
unfolding fee_of int_value digits64 scan64
great_test = refl

abbrev fees : AdminTask
fees = question "query_fees"

-- No price server answers.
abbrev remote : Remote
remote = record {
  Net = Unit {0};
  valid_url = true;
  trim_space = λ s. s;
  post = λ r n. (err "EOF", n);
  get = λ u n. (err "no such host", n);
  read_all = λ r. ok r.body;
  status_text = λ r. "status";
  admin_task_text = λ t. ok t.task;
  admin_response_in = λ b. ok (succeeded fees b);
  indent = λ b. ok b;
}

abbrev TestService : Type 0
TestService = Service env floats

abbrev service : TestService
service = record (new_service floats node) { phase = Phase.selecting }

command-refused_example :
    process_admin_task (connected env remote web display "secret") fees (ok "guess") service ≡ (
      printed (
          "" ∷ "attempting to send task query_fees" ∷ "" ∷ "Error   : status"
          ∷ "Message : Unauthorized" ∷ []),
      service,
    )
command-refused_example =
    command-refused remote web display "secret" fees "guess" "query_fees" refl refl (λ r. refl)
      service "other" refl refl refl

command-answered_example :
    let (out, u) =
      process_admin_task (connected env remote web display "secret") fees (ok "secret") service in
    (tr : AdminTaskResponse) × ((run_admin_task display fees node).0 ≡ some tr)
    × (tr.admin_task ≡ fees)
    × (out
        ≡ printed
            ("" ∷ "attempting to send task query_fees" ∷ "" ∷ response_text remote web fees tr))
    × (u.node ≡ (run_admin_task display fees node).1)
    × Run web arithmetic 5 display "secret" service u
command-answered_example =
    command-answered remote web display "secret" fees "secret" "query_fees" refl refl (λ r. refl)
      service refl (λ m. refl) refl arithmetic 5 refl

abbrev flags : Flags floats
flags = record {
  num_txs = pos 0;
  consumer = "";
  curr_xfund_price = 0;
  sim_gas_price = 0;
  sim_xfund_fee = 0;
}

abbrev json : Json floats
json = record {
  analytics_task_text = λ t. ok "";
  analytics_response_in = λ b. err "";
  xfund_eth_in = λ b. 7;
  float_text = λ x. "";
  fixed18 = λ x. "";
  nat_text = λ n. "";
}

ordered : IsOrdered arithmetic
ordered = record {
  nat_up = λ n. ground arith;
  int_up = λ n. ground arith;
  mul_up = λ x y h k. ground arith;
  add_up = λ x y h k. ground arith;
  quo_up = λ x n h k. ground arith;
  mul_zero = λ x. ground arith;
  zero_minus = λ x h. ground arith;
}

jobs_test :
    let task = suggest_fee_task remote json flags (curr_xfund_price remote json flags tt).0 in
    (get_last_x_successful_requests env.requests task.num_txs task.consumer rows).0
    ≡ ok (done_row ∷ [])
unfolding get_last_x_successful_requests suggest_fee_task
jobs_test = refl

suggest_fee-hangs_example :
    let task = suggest_fee_task remote json flags (curr_xfund_price remote json flags tt).0 in
    (process_analytics_task arithmetic env.requests 9 task rows).0 ≡ none
suggest_fee-hangs_example =
    suggest_fee-hangs remote json flags tt arithmetic env.requests rows done_row [] ordered
      ((omega arith, omega arith), tt) refl refl jobs_test 9
