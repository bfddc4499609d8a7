-- ===== src/Chain/Closed/AdminTasks.antt =====
-- The administration tasks of go-ooo/chain, part by part, for such an invariant.
use xfund_router.Common.{ℕ, String, Option, none, some, Result, ok, err}
use xfund_router.Chain.Env.{Env, Node, TransactOpts, Tx}
use xfund_router.Chain.Monad.{on_chain}
use xfund_router.Chain.Keeps.{Keeps, Keeps->>=, Keeps-pure}
use xfund_router.Chain.Admin.{
  AdminTask, Display, with_opts, after_tx, register_as_provider, set_global_fee, set_granular_fee,
  withdraw_available, withdraw, report, query_withdrawable, query_fees, query_granular_fees,
  run_task, after_renewal, process_admin_task,
}
use xfund_router.Chain.Closed.Handlers.{control, calls, renew_transact_opts-Keeps}
use xfund_router.Chain.Closed.{IsClosed}

module _ {e : Env} (I : Node e → Type 0) (closed : IsClosed e I) where
  after_tx-Keeps : (d : Display) (t : AdminTask) (r : Result Tx) → Keeps I (after_tx d t r)
  unfolding after_tx
  after_tx-Keeps d t (ok tx) = search (control, calls)
  after_tx-Keeps d t (err m) = Keeps-pure _

  with_opts-Keeps :
      (d : Display) (f : TransactOpts → e.client.Chain → Result Tx × e.client.Chain)
      → Keeps I (with_opts d f)
  unfolding with_opts on_chain
  with_opts-Keeps d f = record { run = λ n i. closed.chain _ n i }

  report-Keeps :
      (d : Display) (t : AdminTask) (f : ℕ → String) (r : Result ℕ) → Keeps I (report d t f r)
  unfolding report
  report-Keeps d t f (ok v) = Keeps-pure _
  report-Keeps d t f (err m) = Keeps-pure _

  withdraw_available-Keeps :
      (d : Display) (t : AdminTask) (r : Result ℕ) → Keeps I (withdraw_available d t r)
  unfolding withdraw_available
  withdraw_available-Keeps d t (ok v) = search (control, with_opts-Keeps, after_tx-Keeps)
  withdraw_available-Keeps d t (err m) = Keeps-pure _

  run_task-Keeps : (d : Display) (t : AdminTask) → Keeps I (run_task d t)
  unfolding run_task register_as_provider set_global_fee set_granular_fee withdraw
      query_withdrawable query_fees query_granular_fees
  run_task-Keeps d t =
      search
        (control, calls, with_opts-Keeps, after_tx-Keeps, report-Keeps, withdraw_available-Keeps)
        depth 14

  after_renewal-Keeps :
      (d : Display) (t : AdminTask) (o : Option String) → Keeps I (after_renewal d t o)
  unfolding after_renewal
  after_renewal-Keeps d t none = run_task-Keeps d t
  after_renewal-Keeps d t (some m) = Keeps-pure _

  pub process_admin_task-Keeps : (d : Display) (t : AdminTask) → Keeps I (process_admin_task d t)
  unfolding process_admin_task
  process_admin_task-Keeps d t =
      Keeps->>= _ _ (renew_transact_opts-Keeps I closed) (after_renewal-Keeps d t)
