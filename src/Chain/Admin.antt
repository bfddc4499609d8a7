-- ===== src/Chain/Admin.antt =====
-- go-ooo/chain/admin_tasks.go: the tasks that the operator sends, each a transaction or a query,
-- and the response to it.
pub mod Withdraw
pub mod Answers
use Prim.Native.String.{◌++◌ as ◌<>◌}
use xfund_router.Common.{
  ℕ, String, Bool, true, false, Result, ok, err, Option, some, none, str_eq, ltb, if◌then◌else◌,
}
use xfund_router.Common.Int.{ℤ, to_int64}
use xfund_router.Chain.Env.{Env, Node, Bytes, Tx, TransactOpts}
use xfund_router.Chain.Monad.{M, ◌>>=◌, ◌>>◌, pure, modify, on_chain}
use xfund_router.Chain.Caller.{set_next_tx_nonce, renew_transact_opts}

-- go-ooo/types/types.go.
pub record AdminTask : Type 0 where
  pub task : String
  pub fee_or_amount : ℕ
  pub to_or_consumer : String

pub record AdminTaskResponse : Type 0 where
  pub admin_task : AdminTask
  pub success : Bool
  pub result : String
  pub error : String

abbrev pub failed : AdminTask → String → AdminTaskResponse
failed task m = record { admin_task = task; success = false; result = ""; error = m }

abbrev pub succeeded : AdminTask → String → AdminTaskResponse
succeeded task m = record { admin_task = task; success = true; result = m; error = "" }

-- `big.Int.String()`, and `humanFee.String()` of a fee in gwei.
pub record Display : Type 0 where
  pub big_string : ℕ → String
  pub human_fee : ℕ → String

unfoldable pub fee_text : Display → ℕ → String
fee_text d fee = d.big_string fee <> (" (" <> (d.human_fee fee <> ")"))

module _ {e : Env} (d : Display) where
  -- The binding is called with the options of the moment.
  unfoldable pub with_opts :
      (TransactOpts → e.client.Chain → Result Tx × e.client.Chain) → M e (Result Tx)
  with_opts call n = on_chain (call n.transact_opts) n

  -- A transaction that was sent moves the nonce on.
  unfoldable pub after_tx : AdminTask → Result Tx → M e AdminTaskResponse
  after_tx task (err m) = pure (failed task m)
  after_tx task (ok tx) = do
    modify (set_next_tx_nonce tx.nonce false)
    pure (succeeded task ("Sent! Tx Hash: " <> e.crypto.hash_hex tx.hash))

  unfoldable pub register_as_provider : AdminTask → M e AdminTaskResponse
  register_as_provider task =
      with_opts (λ o. e.client.register_as_provider o (to_int64 task.fee_or_amount))
      >>= after_tx task

  unfoldable pub set_global_fee : AdminTask → M e AdminTaskResponse
  set_global_fee task =
      with_opts (λ o. e.client.set_provider_min_fee o (to_int64 task.fee_or_amount))
      >>= after_tx task

  unfoldable pub set_granular_fee : AdminTask → M e AdminTaskResponse
  set_granular_fee task =
      with_opts (λ o.
        e.client.set_provider_granular_fee o (e.crypto.hex_to_address task.to_or_consumer)
          (to_int64 task.fee_or_amount))
      >>= after_tx task

  -- No transaction is sent for more than is available.
  unfoldable pub withdraw_available : AdminTask → Result ℕ → M e AdminTaskResponse
  withdraw_available task (err m) = pure (failed task m)
  withdraw_available task (ok available) =
      if ltb available task.fee_or_amount
      then pure (
          failed task (
            (("cannot withdraw " <> d.big_string task.fee_or_amount) <> ". Only ")
            <> (d.big_string available <> " available")))
      else with_opts (λ o.
        e.client.withdraw o (e.crypto.hex_to_address task.to_or_consumer) task.fee_or_amount)
        >>= after_tx task

  unfoldable pub withdraw : AdminTask → M e AdminTaskResponse
  withdraw task = on_chain e.client.get_withdrawable_tokens >>= withdraw_available task

  unfoldable pub report : AdminTask → (ℕ → String) → Result ℕ → M e AdminTaskResponse
  report task text (err m) = pure (failed task m)
  report task text (ok v) = pure (succeeded task (text v))

  unfoldable pub query_withdrawable : AdminTask → M e AdminTaskResponse
  query_withdrawable task =
      on_chain e.client.get_withdrawable_tokens
      >>= report task (λ v. "amount available: " <> d.big_string v)

  unfoldable pub query_fees : AdminTask → M e AdminTaskResponse
  query_fees task =
      on_chain e.client.get_provider_min_fee
      >>= report task (λ fee. "global fee: " <> fee_text d fee)

  unfoldable pub query_granular_fees : AdminTask → M e AdminTaskResponse
  query_granular_fees task =
      on_chain (e.client.get_provider_granular_fee (e.crypto.hex_to_address task.to_or_consumer))
      >>= report task
          (λ fee. ("granular fee for " <> task.to_or_consumer) <> (": " <> fee_text d fee))

  unfoldable pub run_task : AdminTask → M e AdminTaskResponse
  run_task task =
      if str_eq task.task "register"
      then register_as_provider task
      else if str_eq task.task "set_fee"
      then set_global_fee task
      else if str_eq task.task "set_granular_fee"
      then set_granular_fee task
      else if str_eq task.task "withdraw"
      then withdraw task
      else if str_eq task.task "query_withdrawable"
      then query_withdrawable task
      else if str_eq task.task "query_fees"
      then query_fees task
      else if str_eq task.task "query_granular_fees"
      then query_granular_fees task
      else pure (failed task "unknown task")

  unfoldable pub after_renewal : AdminTask → Option String → M e AdminTaskResponse
  after_renewal task (some m) = pure (failed task m)
  after_renewal task none = run_task task

  unfoldable pub process_admin_task : AdminTask → M e AdminTaskResponse
  process_admin_task task = renew_transact_opts >>= after_renewal task
