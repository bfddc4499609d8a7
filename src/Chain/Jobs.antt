-- ===== src/Chain/Jobs.antt =====
-- go-ooo/chain/jobs.go: the job queue. A pass reads the pending jobs and takes one step with each,
-- by its request status.
pub mod Confirmations
pub mod Pass
pub mod Stuck
use xfund_router.Common.{ℕ, String, Bool, List, [], ◌∷◌, ◌++◌, ltb, leb, ◌==◌, if◌then◌else◌}
use xfund_router.Common.Words.{sub64}
use xfund_router.Models.{DataRequests, RequestStatus}
use xfund_router.Database.Queries.{get_pending_jobs}
use xfund_router.Chain.Env.{FetchTask, Env, Node}
use xfund_router.Chain.Monad.{M, ◌>>=◌, ◌>>◌, pure, try, modify, on_requests, on_chain, for_each}
use xfund_router.Chain.Fulfil.{
  bytes32, set_status, add_failure, process_fulfillment_fetch_data, send_fulfillment_tx,
}
use xfund_router.Chain.Events.{process_incoming_fulfilments}

abbrev pub max_attempts : ℕ
max_attempts = 3

abbrev pub max_request_age : ℕ
max_request_age = 250

-- The age of a request in blocks, a `uint64` difference.
abbrev pub too_old : DataRequests → ℕ → Bool
too_old job current_block_num =
    ltb max_request_age (sub64 current_block_num job.request_block_number)

module _ {e : Env} where
  unfoldable pub give_up : DataRequests → String → M e (Unit {0})
  give_up job reason = set_status job.request_id RequestStatus.fulfilment_failed reason

  unfoldable pub process_possibly_stuck_data_fetch : DataRequests → ℕ → M e (Unit {0})
  process_possibly_stuck_data_fetch job current_block_num =
      if leb max_attempts job.fulfillment_attempts
      then give_up job "too many failed attempts"
      else if ltb (sub64 current_block_num job.last_data_fetch_block_number) 5
      then pure tt
      else if too_old job current_block_num
      then give_up job "request too old"
      else process_fulfillment_fetch_data job current_block_num

  unfoldable pub process_send_failed_job : DataRequests → ℕ → M e (Unit {0})
  process_send_failed_job job current_block_num = do
    add_failure job.request_id "" 0 0 job.status_reason
    (if leb max_attempts job.fulfillment_attempts
        then give_up job "too many failed attempts"
        else if too_old job current_block_num
        then give_up job "request too old"
        else process_fulfillment_fetch_data job current_block_num)

  -- `opts := o.historicalFilterOpts` is the shared object: its start stays changed.
  unfoldable pub set_filter_start : ℕ → Node e → Node e
  set_filter_start block_number n = record n { filter_start = block_number }

  -- The fulfilment was mined: look for its event, in case it was missed.
  unfoldable pub find_fulfilment : DataRequests → M e (Unit {0})
  find_fulfilment job = do
    modify (set_filter_start job.request_block_number)
    events ← try (
        on_chain (
          e.client.filter_fulfilled_by_request job.request_block_number
            (bytes32 (e.crypto.from_hex job.request_id))))
    for_each events process_incoming_fulfilments

  -- The fulfilment was reverted: send it again, within limits.
  unfoldable pub resend : DataRequests → ℕ → M e (Unit {0})
  resend job current_block_num = do
    add_failure job.request_id (e.crypto.hash_hex (e.crypto.hex_to_hash job.fulfill_tx_hash))
        job.fulfill_gas_used job.fulfill_gas_price "tx reverted"
    (if leb max_attempts job.fulfillment_attempts
        then give_up job "too many failed attempts"
        else if too_old job current_block_num
        then give_up job "request too old"
        else send_fulfillment_tx job current_block_num)

  unfoldable pub check_sent : DataRequests → ℕ → M e (Unit {0})
  check_sent job current_block_num = do
    let hash = e.crypto.hex_to_hash job.fulfill_tx_hash
    (_, is_pending) ← try (on_chain (e.client.transaction_by_hash hash))
    (if is_pending then pure tt else do
      receipt ← try (on_chain (e.client.transaction_receipt hash))
      (if receipt.status == 1 then find_fulfilment job else resend job current_block_num))

  unfoldable pub process_possibly_stuck_sent_tx : DataRequests → ℕ → M e (Unit {0})
  process_possibly_stuck_sent_tx job current_block_num =
      if ltb (sub64 current_block_num job.last_fulfill_sent_block_number) 3
      then pure tt
      else check_sent job current_block_num

  unfoldable pub add_spawned : DataRequests → ℕ → Node e → Node e
  add_spawned job current_block_num n = record n {
    spawned = n.spawned ++ record { job = job; block_num = current_block_num } ∷ [];
  }

  -- `go func(…) { o.processFulfillmentFetchData(…) }`.
  unfoldable pub spawn : DataRequests → ℕ → M e (Unit {0})
  spawn job current_block_num = modify (add_spawned job current_block_num)

  -- The `switch`, on the confirmations and the status.
  unfoldable pub dispatch : RequestStatus → ℕ → DataRequests → ℕ → M e (Unit {0})
  dispatch RequestStatus.initialised request_block_diff job current_block_num =
      if leb e.wait_confirmations request_block_diff then spawn job current_block_num else pure tt
  dispatch RequestStatus.data_ready_to_send _ job current_block_num =
      send_fulfillment_tx job current_block_num
  dispatch RequestStatus.tx_failed _ job current_block_num =
      process_send_failed_job job current_block_num
  dispatch RequestStatus.api_error _ job current_block_num =
      process_send_failed_job job current_block_num
  dispatch RequestStatus.fetching_data _ job current_block_num =
      process_possibly_stuck_data_fetch job current_block_num
  dispatch RequestStatus.tx_sent _ job current_block_num =
      process_possibly_stuck_sent_tx job current_block_num
  dispatch RequestStatus.unknown _ job current_block_num = pure tt
  dispatch RequestStatus.success _ job current_block_num = pure tt
  dispatch RequestStatus.fulfilment_failed _ job current_block_num = pure tt

  unfoldable pub pre_process_pending_job : ℕ → DataRequests → M e (Unit {0})
  pre_process_pending_job current_block_num job = do
    receipt ←
        try (on_chain (e.client.transaction_receipt (e.crypto.hex_to_hash job.request_tx_hash)))
    dispatch job.request_status (sub64 current_block_num receipt.block_number) job current_block_num

  -- No block number is asked for when the queue is empty.
  unfoldable pub process_jobs : List DataRequests → M e (Unit {0})
  process_jobs [] = pure tt
  process_jobs (job ∷ jobs) = do
    current_block_num ← try (on_chain e.client.block_number)
    for_each (job ∷ jobs) (pre_process_pending_job current_block_num)

  unfoldable pub process_pending_job_queue : M e (Unit {0})
  process_pending_job_queue = do
    jobs ← try (on_requests (get_pending_jobs e.requests))
    process_jobs jobs

  -- A goroutine that was started, run to its end.
  unfoldable pub run_task : FetchTask → M e (Unit {0})
  run_task t = process_fulfillment_fetch_data t.job t.block_num
