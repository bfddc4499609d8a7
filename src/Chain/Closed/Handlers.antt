-- ===== src/Chain/Closed/Handlers.antt =====
-- The handlers of go-ooo/chain, part by part, for such an invariant.
use xfund_router.Common.{ℕ, String, Bool, false, some, Result, ok, err, List, [], ◌∷◌}
use xfund_router.Models.{DataRequests, RequestStatus}
use xfund_router.Chain.Env.{Env, Node, DataRequested, RequestFulfilled, Tx, Log, Bytes}
use xfund_router.Chain.Monad.{on_chain}
use xfund_router.Chain.Keeps.{
  Keeps, Keeps->>=, Keeps-pure, Keeps-return, Keeps-try, Keeps-check, Keeps-ignore, Keeps-if,
  Keeps-scope, Keeps-for_each,
}
use xfund_router.Chain.Caller.{price_renewed, nonce_renewed, renew_transact_opts}
use xfund_router.Chain.Events.{
  insert_event, record_current, process_gas_usage, process_incoming_requests,
  process_incoming_fulfilments, get_historical_events, shutdown,
}
use xfund_router.Chain.Fulfil.{
  query, store_price, send_signed, record_sent, after_send, after_sign, set_status, add_failure,
  process_fulfillment_fetch_data, send_fulfillment_tx,
}
use xfund_router.Chain.Jobs.{
  give_up, process_possibly_stuck_data_fetch, process_send_failed_job, find_fulfilment, resend,
  check_sent, process_possibly_stuck_sent_tx, dispatch, spawn, pre_process_pending_job,
  process_jobs, process_pending_job_queue,
}
use xfund_router.Chain.Closed.{
  IsClosed, IsStep, on_chain-Keeps, on_api-Keeps, on_failed-Keeps, gets-Keeps,
  set_next_tx_nonce-Keeps, set_last_block_number-Keeps, set_gas_price-Keeps, set_filter_start-Keeps,
  add_spawned-Keeps, find_by_request_id-Keeps, get_pending_jobs-Keeps, insert_new_request-Keeps,
  update_fulfillment_success-Keeps, update_fulfillment_sent-Keeps,
  increment_fulfillment_attempts-Keeps, update_request_status-Keeps, update_data_fetched-Keeps,
  update_last_data_fetch-Keeps,
}

pub ruleset control = (
  Keeps->>=, Keeps-pure, Keeps-return, Keeps-try, Keeps-check, Keeps-ignore, Keeps-if, Keeps-scope,
)

pub ruleset calls = (
  on_chain-Keeps, on_api-Keeps, on_failed-Keeps, gets-Keeps, set_next_tx_nonce-Keeps,
  set_last_block_number-Keeps, set_gas_price-Keeps, set_filter_start-Keeps, add_spawned-Keeps,
  find_by_request_id-Keeps, get_pending_jobs-Keeps, insert_new_request-Keeps,
  update_fulfillment_success-Keeps, update_fulfillment_sent-Keeps,
  increment_fulfillment_attempts-Keeps, update_request_status-Keeps, update_data_fetched-Keeps,
  update_last_data_fetch-Keeps, IsStep.fetching, IsStep.sent, IsStep.api_error, IsStep.tx_failed,
  IsStep.gave_up,
)

module _ {e : Env} (I : Node e → Type 0) (closed : IsClosed e I) where
  price_renewed-Keeps : (r : Result ℕ) → Keeps I (price_renewed r)
  unfolding price_renewed
  price_renewed-Keeps (ok p) = search (control, calls) depth 14
  price_renewed-Keeps (err m) = Keeps-pure (some m)

  nonce_renewed-Keeps : (r : Result ℕ) → Keeps I (nonce_renewed r)
  unfolding nonce_renewed
  nonce_renewed-Keeps (ok p) = search (control, calls, price_renewed-Keeps) depth 14
  nonce_renewed-Keeps (err m) = Keeps-pure (some m)

  pub renew_transact_opts-Keeps : Keeps I renew_transact_opts
  unfolding renew_transact_opts
  renew_transact_opts-Keeps = search (control, calls, nonce_renewed-Keeps) depth 14

  pub process_gas_usage-Keeps : (l : Log) → Keeps I (process_gas_usage l)
  unfolding process_gas_usage
  process_gas_usage-Keeps l = search (control, calls) depth 14

  pub insert_event-Keeps : (ev : DataRequested) (u p : ℕ) → Keeps I (insert_event ev u p)
  unfolding insert_event
  insert_event-Keeps ev u p = search (control, calls) depth 14

  pub process_incoming_requests-Keeps :
      (ev : DataRequested) → Keeps I (process_incoming_requests ev)
  unfolding process_incoming_requests
  process_incoming_requests-Keeps ev =
      search (control, calls, process_gas_usage-Keeps, insert_event-Keeps) depth 14

  pub process_incoming_fulfilments-Keeps :
      (ev : RequestFulfilled) → Keeps I (process_incoming_fulfilments ev)
  unfolding process_incoming_fulfilments
  process_incoming_fulfilments-Keeps ev = search (control, calls, process_gas_usage-Keeps) depth 14

  pub get_historical_events-Keeps : Keeps I (get_historical_events)
  unfolding get_historical_events
  get_historical_events-Keeps =
      search
        (
          control, calls, process_incoming_requests-Keeps, process_incoming_fulfilments-Keeps,
          Keeps-for_each,
        )
        depth 14

  pub query-Keeps : (job : DataRequests) → Keeps I (query job)
  unfolding query
  query-Keeps job = search (control, calls) depth 14

  pub set_status-Keeps :
      (k : String) (s : RequestStatus) (r : String) → IsStep s → Keeps I (set_status k s r)
  unfolding set_status
  set_status-Keeps k s r h = search (control, calls) depth 14

  pub add_failure-Keeps : (k h : String) (u p : ℕ) (r : String) → Keeps I (add_failure k h u p r)
  unfolding add_failure
  add_failure-Keeps k h u p r = search (control, calls) depth 14

  pub store_price-Keeps : (k : String) (r : Result String) → Keeps I (store_price k r)
  unfolding store_price
  store_price-Keeps k (ok p) = search (control, calls, set_status-Keeps) depth 14
  store_price-Keeps k (err r) = search (calls, set_status-Keeps) depth 14

  pub process_fulfillment_fetch_data-Keeps :
      (job : DataRequests) (b : ℕ) → Keeps I (process_fulfillment_fetch_data job b)
  unfolding process_fulfillment_fetch_data
  process_fulfillment_fetch_data-Keeps job b =
      Keeps->>= _ _ (Keeps-check _ renew_transact_opts-Keeps) λ _.
        Keeps->>= _ _ (search (control, calls)) λ _. Keeps->>= _ _ (search (control, calls)) λ _.
          Keeps->>= _ _ (search (control, calls))
            λ _. Keeps->>= _ _ (query-Keeps job) λ r. store_price-Keeps job.request_id r

  pub send_signed-Keeps : (job : DataRequests) (g : Bytes) → Keeps I (send_signed job g)
  unfolding send_signed on_chain
  send_signed-Keeps job g = record { run = λ n i. closed.chain _ n i }

  pub record_sent-Keeps : (job : DataRequests) (b : ℕ) (tx : Tx) → Keeps I (record_sent job b tx)
  unfolding record_sent
  record_sent-Keeps job b tx = Keeps->>= _ _ (set_status-Keeps _ _ _ IsStep.sent) λ _.
      Keeps->>= _ _ (search (control, calls)) λ _.
        Keeps->>= _ _ (set_next_tx_nonce-Keeps I closed tx.nonce false)
          λ _. Keeps-ignore _ renew_transact_opts-Keeps

  pub after_send-Keeps : (job : DataRequests) (b : ℕ) (r : Result Tx) → Keeps I (after_send job b r)
  unfolding after_send
  after_send-Keeps job b (ok tx) = record_sent-Keeps job b tx
  after_send-Keeps job b (err r) = search (calls, set_status-Keeps) depth 14

  pub after_sign-Keeps :
      (job : DataRequests) (b : ℕ) (r : Result Bytes) → Keeps I (after_sign job b r)
  unfolding after_sign
  after_sign-Keeps job b (ok g) = search (control, send_signed-Keeps, after_send-Keeps) depth 14
  after_sign-Keeps job b (err r) = search (calls, set_status-Keeps) depth 14

  pub send_fulfillment_tx-Keeps : (job : DataRequests) (b : ℕ) → Keeps I (send_fulfillment_tx job b)
  unfolding send_fulfillment_tx
  send_fulfillment_tx-Keeps job b = search (control, calls, after_sign-Keeps) depth 14

  pub give_up-Keeps : (job : DataRequests) (r : String) → Keeps I (give_up job r)
  unfolding give_up
  give_up-Keeps job r = search (control, calls, set_status-Keeps) depth 14

  pub process_possibly_stuck_data_fetch-Keeps :
      (job : DataRequests) (b : ℕ) → Keeps I (process_possibly_stuck_data_fetch job b)
  unfolding process_possibly_stuck_data_fetch
  process_possibly_stuck_data_fetch-Keeps job b =
      search (control, calls, give_up-Keeps, process_fulfillment_fetch_data-Keeps) depth 14

  pub process_send_failed_job-Keeps :
      (job : DataRequests) (b : ℕ) → Keeps I (process_send_failed_job job b)
  unfolding process_send_failed_job
  process_send_failed_job-Keeps job b =
      search
        (control, calls, add_failure-Keeps, give_up-Keeps, process_fulfillment_fetch_data-Keeps)
        depth 14

  pub find_fulfilment-Keeps : (job : DataRequests) → Keeps I (find_fulfilment job)
  unfolding find_fulfilment
  find_fulfilment-Keeps job =
      search (control, calls, process_incoming_fulfilments-Keeps, Keeps-for_each) depth 14

  pub resend-Keeps : (job : DataRequests) (b : ℕ) → Keeps I (resend job b)
  unfolding resend
  resend-Keeps job b =
      search (control, calls, add_failure-Keeps, give_up-Keeps, send_fulfillment_tx-Keeps) depth 14

  pub check_sent-Keeps : (job : DataRequests) (b : ℕ) → Keeps I (check_sent job b)
  unfolding check_sent
  check_sent-Keeps job b = search (control, calls, find_fulfilment-Keeps, resend-Keeps) depth 14

  pub process_possibly_stuck_sent_tx-Keeps :
      (job : DataRequests) (b : ℕ) → Keeps I (process_possibly_stuck_sent_tx job b)
  unfolding process_possibly_stuck_sent_tx
  process_possibly_stuck_sent_tx-Keeps job b = search (control, calls, check_sent-Keeps) depth 14

  pub dispatch-Keeps :
      (s : RequestStatus) (d : ℕ) (job : DataRequests) (b : ℕ) → Keeps I (dispatch s d job b)
  unfolding dispatch spawn
  dispatch-Keeps RequestStatus.initialised d job b = search (control, calls)
  dispatch-Keeps RequestStatus.data_ready_to_send d job b = send_fulfillment_tx-Keeps job b
  dispatch-Keeps RequestStatus.tx_failed d job b = process_send_failed_job-Keeps job b
  dispatch-Keeps RequestStatus.api_error d job b = process_send_failed_job-Keeps job b
  dispatch-Keeps RequestStatus.fetching_data d job b = process_possibly_stuck_data_fetch-Keeps job b
  dispatch-Keeps RequestStatus.tx_sent d job b = process_possibly_stuck_sent_tx-Keeps job b
  dispatch-Keeps RequestStatus.unknown d job b = Keeps-pure tt
  dispatch-Keeps RequestStatus.success d job b = Keeps-pure tt
  dispatch-Keeps RequestStatus.fulfilment_failed d job b = Keeps-pure tt

  pub pre_process_pending_job-Keeps :
      (b : ℕ) (job : DataRequests) → Keeps I (pre_process_pending_job b job)
  unfolding pre_process_pending_job
  pre_process_pending_job-Keeps b job = search (control, calls, dispatch-Keeps) depth 14

  pub process_jobs-Keeps : (jobs : List DataRequests) → Keeps I (process_jobs jobs)
  unfolding process_jobs
  process_jobs-Keeps [] = Keeps-pure tt
  process_jobs-Keeps (job ∷ jobs) =
      search (control, calls, pre_process_pending_job-Keeps, Keeps-for_each) depth 14

  pub process_pending_job_queue-Keeps : Keeps I (process_pending_job_queue)
  unfolding process_pending_job_queue
  process_pending_job_queue-Keeps = search (control, calls, process_jobs-Keeps) depth 14

  pub record_current-Keeps : (r : Result ℕ) → Keeps I (record_current r)
  unfolding record_current
  record_current-Keeps (ok b) = search calls
  record_current-Keeps (err m) = Keeps-pure tt

  pub shutdown-Keeps : (b : Bool) → Keeps I (shutdown b)
  unfolding shutdown
  shutdown-Keeps b = search (control, calls, record_current-Keeps) depth 14
