-- ===== src/Chain/Closed.antt =====
-- Invariants of the table of requests that no handler of the chain service can break: those that
-- every query and every write of the handlers keeps.
pub mod Handlers
pub mod AdminTasks
use xfund_router.Common.{
  ℕ, String, Bool, true, false, Option, none, some, Result, ok, err, List, ◌≡◌, refl, value_or, leb,
  ltb, ◌==◌, arith,
}
use xfund_router.Models.{DataRequests, RequestStatus}
use xfund_router.Gorm.Update.{update_where}
use xfund_router.Database.Schemas.{has_request_id}
use xfund_router.Database.Queries.{find_by_request_id, get_pending_jobs}
use xfund_router.Database.Transactions.{
  new_request, set_success, set_sent, add_attempt, set_request_status, set_data_fetched,
  set_last_data_fetch, insert_new_request, update_fulfillment_success, update_fulfillment_sent,
  increment_fulfillment_attempts, update_request_status, update_data_fetched,
  update_last_data_fetch_block_number,
}
use xfund_router.OooApi.Endpoint.{is_adhoc}
use xfund_router.Chain.Env.{Env, Node, FetchTask, DataRequested, RequestFulfilled, Tx}
use xfund_router.Chain.Monad.{
  M, ◌>>=◌, pure, scope, modify, for_each, on_requests, on_chain, on_api, on_failed, gets, try,
  resume,
}
use xfund_router.Chain.Keeps.{
  Keeps, Keeps->>=, Keeps-pure, Keeps-return, Keeps-try, Keeps-check, Keeps-ignore, Keeps-if,
  Keeps-scope, Keeps-for_each,
}
use xfund_router.Chain.Caller.{set_next_tx_nonce, set_gas_price}
use xfund_router.Chain.Events.{
  record_block, set_last_block_number, process_gas_usage, process_incoming_requests,
  process_incoming_fulfilments, get_historical_events, shutdown,
}
use xfund_router.Chain.Jobs.{add_spawned, set_filter_start}
use xfund_router.Chain.Fulfil.{
  set_status, add_failure, process_fulfillment_fetch_data, send_fulfillment_tx,
}

-- The statuses that a handler sets by `UpdateRequestStatus`.
pub data IsStep : RequestStatus → Type 0 where
  fetching : IsStep RequestStatus.fetching_data
  sent : IsStep RequestStatus.tx_sent
  api_error : IsStep RequestStatus.api_error
  tx_failed : IsStep RequestStatus.tx_failed
  gave_up : IsStep RequestStatus.fulfilment_failed

-- What a handler writes into a row that is there.
pub data Edit : Type 0 where
  success : ℕ → String → ℕ → ℕ → Edit
  sent : String → ℕ → Edit
  attempt : Edit
  status : (s : RequestStatus) → IsStep s → String → Edit
  fetched : String → Edit
  last_fetch : ℕ → Edit

abbrev pub apply : Edit → DataRequests → DataRequests
apply (Edit.success b h u p) r = set_success b h u p r
apply (Edit.sent h b) r = set_sent h b r
apply Edit.attempt r = add_attempt r
apply (Edit.status s _ m) r = set_request_status s m r
apply (Edit.fetched p) r = set_data_fetched p r
apply (Edit.last_fetch b) r = set_last_data_fetch b r

-- An invariant of nodes that each of the state's parts keeps as it changes.
pub record IsClosed (e : Env) (I : Node e → Type 0) : Type 0 where
  pub first :
      (p : DataRequests → Bool) (n : Node e)
      → I n
      → I (record n { requests = (e.requests.first p n.requests).1 })
  pub find :
      (p : DataRequests → Bool) (n : Node e)
      → I n
      → I (record n { requests = (e.requests.find p n.requests).1 })
  pub insert :
      (provider consumer request_id endpoint endpoint_decoded tx_hash : String)
      (gas_used gas_price fee block_number : ℕ) (is_adhoc : Bool) (n : Node e)
      → I n
      → I (record n {
        requests =
            (e.requests.create
              (new_request provider consumer request_id endpoint endpoint_decoded tx_hash gas_used
                gas_price fee block_number is_adhoc)
              n.requests).1;
      })
  pub edit :
      (k : String) (c : Edit) (n : Node e)
      → I n
      → I (record n {
        requests = (update_where e.requests (has_request_id k) (apply c) n.requests).1;
      })
  pub same_rows :
      (t : e.requests.Table) (n : Node e)
      → e.requests.rows t ≡ e.requests.rows n.requests
      → I n
      → I (record n { requests = t })
  pub failed : (t : e.failed.Table) (n : Node e) → I n → I (record n { failed = t })
  pub chain : (c : e.client.Chain) (n : Node e) → I n → I (record n { chain = c })
  pub api : (p : e.api.Api) (n : Node e) → I n → I (record n { api = p })
  pub next_nonce : (nonce : ℕ) (b : Bool) (n : Node e) → I n → I (set_next_tx_nonce nonce b n)
  pub gas_price : (p : ℕ) (n : Node e) → I n → I (set_gas_price p n)
  pub last_block : (b : ℕ) (n : Node e) → I n → I (set_last_block_number b n)
  pub filter_start : (b : ℕ) (n : Node e) → I n → I (set_filter_start b n)
  pub spawned : (ts : List FetchTask) (n : Node e) → I n → I (record n { spawned = ts })

module _ {e : Env} (I : Node e → Type 0) (closed : IsClosed e I) where
  pub on_chain-Keeps : {A : Type 0} (f : e.client.Chain → A × e.client.Chain) → Keeps I (on_chain f)
  unfolding on_chain
  on_chain-Keeps f = record { run = λ n i. closed.chain _ n i }

  pub on_api-Keeps : {A : Type 0} (f : e.api.Api → A × e.api.Api) → Keeps I (on_api f)
  unfolding on_api
  on_api-Keeps f = record { run = λ n i. closed.api _ n i }

  pub on_failed-Keeps :
      {A : Type 0} (f : e.failed.Table → A × e.failed.Table) → Keeps I (on_failed f)
  unfolding on_failed
  on_failed-Keeps f = record { run = λ n i. closed.failed _ n i }

  pub gets-Keeps : {A : Type 0} (f : Node e → A) → Keeps I (gets f)
  unfolding gets
  gets-Keeps f = record { run = λ n i. i }

  pub set_next_tx_nonce-Keeps :
      (nonce : ℕ) (b : Bool) → Keeps I (modify (set_next_tx_nonce nonce b))
  unfolding modify
  set_next_tx_nonce-Keeps nonce b = record { run = closed.next_nonce nonce b }

  pub set_last_block_number-Keeps : (b : ℕ) → Keeps I (modify (set_last_block_number b))
  unfolding modify
  set_last_block_number-Keeps b = record { run = closed.last_block b }

  pub set_gas_price-Keeps : (gas_price : ℕ) → Keeps I (modify (set_gas_price gas_price))
  unfolding modify
  set_gas_price-Keeps gas_price = record { run = closed.gas_price gas_price }

  pub set_filter_start-Keeps : (b : ℕ) → Keeps I (modify (set_filter_start b))
  unfolding modify
  set_filter_start-Keeps b = record { run = closed.filter_start b }

  pub add_spawned-Keeps : (job : DataRequests) (b : ℕ) → Keeps I (modify (add_spawned job b))
  unfolding add_spawned modify
  add_spawned-Keeps job b = record { run = λ n i. closed.spawned _ n i }

  pub find_by_request_id-Keeps :
      (k : String) → Keeps I (on_requests (find_by_request_id e.requests k))
  unfolding on_requests find_by_request_id
  find_by_request_id-Keeps k = record { run = λ n i. closed.first (has_request_id k) n i }

  pub get_pending_jobs-Keeps : Keeps I (on_requests (get_pending_jobs e.requests))
  unfolding on_requests get_pending_jobs
  get_pending_jobs-Keeps = record { run = λ n i. closed.find _ n i }

  pub insert_new_request-Keeps :
      (a b c d f g : String) (i j k l : ℕ) (h : Bool)
      → Keeps I (on_requests (insert_new_request e.requests a b c d f g i j k l h))
  unfolding on_requests insert_new_request
  insert_new_request-Keeps a b c d f g i j k l h = record {
    run = λ n v. closed.insert a b c d f g i j k l h n v;
  }

  pub update_fulfillment_success-Keeps :
      (k : String) (b : ℕ) (h : String) (u p : ℕ)
      → Keeps I (on_requests (update_fulfillment_success e.requests k b h u p))
  unfolding on_requests update_fulfillment_success
  update_fulfillment_success-Keeps k b h u p = record {
    run = λ n i. closed.edit k (Edit.success b h u p) n i;
  }

  pub update_fulfillment_sent-Keeps :
      (k h : String) (b : ℕ) → Keeps I (on_requests (update_fulfillment_sent e.requests k h b))
  unfolding on_requests update_fulfillment_sent
  update_fulfillment_sent-Keeps k h b = record { run = λ n i. closed.edit k (Edit.sent h b) n i }

  pub increment_fulfillment_attempts-Keeps :
      (k : String) → Keeps I (on_requests (increment_fulfillment_attempts e.requests k))
  unfolding on_requests increment_fulfillment_attempts
  increment_fulfillment_attempts-Keeps k = record { run = λ n i. closed.edit k Edit.attempt n i }

  pub update_request_status-Keeps :
      (k : String) (s : RequestStatus) (r : String)
      → IsStep s
      → Keeps I (on_requests (update_request_status e.requests k s r))
  unfolding on_requests update_request_status
  update_request_status-Keeps k s r h = record {
    run = λ n i. closed.edit k (Edit.status s h r) n i;
  }

  pub update_data_fetched-Keeps :
      (k p : String) → Keeps I (on_requests (update_data_fetched e.requests k p))
  unfolding on_requests update_data_fetched
  update_data_fetched-Keeps k p = record { run = λ n i. closed.edit k (Edit.fetched p) n i }

  pub update_last_data_fetch-Keeps :
      (k : String) (b : ℕ)
      → Keeps I (on_requests (update_last_data_fetch_block_number e.requests k b))
  unfolding on_requests update_last_data_fetch_block_number
  update_last_data_fetch-Keeps k b = record { run = λ n i. closed.edit k (Edit.last_fetch b) n i }
