-- ===== src/Database/Transactions.antt =====
-- go-ooo/database/transactions.go: the writes to `data_requests`, `to_blocks` and
-- `failed_fulfilments`. A transaction returns its error, `none` for nil.
use xfund_router.Common.{ℕ, String, Bool, Option, none, error_of, value_or, ltb, if◌then◌else◌}
use xfund_router.Common.Words.{add64}
use xfund_router.Models.{
  DataRequests, ToBlocks, FailedFulfilment, SupportedPairs, RequestStatus, JobStatus, no_request,
  no_block,
}
use xfund_router.Gorm.{Gorm}
use xfund_router.Gorm.Update.{update_where}
use xfund_router.Database.Schemas.{has_request_id}
use xfund_router.Database.Queries.{get_last_block_num_queried}

-- The row that `InsertNewRequest` creates.
abbrev pub new_request :
    String → String → String → String → String → String → ℕ → ℕ → ℕ → ℕ → Bool → DataRequests
new_request provider consumer request_id endpoint endpoint_decoded tx_hash gas_used gas_price fee
      block_number is_adhoc =
    record no_request {
      provider = provider;
      consumer = consumer;
      request_id = request_id;
      endpoint = endpoint;
      endpoint_decoded = endpoint_decoded;
      request_tx_hash = tx_hash;
      request_gas_used = gas_used;
      request_gas_price = gas_price;
      request_block_number = block_number;
      fee = fee;
      request_status = RequestStatus.initialised;
      fulfillment_attempts = 0;
      is_adhoc = is_adhoc;
      job_status = JobStatus.pending;
    }

-- The fields that each update sets.
abbrev pub set_success : ℕ → String → ℕ → ℕ → DataRequests → DataRequests
set_success block_number tx_hash gas_used gas_price req = record req {
  request_status = RequestStatus.success;
  job_status = JobStatus.success;
  fulfill_confirmed_block_number = block_number;
  fulfill_tx_hash = tx_hash;
  fulfill_gas_used = gas_used;
  fulfill_gas_price = gas_price;
}

abbrev pub set_sent : String → ℕ → DataRequests → DataRequests
set_sent tx_hash block_number req = record req {
  fulfill_tx_hash = tx_hash;
  last_fulfill_sent_block_number = block_number;
}

abbrev pub add_attempt : DataRequests → DataRequests
add_attempt req = record req { fulfillment_attempts = add64 req.fulfillment_attempts 1 }

-- `FULFILMENT_FAILED` closes the job.
abbrev pub job_status_after : RequestStatus → JobStatus → JobStatus
job_status_after RequestStatus.fulfilment_failed _ = JobStatus.fail
job_status_after _ job_status = job_status

abbrev pub set_request_status : RequestStatus → String → DataRequests → DataRequests
set_request_status status reason req = record req {
  request_status = status;
  status_reason = reason;
  job_status = job_status_after status req.job_status;
}

abbrev pub set_job_status : JobStatus → DataRequests → DataRequests
set_job_status status req = record req { job_status = status }

abbrev pub set_data_fetched : String → DataRequests → DataRequests
set_data_fetched price req = record req {
  request_status = RequestStatus.data_ready_to_send;
  price_result = price;
}

abbrev pub set_last_data_fetch : ℕ → DataRequests → DataRequests
set_last_data_fetch block_num req = record req { last_data_fetch_block_number = block_num }

module _ (g : Gorm DataRequests) where
  unfoldable pub insert_new_request :
      String
      → String
      → String
      → String
      → String
      → String
      → ℕ
      → ℕ
      → ℕ
      → ℕ
      → Bool
      → g.Table
      → Option String × g.Table
  insert_new_request provider consumer request_id endpoint endpoint_decoded tx_hash gas_used
        gas_price fee block_number is_adhoc t =
      let (r, t') =
        g.create
          (new_request provider consumer request_id endpoint endpoint_decoded tx_hash gas_used
            gas_price fee block_number is_adhoc)
          t in
      (error_of r, t')

  unfoldable pub update_fulfillment_success :
      String → ℕ → String → ℕ → ℕ → g.Table → Option String × g.Table
  update_fulfillment_success request_id block_number tx_hash gas_used gas_price =
      update_where g (has_request_id request_id)
        (set_success block_number tx_hash gas_used gas_price)

  unfoldable pub update_fulfillment_sent : String → String → ℕ → g.Table → Option String × g.Table
  update_fulfillment_sent request_id tx_hash block_number =
      update_where g (has_request_id request_id) (set_sent tx_hash block_number)

  unfoldable pub increment_fulfillment_attempts : String → g.Table → Option String × g.Table
  increment_fulfillment_attempts request_id = update_where g (has_request_id request_id) add_attempt

  unfoldable pub update_request_status :
      String → RequestStatus → String → g.Table → Option String × g.Table
  update_request_status request_id status reason =
      update_where g (has_request_id request_id) (set_request_status status reason)

  unfoldable pub update_job_status : String → JobStatus → g.Table → Option String × g.Table
  update_job_status request_id status =
      update_where g (has_request_id request_id) (set_job_status status)

  unfoldable pub update_data_fetched : String → String → g.Table → Option String × g.Table
  update_data_fetched request_id price =
      update_where g (has_request_id request_id) (set_data_fetched price)

  unfoldable pub update_last_data_fetch_block_number :
      String → ℕ → g.Table → Option String × g.Table
  update_last_data_fetch_block_number request_id block_num =
      update_where g (has_request_id request_id) (set_last_data_fetch block_num)

-- Only a block above the last one is recorded; a failed query counts as block 0.
unfoldable pub insert_new_to_block : (g : Gorm ToBlocks) → ℕ → g.Table → Option String × g.Table
unfolding get_last_block_num_queried
insert_new_to_block g to_block t =
    let (last, t1) = get_last_block_num_queried g t in
    let (r, t2) = g.create (record no_block { block_num = to_block }) t1 in
    if ltb (value_or no_block last).block_num to_block then (error_of r, t2) else (none, t1)

unfoldable pub add_new_supported_pair :
    (g : Gorm SupportedPairs) → String → String → String → g.Table → Option String × g.Table
add_new_supported_pair g name base target t =
    let (r, t') = g.create (record { id = 0; name = name; base = base; target = target }) t in
    (error_of r, t')

unfoldable pub insert_new_failed_fulfilment :
    (g : Gorm FailedFulfilment)
    → String
    → String
    → ℕ
    → ℕ
    → String
    → g.Table
    → Option String × g.Table
insert_new_failed_fulfilment g request_id tx_hash gas_used gas_price reason t =
    let (r, t') =
      g.create
        (record {
          id = 0;
          request_id = request_id;
          tx_hash = tx_hash;
          gas_used = gas_used;
          gas_price = gas_price;
          fail_reason = reason;
        })
        t in
    (error_of r, t')
