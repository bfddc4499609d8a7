-- ===== src/Models.antt =====
-- The rows that the node keeps: go-ooo/database/models. `gorm.Model`'s time stamps are left out.
pub mod Tokens
use xfund_router.Common.{ℕ, String, Bool}

-- The request status constants; UNKNOWN is the zero value.
pub data RequestStatus : Type 0 where
  unknown initialised fetching_data data_ready_to_send tx_sent api_error tx_failed success
        fulfilment_failed :
      RequestStatus

-- The job status constants.
pub data JobStatus : Type 0 where
  unknown pending success fail : JobStatus

pub record DataRequests : Type 0 where
  pub id : ℕ
  pub consumer : String
  pub provider : String
  pub request_id : String
  pub is_adhoc : Bool
  pub request_block_number : ℕ
  pub last_data_fetch_block_number : ℕ
  pub request_tx_hash : String
  pub request_gas_used : ℕ
  pub request_gas_price : ℕ
  pub fee : ℕ
  pub endpoint : String
  pub endpoint_decoded : String
  pub price_result : String
  pub last_fulfill_sent_block_number : ℕ
  pub fulfill_confirmed_block_number : ℕ
  pub fulfill_tx_hash : String
  pub fulfill_gas_used : ℕ
  pub fulfill_gas_price : ℕ
  pub fulfillment_attempts : ℕ
  pub job_status : JobStatus
  pub request_status : RequestStatus
  pub status_reason : String

pub record ToBlocks : Type 0 where
  pub id : ℕ
  pub block_num : ℕ

pub record FailedFulfilment : Type 0 where
  pub id : ℕ
  pub request_id : String
  pub tx_hash : String
  pub gas_used : ℕ
  pub gas_price : ℕ
  pub fail_reason : String

-- `DataRequests{}`.
abbrev pub no_request : DataRequests
no_request = record {
  id = 0;
  consumer = "";
  provider = "";
  request_id = "";
  is_adhoc = Bool.false;
  request_block_number = 0;
  last_data_fetch_block_number = 0;
  request_tx_hash = "";
  request_gas_used = 0;
  request_gas_price = 0;
  fee = 0;
  endpoint = "";
  endpoint_decoded = "";
  price_result = "";
  last_fulfill_sent_block_number = 0;
  fulfill_confirmed_block_number = 0;
  fulfill_tx_hash = "";
  fulfill_gas_used = 0;
  fulfill_gas_price = 0;
  fulfillment_attempts = 0;
  job_status = JobStatus.unknown;
  request_status = RequestStatus.unknown;
  status_reason = "";
}

-- `ToBlocks{}`.
abbrev pub no_block : ToBlocks
no_block = record { id = 0; block_num = 0 }

abbrev pub is_pending : JobStatus → Bool
is_pending JobStatus.pending = Bool.true
is_pending _ = Bool.false

abbrev pub is_success : JobStatus → Bool
is_success JobStatus.success = Bool.true
is_success _ = Bool.false

unfoldable pub request_status_string : RequestStatus → String
request_status_string RequestStatus.unknown = "UNKNOWN"
request_status_string RequestStatus.initialised = "INITIALISED"
request_status_string RequestStatus.fetching_data = "FETCHING DATA"
request_status_string RequestStatus.data_ready_to_send = "DATA READY"
request_status_string RequestStatus.tx_sent = "SENT"
request_status_string RequestStatus.api_error = "API REQUEST FAILED"
request_status_string RequestStatus.tx_failed = "TX FAILED"
request_status_string RequestStatus.success = "SUCCESS"
request_status_string RequestStatus.fulfilment_failed = "FULFILMENT FAILED"

unfoldable pub job_status_string : JobStatus → String
job_status_string JobStatus.unknown = "UNKNOWN"
job_status_string JobStatus.pending = "PENDING"
job_status_string JobStatus.success = "SUCCESS"
job_status_string JobStatus.fail = "FAIL"

-- go-ooo/database/models/supported_pairs.go.
pub record SupportedPairs : Type 0 where
  pub id : ℕ
  pub name : String
  pub base : String
  pub target : String

-- `SupportedPairs{}`.
abbrev pub no_pair : SupportedPairs
no_pair = record { id = 0; name = ""; base = ""; target = "" }
