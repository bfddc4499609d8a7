-- ===== src/Chain/Env.antt =====
-- What the chain service calls and the repository does not implement: the Ethereum client, the
-- contract binding, hashes and signatures; with the tables, the price API and the configuration,
-- and the state of the node.
use xfund_router.Common.{ℕ, String, Bool, Option, List, Result}
use xfund_router.Common.Int.{ℤ}
use xfund_router.Models.{DataRequests, ToBlocks, FailedFulfilment}
use xfund_router.Gorm.{Gorm}

abbrev pub Bytes : Type 0
Bytes = List ℕ

-- `types.Receipt` and `types.Transaction`, the fields that are read.
pub record Receipt : Type 0 where
  pub gas_used : ℕ
  pub block_number : ℕ
  pub status : ℕ

pub record Tx : Type 0 where
  pub hash : Bytes
  pub nonce : ℕ
  pub gas_price : ℕ

-- `bind.TransactOpts`, the fields that change; no gas price is `nil`.
pub record TransactOpts : Type 0 where
  pub nonce : ℤ
  pub gas_price : Option ℕ

-- `event.Raw`.
pub record Log : Type 0 where
  pub tx_hash : Bytes
  pub block_number : ℕ

pub record DataRequested : Type 0 where
  pub consumer : Bytes
  pub provider : Bytes
  pub fee : ℕ
  pub payload : Bytes
  pub request_id : Bytes
  pub raw : Log

pub record RequestFulfilled : Type 0 where
  pub request_id : Bytes
  pub raw : Log

-- The connection to the chain, and the binding of the router contract. A filter returns the
-- events that its iterator yields.
pub record Client : Type 1 where
  pub Chain : Type 0
  pub block_number : Chain → Result ℕ × Chain
  pub transaction_receipt : Bytes → Chain → Result Receipt × Chain
  pub transaction_by_hash : Bytes → Chain → Result (Tx × Bool) × Chain
  pub pending_nonce_at : Chain → Result ℕ × Chain
  pub suggest_gas_price : Chain → Result ℕ × Chain
  pub fulfill_request : TransactOpts → Bytes → ℤ → Bytes → Chain → Result Tx × Chain
  pub register_as_provider : TransactOpts → ℤ → Chain → Result Tx × Chain
  pub set_provider_min_fee : TransactOpts → ℤ → Chain → Result Tx × Chain
  pub set_provider_granular_fee : TransactOpts → Bytes → ℤ → Chain → Result Tx × Chain
  pub withdraw : TransactOpts → Bytes → ℕ → Chain → Result Tx × Chain
  pub get_withdrawable_tokens : Chain → Result ℕ × Chain
  pub get_provider_min_fee : Chain → Result ℕ × Chain
  pub get_provider_granular_fee : Bytes → Chain → Result ℕ × Chain
  pub filter_data_requested : ℕ → Chain → Result (List DataRequested) × Chain
  pub filter_request_fulfilled : ℕ → Chain → Result (List RequestFulfilled) × Chain
  pub filter_fulfilled_by_request : ℕ → Bytes → Chain → Result (List RequestFulfilled) × Chain

-- `common`, `crypto` and `solsha3`. `trimmed_text` is `string(common.TrimRightZeroes(b))`, and
-- `big_set_string` the value that `big.Int.SetString(s, 10)` leaves, malformed texts included.
pub record Crypto : Type 0 where
  pub bytes2hex : Bytes → String
  pub from_hex : String → Bytes
  pub hex_to_hash : String → Bytes
  pub hash_hex : Bytes → String
  pub address_hex : Bytes → String
  pub hex_to_address : String → Bytes
  pub trimmed_text : Bytes → String
  pub big_set_string : String → ℤ
  pub solidity_sha3 : Bytes → String → String → Bytes
  pub keccak256 : Bytes → Bytes
  pub sign : Bytes → Result Bytes

-- The price API as the job queue calls it, with an endpoint and a request id.
pub record OooApi : Type 1 where
  pub Api : Type 0
  pub query_adhoc : String → String → Api → Result String × Api
  pub query_finchains_endpoint : String → String → Api → Result String × Api

pub record Env : Type 1 where
  pub requests : Gorm DataRequests
  pub to_blocks : Gorm ToBlocks
  pub failed : Gorm FailedFulfilment
  pub client : Client
  pub api : OooApi
  pub crypto : Crypto
  -- `jobs.wait_confirmations` and `chain.max_gas_price`
  pub wait_confirmations : ℕ
  pub max_gas_price : ℤ

-- A goroutine that `preProcessPendingJob` starts, with the job as it was read.
pub record FetchTask : Type 0 where
  pub job : DataRequests
  pub block_num : ℕ

-- `OoORouterService`, with the tables and connections that it holds. `filter_start` is
-- `historicalFilterOpts.Start`; `spawned` are the goroutines that have not run.
pub record Node (e : Env) : Type 0 where
  pub requests : e.requests.Table
  pub to_blocks : e.to_blocks.Table
  pub failed : e.failed.Table
  pub chain : e.client.Chain
  pub api : e.api.Api
  pub last_block_number : ℕ
  pub prev_tx_nonce : ℕ
  pub transact_opts : TransactOpts
  pub filter_start : ℕ
  pub spawned : List FetchTask
