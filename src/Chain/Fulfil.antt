-- ===== src/Chain/Fulfil.antt =====
-- go-ooo/chain/jobs.go: the two halves of a fulfilment, fetching the data and sending it.
use Prim.Native.Char.{code}
use xfund_router.Common.{
  ℕ, ◌+◌, ◌%◌, String, false, [], ◌∷◌, ◌++◌, Result, if◌then◌else◌, str_eq, take, replicate, set,
  get_or,
}
use xfund_router.Models.{DataRequests, RequestStatus}
use xfund_router.Database.Transactions.{
  update_request_status, update_fulfillment_sent, increment_fulfillment_attempts,
  update_last_data_fetch_block_number, update_data_fetched, insert_new_failed_fulfilment,
}
use xfund_router.Chain.Env.{Env, Bytes, Tx}
use xfund_router.Chain.Monad.{
  M, ◌>>=◌, ◌>>◌, check, ignore, modify, on_requests, on_failed, on_chain, on_api,
}
use xfund_router.Chain.Caller.{set_next_tx_nonce, renew_transact_opts}

-- `copy(dst[:], b)` into 32 zero bytes.
abbrev pub bytes32 : Bytes → Bytes
bytes32 b = take 32 (b ++ replicate 32 0)

abbrev codes : String → Bytes
codes String.[] = []
codes (String.◌∷◌ c s) = code c ∷ codes s

-- `"\x19Ethereum Signed Message:\n32" + hash`.
abbrev pub signed_message : Bytes → Bytes
signed_message hash = (0x19 ∷ codes "Ethereum Signed Message:") ++ ((0x0a ∷ codes "32") ++ hash)

-- The recovery byte: `signatureBytes[64] = uint8(…) + 27`.
abbrev pub with_recovery : Bytes → Bytes
with_recovery signature = set signature 64 ((get_or signature 64 0 + 27) % 256)

-- The signature over the request id, the price and the consumer.
unfoldable pub sign_price : (e : Env) → DataRequests → Result Bytes
sign_price e job =
    let hash =
      e.crypto.solidity_sha3 (e.crypto.from_hex job.request_id) job.price_result job.consumer in
    e.crypto.sign (e.crypto.keccak256 (signed_message hash))

module _ {e : Env} where
  unfoldable pub set_status : String → RequestStatus → String → M e (Unit {0})
  set_status request_id status reason =
      ignore (on_requests (update_request_status e.requests request_id status reason))

  unfoldable pub add_failure : String → String → ℕ → ℕ → String → M e (Unit {0})
  add_failure request_id tx_hash gas_used gas_price reason = ignore (
      on_failed
        (insert_new_failed_fulfilment e.failed request_id tx_hash gas_used gas_price reason))

  -- The API that the job asks.
  unfoldable pub query : DataRequests → M e (Result String)
  query job =
      if job.is_adhoc
      then on_api (e.api.query_adhoc job.endpoint_decoded job.request_id)
      else on_api (e.api.query_finchains_endpoint job.endpoint_decoded job.request_id)

  -- What is done with the answer.
  unfoldable pub store_price : String → Result String → M e (Unit {0})
  store_price request_id (Result.err reason) = set_status request_id RequestStatus.api_error reason
  store_price request_id (Result.ok price) =
      if str_eq price ""
      then set_status request_id RequestStatus.api_error "empty price returned"
      else ignore (on_requests (update_data_fetched e.requests request_id price))

  unfoldable pub process_fulfillment_fetch_data : DataRequests → ℕ → M e (Unit {0})
  process_fulfillment_fetch_data job current_block_num = do
    check renew_transact_opts
    check (
        on_requests
          (update_request_status e.requests job.request_id RequestStatus.fetching_data ""))
    check (on_requests (increment_fulfillment_attempts e.requests job.request_id))
    check (
        on_requests
          (update_last_data_fetch_block_number e.requests job.request_id current_block_num))
    price ← query job
    store_price job.request_id price

  unfoldable pub send_signed : DataRequests → Bytes → M e (Result Tx)
  send_signed job signature n =
      on_chain
        (e.client.fulfill_request n.transact_opts (bytes32 (e.crypto.from_hex job.request_id))
          (e.crypto.big_set_string job.price_result) (with_recovery signature))
        n

  unfoldable pub record_sent : DataRequests → ℕ → Tx → M e (Unit {0})
  record_sent job current_block_num tx = do
    set_status job.request_id RequestStatus.tx_sent ""
    ignore (
        on_requests (
          update_fulfillment_sent e.requests job.request_id (e.crypto.hash_hex tx.hash)
            current_block_num))
    modify (set_next_tx_nonce tx.nonce false)
    ignore renew_transact_opts

  -- What is done with the outcome of the transaction, and of the signature.
  unfoldable pub after_send : DataRequests → ℕ → Result Tx → M e (Unit {0})
  after_send job current_block_num (Result.err reason) =
      set_status job.request_id RequestStatus.tx_failed reason
  after_send job current_block_num (Result.ok tx) = record_sent job current_block_num tx

  unfoldable pub after_sign : DataRequests → ℕ → Result Bytes → M e (Unit {0})
  after_sign job current_block_num (Result.err reason) =
      set_status job.request_id RequestStatus.tx_failed reason
  after_sign job current_block_num (Result.ok signature) =
      send_signed job signature >>= after_send job current_block_num

  unfoldable pub send_fulfillment_tx : DataRequests → ℕ → M e (Unit {0})
  send_fulfillment_tx job current_block_num = after_sign job current_block_num (sign_price e job)
