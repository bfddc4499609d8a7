-- ===== src/Chain/Events.antt =====
-- go-ooo/chain/chain.go: the last block seen, and the handlers of the contract's two events.
pub mod Blocks
use xfund_router.Common.{ℕ, ◌%◌, Bool, false, Result, ok, err, value_or, ltb, ◌==◌, if◌then◌else◌}
use xfund_router.Common.Words.{u64_mod}
use xfund_router.Models.{no_request}
use xfund_router.Models.{ToBlocks}
use xfund_router.Database.Queries.{find_by_request_id}
use xfund_router.Database.Transactions.{
  insert_new_request, update_fulfillment_success, insert_new_to_block,
}
use xfund_router.OooApi.Endpoint.{is_adhoc}
use xfund_router.Chain.Env.{Env, Node, Log, DataRequested, RequestFulfilled}
use xfund_router.Chain.Monad.{
  M, ◌>>=◌, ◌>>◌, pure, try, ignore, gets, modify, on_requests, on_chain, for_each,
}

-- `NewOoORouter`: the block to start from, by the configuration and the last block recorded.
unfoldable pub initial_from_block : ℕ → Result ToBlocks → ℕ
initial_from_block first_block_from_conf tb =
    let from_conf = if ltb 0 first_block_from_conf then first_block_from_conf else 0 in
    elim tb [
      | ok b ↦ if ltb first_block_from_conf b.block_num then b.block_num else from_conf
      | err _ ↦ from_conf
    ]

module _ {e : Env} where
  unfoldable pub record_block : ℕ → Node e → Node e
  record_block block_number n =
      let (_, t) = insert_new_to_block e.to_blocks block_number n.to_blocks in
      record n { last_block_number = block_number; to_blocks = t }

  -- Only a higher block is recorded; an error of the database is only logged.
  unfoldable pub set_last_block_number : ℕ → Node e → Node e
  set_last_block_number block_number n =
      if ltb n.last_block_number block_number then record_block block_number n else n

  -- The gas price and the gas used; a query that fails leaves 0.
  unfoldable pub process_gas_usage : Log → M e (ℕ × ℕ)
  process_gas_usage ev_log = do
    receipt ← on_chain (e.client.transaction_receipt ev_log.tx_hash)
    tx ← on_chain (e.client.transaction_by_hash ev_log.tx_hash)
    pure (
      elim tx [ ok (t, _) ↦ t.gas_price % u64_mod | err _ ↦ 0 ],
      elim receipt [ ok r ↦ r.gas_used | err _ ↦ 0 ],
    )

  -- `_ = o.db.InsertNewRequest(…)`.
  unfoldable pub insert_event : DataRequested → ℕ → ℕ → M e (Unit {0})
  insert_event event gas_used gas_price =
      let endpoint = e.crypto.trimmed_text event.payload in
      ignore (
        on_requests (
          insert_new_request e.requests (e.crypto.address_hex event.provider)
            (e.crypto.address_hex event.consumer) (e.crypto.bytes2hex event.request_id)
            (e.crypto.bytes2hex event.payload) endpoint (e.crypto.hash_hex event.raw.tx_hash)
            gas_used gas_price (event.fee % u64_mod) event.raw.block_number
            (value_or false (is_adhoc endpoint))))

  unfoldable pub process_incoming_requests : DataRequested → M e (Unit {0})
  process_incoming_requests event = do
    (gas_price, gas_used) ← process_gas_usage event.raw
    res ← on_requests (find_by_request_id e.requests (e.crypto.bytes2hex event.request_id))
    (if (value_or no_request res).id == 0 then insert_event event gas_used gas_price else pure tt)
    modify (set_last_block_number event.raw.block_number)

  unfoldable pub process_incoming_fulfilments : RequestFulfilled → M e (Unit {0})
  process_incoming_fulfilments event = do
    let request_id = e.crypto.bytes2hex event.request_id
    (gas_price, gas_used) ← process_gas_usage event.raw
    res ← on_requests (find_by_request_id e.requests request_id)
    (if (value_or no_request res).id == 0
        then pure tt
        else ignore (
            on_requests (
              update_fulfillment_success e.requests request_id event.raw.block_number
                (e.crypto.hash_hex event.raw.tx_hash) gas_used gas_price)))
    modify (set_last_block_number event.raw.block_number)

  -- All missed requests first, then all missed fulfilments; a failed query ends the pass.
  unfoldable pub get_historical_events : M e (Unit {0})
  get_historical_events = do
    from ← gets (λ n. n.filter_start)
    requests ← try (on_chain (e.client.filter_data_requested from))
    for_each requests process_incoming_requests
    fulfilments ← try (on_chain (e.client.filter_request_fulfilled from))
    for_each fulfilments process_incoming_fulfilments

  unfoldable pub record_current : Result ℕ → M e (Unit {0})
  record_current (ok b) = modify (set_last_block_number b)
  record_current (err _) = pure tt

  -- `Shutdown`: the current block is recorded where there is a subscription to the requests.
  unfoldable pub shutdown : Bool → M e (Unit {0})
  shutdown subscribed = do
    current ← on_chain e.client.block_number
    (if subscribed then record_current current else pure tt)
