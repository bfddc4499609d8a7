-- ===== src/Chain/Outcome/Send.antt =====
-- The outcome of `sendFulfillmentTx`.
use xfund_router.Common.{ℕ, ◌≡◌, refl, String, true, false, Option, none, some, Result, ok, err}
use xfund_router.Models.{DataRequests, RequestStatus}
use xfund_router.Gorm.{IsGorm}
use xfund_router.Gorm.Available.{IsUp}
use xfund_router.Database.Schemas.{request_schema}
use xfund_router.Database.Transactions.{set_sent, update_fulfillment_sent}
use xfund_router.Chain.Env.{Env, Node, Tx, Bytes}
use xfund_router.Chain.Monad.{◌>>=◌, pure, on_chain, on_requests, modify, ignore}
use xfund_router.Chain.Caller.{renew_transact_opts, nonce_renewed, price_renewed, set_next_tx_nonce}
use xfund_router.Chain.Fulfil.{
  bytes32, with_recovery, sign_price, send_signed, after_send, after_sign, record_sent,
  send_fulfillment_tx,
}
use xfund_router.Chain.Outcome.{
  Gives, Gives->>=, Gives-weaken, Gives-ignore, Has, Leaves, Has-update_where, Has-set_status,
}
use xfund_router.Chain.Outcome.Fetch.{renew_keeps, set_next_tx_nonce_keeps}

-- What the chain is asked to do with a signature, and its answer in the node `n`.
abbrev pub answer_to : (e : Env) → DataRequests → Node e → Result Bytes → Result Tx
answer_to e job n (err reason) = err reason
answer_to e job n (ok signature) =
    (e.client.fulfill_request n.transact_opts (bytes32 (e.crypto.from_hex job.request_id))
      (e.crypto.big_set_string job.price_result) (with_recovery signature) n.chain).0

-- The row once the transaction is sent, or has been refused.
abbrev pub submitted : (e : Env) → ℕ → Result Tx → DataRequests → DataRequests
submitted e block_num (err reason) r = record r {
  request_status = RequestStatus.tx_failed;
  status_reason = reason;
}
submitted e block_num (ok tx) r = record r {
  request_status = RequestStatus.tx_sent;
  status_reason = "";
  fulfill_tx_hash = e.crypto.hash_hex tx.hash;
  last_fulfill_sent_block_number = block_num;
}

module _ {e : Env} where
  price_renewed_total :
      (r : Result ℕ) (n : Node e) → (a : Option String) × ((price_renewed r n).0 ≡ some a)
  unfolding price_renewed ◌>>=◌ pure modify
  price_renewed_total (err m) n = (some m, refl)
  price_renewed_total (ok p) n = (none, refl)

  nonce_renewed_total :
      (r : Result ℕ) (n : Node e) → (a : Option String) × ((nonce_renewed r n).0 ≡ some a)
  unfolding nonce_renewed on_chain ◌>>=◌ pure modify
  nonce_renewed_total (err m) n = (some m, refl)
  nonce_renewed_total (ok nonce) n =
      let n1 = set_next_tx_nonce nonce true n in
      price_renewed_total (e.client.suggest_gas_price n1.chain).0
        (record n1 { chain = (e.client.suggest_gas_price n1.chain).1 })

  pub renew_total : (n : Node e) → (a : Option String) × ((renew_transact_opts n).0 ≡ some a)
  unfolding renew_transact_opts on_chain ◌>>=◌
  renew_total n =
      nonce_renewed_total (e.client.pending_nonce_at n.chain).0
        (record n { chain = (e.client.pending_nonce_at n.chain).1 })

  moved :
      {k : String} {r : DataRequests} {n n' : Node e}
      → n'.requests ≡ n.requests
      → Has k r n
      → Has k r n'
  moved same h = record { distinct = rw same h.distinct; found = rw same h.found }

  renew-Gives :
      (k : String) (r : DataRequests) (n : Node e)
      → Has k r n
      → Gives tt (ignore renew_transact_opts) n (Has k r)
  renew-Gives k r n h =
      let (a, total) = renew_total n in
      Gives-ignore (record { value = total; after = moved (renew_keeps n).0 h })

  nonce-Gives :
      (k : String) (r : DataRequests) (nonce : ℕ) (n : Node e)
      → Has k r n
      → Gives tt (modify (set_next_tx_nonce nonce false)) n (Has k r)
  unfolding modify
  nonce-Gives k r nonce n h = record {
    value = refl;
    after = moved (set_next_tx_nonce_keeps nonce false n).0 h;
  }

  module _ (law : IsGorm request_schema e.requests) (up : IsUp request_schema e.requests) where
    Has-sent :
        (k : String) (r : DataRequests) (tx_hash : String) (block_num : ℕ) (n : Node e)
        → Has k r n
        → Gives tt
            (ignore (on_requests (update_fulfillment_sent e.requests k tx_hash block_num)))
            n
            (Leaves k (set_sent tx_hash block_num r) n)
    unfolding update_fulfillment_sent
    Has-sent k r tx_hash block_num n h =
        Gives-ignore
          (Has-update_where law up k r (set_sent tx_hash block_num) n (λ x. refl) (λ x. refl) h)

    after_send-Gives :
        (job r : DataRequests) (block_num : ℕ) (a : Result Tx) (n : Node e)
        → Has job.request_id r n
        → Gives tt (after_send job block_num a) n (Has job.request_id (submitted e block_num a r))
    unfolding after_send record_sent
    after_send-Gives job r block_num (err reason) n h =
        Gives-weaken (Has-set_status law up job.request_id r RequestStatus.tx_failed reason n h)
          (λ n' v. v.has)
    after_send-Gives job r block_num (ok tx) n h =
        let k = job.request_id in
        Gives->>= _ (Has-set_status law up k r RequestStatus.tx_sent "" n h) (λ n1 v1.
          Gives->>= _ (Has-sent k _ (e.crypto.hash_hex tx.hash) block_num n1 v1.has) (λ n2 v2.
            Gives->>= _ (nonce-Gives k _ tx.nonce n2 v2.has) (λ n3 v3. renew-Gives k _ n3 v3)))

    after_sign-Gives :
        (job r : DataRequests) (block_num : ℕ) (a : Result Bytes) (n : Node e)
        → Has job.request_id r n
        → Gives tt
            (after_sign job block_num a)
            n
            (Has job.request_id (submitted e block_num (answer_to e job n a) r))
    unfolding after_sign send_signed on_chain
    after_sign-Gives job r block_num (err reason) n h =
        Gives-weaken (Has-set_status law up job.request_id r RequestStatus.tx_failed reason n h)
          (λ n' v. v.has)
    after_sign-Gives job r block_num (ok signature) n h =
        Gives->>= (after_send job block_num)
          (record { value = refl; after = record { distinct = h.distinct; found = h.found } })
          (λ n1 v1. after_send-Gives job r block_num _ n1 v1)

    -- With a database that answers, sending the fulfilment of a job that is in the table ends, and
    -- its row is then as it was but for these columns: TX SENT, no reason, the hash of the
    -- transaction and the block, if the signature was made and the chain took the transaction with
    -- that signature, and TX FAILED with the reason otherwise.
    pub send_fulfillment_tx-Gives :
        (job r : DataRequests) (block_num : ℕ) (n : Node e)
        → Has job.request_id r n
        → Gives tt
            (send_fulfillment_tx job block_num)
            n
            (Has job.request_id (submitted e block_num (answer_to e job n (sign_price e job)) r))
    unfolding send_fulfillment_tx
    send_fulfillment_tx-Gives job r block_num n h =
        after_sign-Gives job r block_num (sign_price e job) n h
