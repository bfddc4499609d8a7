-- ===== src/Chain/Isolation.antt =====
-- go-ooo/chain/jobs.go: what the work on one job does to the rows of the others.
use xfund_router.Common.{ℕ, ◌≡◌, refl, ap, ◌∙◌, String, false, Result, ok, err, str_eq}
use xfund_router.Models.{DataRequests, RequestStatus}
use xfund_router.Gorm.{IsGorm}
use xfund_router.Gorm.Update.{update_where, Distinct-update_where, find?-update_where_ne}
use xfund_router.Database.Schemas.{request_schema, has_request_id}
use xfund_router.Database.Transactions.{
  set_request_status, set_data_fetched, set_last_data_fetch, add_attempt, set_sent,
  update_request_status, increment_fulfillment_attempts, update_last_data_fetch_block_number,
  update_data_fetched, update_fulfillment_sent,
}
use xfund_router.Chain.Env.{Env, Node, Tx, Bytes}
use xfund_router.Chain.Monad.{on_requests, on_api, on_chain, modify}
use xfund_router.Chain.Keeps.{Keeps, Keeps->>=, Keeps-check, Keeps-ignore, Keeps-if}
use xfund_router.Chain.Caller.{renew_transact_opts}
use xfund_router.Chain.Fulfil.{
  set_status, query, store_price, process_fulfillment_fetch_data, send_signed, record_sent,
  after_send, after_sign, send_fulfillment_tx, sign_price,
}
use xfund_router.Chain.Invariant.Settled.{has_request_id_apart}
use xfund_router.Chain.Outcome.{Has}
use xfund_router.Chain.Outcome.Fetch.{renew_keeps, set_next_tx_nonce_keeps}

module _ {e : Env} (law : IsGorm request_schema e.requests) (q : String) (x : DataRequests) where
  update_spares :
      (k : String) (f : DataRequests → DataRequests)
      → ((r : DataRequests) → (f r).id ≡ r.id)
      → ((r : DataRequests) → (f r).request_id ≡ r.request_id)
      → str_eq k q ≡ false
      → Keeps (Has {e = e} q x) (on_requests (update_where e.requests (has_request_id k) f))
  unfolding on_requests
  update_spares k f same_id same_request apart = record {
    run = λ n h. record {
      distinct =
          Distinct-update_where e.requests request_schema law (has_request_id k) f same_id
            n.requests h.distinct;
      found =
          find?-update_where_ne e.requests request_schema law (has_request_id k) f same_id
            (has_request_id q) n.requests h.distinct (λ r. ap (λ z. str_eq z q) (same_request r))
            (λ r t. has_request_id_apart k q r t apart)
          ∙ h.found;
    };
  }

  renew_spares : Keeps (Has {e = e} q x) (renew_transact_opts)
  renew_spares = record {
    run = λ n h. record {
      distinct = rw (renew_keeps n).0 h.distinct;
      found = rw (renew_keeps n).0 h.found;
    };
  }

  set_status_spares :
      (k : String) (s : RequestStatus) (m : String)
      → str_eq k q ≡ false
      → Keeps (Has {e = e} q x) (set_status k s m)
  unfolding set_status update_request_status
  set_status_spares k s m apart =
      Keeps-ignore _ (update_spares k (set_request_status s m) (λ r. refl) (λ r. refl) apart)

  query_spares : (job : DataRequests) → Keeps (Has {e = e} q x) (query job)
  unfolding query on_api
  query_spares job =
      Keeps-if job.is_adhoc _ _
        (record { run = λ n h. record { distinct = h.distinct; found = h.found } })
        (record { run = λ n h. record { distinct = h.distinct; found = h.found } })

  store_price_spares :
      (k : String) (r : Result String)
      → str_eq k q ≡ false
      → Keeps (Has {e = e} q x) (store_price k r)
  unfolding store_price update_data_fetched
  store_price_spares k (err m) apart = set_status_spares k RequestStatus.api_error m apart
  store_price_spares k (ok price) apart =
      Keeps-if (str_eq price "") _ _
        (set_status_spares k RequestStatus.api_error "empty price returned" apart)
        (Keeps-ignore _ (update_spares k (set_data_fetched price) (λ r. refl) (λ r. refl) apart))

  fetch_spares :
      (job : DataRequests) (block_num : ℕ)
      → str_eq job.request_id q ≡ false
      → Keeps (Has {e = e} q x) (process_fulfillment_fetch_data job block_num)
  unfolding process_fulfillment_fetch_data update_request_status increment_fulfillment_attempts
      update_last_data_fetch_block_number
  fetch_spares job block_num apart =
      let k = job.request_id in
      Keeps->>= _ _ (Keeps-check _ renew_spares) λ _.
        Keeps->>= _ _
          (Keeps-check _ (
            update_spares k (set_request_status RequestStatus.fetching_data "") (λ r. refl)
              (λ r. refl) apart))
          λ _.
            Keeps->>= _ _
              (Keeps-check _ (update_spares k add_attempt (λ r. refl) (λ r. refl) apart))
              λ _.
                Keeps->>= _ _
                  (Keeps-check _
                    (update_spares k (set_last_data_fetch block_num) (λ r. refl) (λ r. refl) apart))
                  λ _. Keeps->>= _ _ (query_spares job) λ r. store_price_spares k r apart

  after_send_spares :
      (job : DataRequests) (block_num : ℕ) (a : Result Tx)
      → str_eq job.request_id q ≡ false
      → Keeps (Has {e = e} q x) (after_send job block_num a)
  unfolding after_send record_sent update_fulfillment_sent modify
  after_send_spares job block_num (err m) apart =
      set_status_spares job.request_id RequestStatus.tx_failed m apart
  after_send_spares job block_num (ok tx) apart =
      let k = job.request_id in
      Keeps->>= _ _ (set_status_spares k RequestStatus.tx_sent "" apart) λ _.
        Keeps->>= _ _
          (Keeps-ignore _ (
            update_spares k (set_sent (e.crypto.hash_hex tx.hash) block_num) (λ r. refl) (λ r. refl)
              apart))
          λ _.
            Keeps->>= _ _
              (record {
                run = λ n h. record {
                  distinct = rw (set_next_tx_nonce_keeps tx.nonce false n).0 h.distinct;
                  found = rw (set_next_tx_nonce_keeps tx.nonce false n).0 h.found;
                };
              })
              λ _. Keeps-ignore _ renew_spares

  after_sign_spares :
      (job : DataRequests) (block_num : ℕ) (a : Result Bytes)
      → str_eq job.request_id q ≡ false
      → Keeps (Has {e = e} q x) (after_sign job block_num a)
  unfolding after_sign send_signed on_chain
  after_sign_spares job block_num (err m) apart =
      set_status_spares job.request_id RequestStatus.tx_failed m apart
  after_sign_spares job block_num (ok signature) apart =
      Keeps->>= _ _ (record { run = λ n h. record { distinct = h.distinct; found = h.found } })
        λ a. after_send_spares job block_num a apart

  -- With a database that keeps its promises and no primary key twice, fetching the data of a job
  -- and sending its fulfilment leave the row of every other request as it was, however they end:
  -- whichever calls of the database, the chain, the API and the signature fail.
  pub jobs_spare :
      (job : DataRequests) (block_num : ℕ) (n : Node e)
      → str_eq job.request_id q ≡ false
      → Has q x n
      → Has q x (process_fulfillment_fetch_data job block_num n).1
        × Has q x (send_fulfillment_tx job block_num n).1
  unfolding send_fulfillment_tx
  jobs_spare job block_num n apart h = (
    (fetch_spares job block_num apart).run n h,
    (after_sign_spares job block_num (sign_price e job) apart).run n h,
  )
