-- ===== src/Chain/Outcome/Fetch.antt =====
-- The outcome of `processFulfillmentFetchData`.
use xfund_router.Common.{
  ℕ, ◌+◌, ◌%◌, ◌^◌, ◌≡◌, refl, ◌∙◌, String, Bool, true, none, some, Result, ok, err, if◌then◌else◌,
  str_eq, Bool-cases, inl, inr, arith, ap,
}
use xfund_router.Common.Words.{add64}
use xfund_router.Models.{DataRequests, RequestStatus}
use xfund_router.Gorm.{IsGorm}
use xfund_router.Gorm.Available.{IsUp}
use xfund_router.Database.Schemas.{request_schema}
use xfund_router.Database.Transactions.{
  set_request_status, set_data_fetched, set_last_data_fetch, add_attempt, update_request_status,
  increment_fulfillment_attempts, update_last_data_fetch_block_number, update_data_fetched,
}
use xfund_router.Chain.Env.{Env, Node}
use xfund_router.Chain.Monad.{◌>>=◌, pure, on_api, on_requests, on_chain, modify, check}
use xfund_router.Chain.Caller.{
  renew_transact_opts, nonce_renewed, price_renewed, set_next_tx_nonce, set_gas_price,
}
use xfund_router.Chain.Fulfil.{query, store_price, process_fulfillment_fetch_data}
use xfund_router.Chain.Outcome.{
  Gives, Gives-weaken, Gives->>=, Gives-check, Gives-ignore, Has, Leaves, Has-update_where,
  Has-set_status,
}

-- The answer of the price API that the job asks.
abbrev pub answer : (e : Env) → DataRequests → e.api.Api → Result String
answer e job a =
    if job.is_adhoc
    then (e.api.query_adhoc job.endpoint_decoded job.request_id a).0
    else (e.api.query_finchains_endpoint job.endpoint_decoded job.request_id a).0

-- The row once a fetch has begun.
abbrev pub fetching : ℕ → DataRequests → DataRequests
fetching block_num r = record r {
  request_status = RequestStatus.fetching_data;
  status_reason = "";
  fulfillment_attempts = (r.fulfillment_attempts + 1) % 2 ^ 64;
  last_data_fetch_block_number = block_num;
}

-- The row once the answer is in.
abbrev pub answered : Result String → DataRequests → DataRequests
answered (err reason) r = record r {
  request_status = RequestStatus.api_error;
  status_reason = reason;
}
answered (ok price) r =
    if str_eq price ""
    then record r {
      request_status = RequestStatus.api_error;
      status_reason = "empty price returned";
    }
    else record r { request_status = RequestStatus.data_ready_to_send; price_result = price }

-- The chain answers with the account's nonce and a gas price.
pub record CanRenew (e : Env) (c : e.client.Chain) : Type 0 where
  pub nonce : ℕ
  pub gas_price : ℕ
  pub has_nonce : (e.client.pending_nonce_at c).0 ≡ ok nonce
  pub has_gas_price : (e.client.suggest_gas_price (e.client.pending_nonce_at c).1).0 ≡ ok gas_price

module _ {e : Env} where
  pub set_next_tx_nonce_keeps :
      (nonce : ℕ) (pending : Bool) (n : Node e)
      → ((set_next_tx_nonce nonce pending n).requests ≡ n.requests)
        × ((set_next_tx_nonce nonce pending n).api ≡ n.api)
  unfolding set_next_tx_nonce
  set_next_tx_nonce_keeps nonce pending n = ground arith

  price_renewed_keeps :
      (r : Result ℕ) (n : Node e)
      → ((price_renewed r n).1.requests ≡ n.requests) × ((price_renewed r n).1.api ≡ n.api)
  unfolding price_renewed ◌>>=◌ pure modify set_gas_price
  price_renewed_keeps (err m) n = (refl, refl)
  price_renewed_keeps (ok p) n = (refl, refl)

  nonce_renewed_keeps :
      (r : Result ℕ) (n : Node e)
      → ((nonce_renewed r n).1.requests ≡ n.requests) × ((nonce_renewed r n).1.api ≡ n.api)
  unfolding nonce_renewed on_chain ◌>>=◌ pure modify
  nonce_renewed_keeps (err m) n = (refl, refl)
  nonce_renewed_keeps (ok nonce) n =
      let n1 = set_next_tx_nonce nonce true n in
      let k = set_next_tx_nonce_keeps nonce true n in
      let h =
        price_renewed_keeps (e.client.suggest_gas_price n1.chain).0
          (record n1 { chain = (e.client.suggest_gas_price n1.chain).1 }) in
      (h.0 ∙ k.0, h.1 ∙ k.1)

  -- Renewing the options touches the options and the chain only.
  pub renew_keeps :
      (n : Node e)
      → ((renew_transact_opts n).1.requests ≡ n.requests) × ((renew_transact_opts n).1.api ≡ n.api)
  unfolding renew_transact_opts on_chain ◌>>=◌
  renew_keeps n =
      nonce_renewed_keeps (e.client.pending_nonce_at n.chain).0
        (record n { chain = (e.client.pending_nonce_at n.chain).1 })

  set_next_tx_nonce_chain :
      (nonce : ℕ) (pending : Bool) (n : Node e)
      → (set_next_tx_nonce nonce pending n).chain ≡ n.chain
  unfolding set_next_tx_nonce
  set_next_tx_nonce_chain nonce pending n = ground arith

  pub renew_succeeds : (n : Node e) → CanRenew e n.chain → (renew_transact_opts n).0 ≡ some none
  unfolding renew_transact_opts nonce_renewed price_renewed on_chain ◌>>=◌ pure modify
  renew_succeeds n c =
      let n1 : Node e = record n { chain = (e.client.pending_nonce_at n.chain).1 } in
      let price : (e.client.suggest_gas_price (set_next_tx_nonce c.nonce true n1).chain).0
          ≡ ok c.gas_price =
        rw (set_next_tx_nonce_chain c.nonce true n1) c.has_gas_price in
      rw (c.has_nonce, nonce_renewed) (rw (price, price_renewed) refl)

  query-Gives :
      (job : DataRequests) (n : Node e) (k : String) (r : DataRequests)
      → Has k r n
      → Gives (answer e job n.api) (query job) n (Has k r)
  unfolding query on_api
  query-Gives job n k r h = elim (Bool-cases job.is_adhoc) [
    | inl q ↦ record {
      value = rw (q, query) refl;
      after = rw (q, query) (record { distinct = h.distinct; found = h.found });
    }
    | inr q ↦ record {
      value = rw (q, query) refl;
      after = rw (q, query) (record { distinct = h.distinct; found = h.found });
    }
  ]

  module _ (law : IsGorm request_schema e.requests) (up : IsUp request_schema e.requests) where
    Has-update_data_fetched :
        (k : String) (r : DataRequests) (price : String) (n : Node e)
        → Has k r n
        → Gives none
            (on_requests (update_data_fetched e.requests k price))
            n
            (Leaves k (set_data_fetched price r) n)
    unfolding update_data_fetched
    Has-update_data_fetched k r price n h =
        Has-update_where law up k r (set_data_fetched price) n (λ x. refl) (λ x. refl) h

    Has-begin :
        (k : String) (r : DataRequests) (n : Node e)
        → Has k r n
        → Gives tt
            (check
              (on_requests (update_request_status e.requests k RequestStatus.fetching_data "")))
            n
            (Leaves k (set_request_status RequestStatus.fetching_data "" r) n)
    unfolding update_request_status
    Has-begin k r n h = Gives-check (
        Has-update_where law up k r (set_request_status RequestStatus.fetching_data "") n
          (λ x. refl) (λ x. refl) h)

    Has-increment :
        (k : String) (r : DataRequests) (n : Node e)
        → Has k r n
        → Gives tt
            (check (on_requests (increment_fulfillment_attempts e.requests k)))
            n
            (Leaves k (add_attempt r) n)
    unfolding increment_fulfillment_attempts
    Has-increment k r n h =
        Gives-check (Has-update_where law up k r add_attempt n (λ x. refl) (λ x. refl) h)

    Has-last_fetch :
        (k : String) (r : DataRequests) (block_num : ℕ) (n : Node e)
        → Has k r n
        → Gives tt
            (check (on_requests (update_last_data_fetch_block_number e.requests k block_num)))
            n
            (Leaves k (set_last_data_fetch block_num r) n)
    unfolding update_last_data_fetch_block_number
    Has-last_fetch k r block_num n h =
        Gives-check
          (Has-update_where law up k r (set_last_data_fetch block_num) n (λ x. refl) (λ x. refl) h)

    store_price-Gives :
        (k : String) (r : DataRequests) (a : Result String) (n : Node e)
        → Has k r n
        → Gives tt (store_price k a) n (Has k (answered a r))
    unfolding store_price
    store_price-Gives k r (err reason) n h =
        Gives-weaken (Has-set_status law up k r RequestStatus.api_error reason n h) (λ n' v. v.has)
    store_price-Gives k r (ok price) n h = elim (Bool-cases (str_eq price "")) [
      | inl q ↦ rw q (
          Gives-weaken
            (Has-set_status law up k r RequestStatus.api_error "empty price returned" n h)
            (λ n' v. v.has))
      | inr q ↦
          rw q (Gives-ignore (Gives-weaken (Has-update_data_fetched k r price n h) (λ n' v. v.has)))
    ]

    renewal-Gives :
        (k : String) (r : DataRequests) (n : Node e)
        → Has k r n
        → CanRenew e n.chain
        → Gives tt (check renew_transact_opts) n (λ n'. Has k r n' × (n'.api ≡ n.api))
    renewal-Gives k r n h renewed =
        let same = renew_keeps n in
        Gives-check (record {
          value = renew_succeeds n renewed;
          after = (record { distinct = rw same.0 h.distinct; found = rw same.0 h.found }, same.1);
        })

    -- With a database that answers and a chain that reports a nonce and a gas price, fetching the
    -- data of a job that is in the table ends, and its row is then as it was but for these
    -- columns: one attempt more, as a uint64, the block of the fetch, and for the answer of the
    -- API that the job asks, DATA READY with the price and no reason, or API ERROR with the reason
    -- for an error or an empty price.
    pub process_fulfillment_fetch_data-Gives :
        (job r : DataRequests) (block_num : ℕ) (n : Node e)
        → Has job.request_id r n
        → CanRenew e n.chain
        → Gives tt
            (process_fulfillment_fetch_data job block_num)
            n
            (Has job.request_id (answered (answer e job n.api) (fetching block_num r)))
    unfolding process_fulfillment_fetch_data add64
    process_fulfillment_fetch_data-Gives job r block_num n h renewed =
        let k = job.request_id in
        Gives->>= _ (renewal-Gives k r n h renewed) (λ n1 v1.
          Gives->>= _ (Has-begin k r n1 v1.0) (λ n2 v2.
            Gives->>= _ (Has-increment k _ n2 v2.has) (λ n3 v3.
              Gives->>= _ (Has-last_fetch k _ block_num n3 v3.has) (λ n4 v4.
                let same : n4.api ≡ n.api = v4.same_api ∙ (v3.same_api ∙ (v2.same_api ∙ v1.1)) in
                Gives->>= (store_price k) (query-Gives job n4 k (fetching block_num r) v4.has)
                  (λ n5 v5.
                    rw (ap (answer e job) same)
                      (store_price-Gives k (fetching block_num r) _ n5 v5))))))
