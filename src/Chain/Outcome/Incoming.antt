-- ===== src/Chain/Outcome/Incoming.antt =====
-- The outcome of `processIncomingRequests` and `processIncomingFulfilments`.
mod Steps
use xfund_router.Common.{
  ℕ, ◌<◌, ◌%◌, ◌^◌, ◌≡◌, refl, ◌∙◌, String, Bool, true, false, none, some, List, [], ◌∷◌, ok,
  value_or, ◌==◌, if◌then◌else◌, any, find?, Bool-cases, Result-cases, inl, inr, arith, ap, eq_iff,
}
use xfund_router.Common.Words.{u64_mod}
use xfund_router.Models.{DataRequests, RequestStatus, JobStatus, no_request}
use xfund_router.Gorm.{IsGorm, Distinct}
use xfund_router.Gorm.Rows.{find?-append_none}
use xfund_router.Gorm.Available.{IsUp}
use xfund_router.Database.Schemas.{request_schema, has_request_id}
use xfund_router.Database.Queries.{find_by_request_id}
use xfund_router.Database.Transactions.{
  new_request, set_success, insert_new_request, update_fulfillment_success,
}
use xfund_router.OooApi.Endpoint.{is_adhoc}
use xfund_router.Chain.Env.{Env, Node, Log, DataRequested, RequestFulfilled}
use xfund_router.Chain.Monad.{◌>>=◌, pure, ignore, modify, on_chain, on_requests}
use xfund_router.Chain.Events.{
  process_gas_usage, insert_event, process_incoming_requests, process_incoming_fulfilments,
  set_last_block_number, record_block,
}
use xfund_router.Chain.Invariant.Keys.{Distinct-append}
use xfund_router.Chain.Outcome.{Gives, Gives->>=, Gives-weaken, Gives-ignore, Has, Has-update_where}
use xfund_router.Chain.Outcome.Incoming.Steps.{
  find?-one, find?-any, last_block_keeps, block-Gives, gas-Gives, find-Gives, gas-rows, find-rows,
  block-rows, gas_used_of, gas_price_of,
}

-- The row of an event that is new.
abbrev pub event_row : (e : Env) → DataRequested → ℕ → ℕ → DataRequests
event_row e event gas_used gas_price = record {
  id = 0;
  consumer = e.crypto.address_hex event.consumer;
  provider = e.crypto.address_hex event.provider;
  request_id = e.crypto.bytes2hex event.request_id;
  is_adhoc = value_or false (is_adhoc (e.crypto.trimmed_text event.payload));
  request_block_number = event.raw.block_number;
  last_data_fetch_block_number = 0;
  request_tx_hash = e.crypto.hash_hex event.raw.tx_hash;
  request_gas_used = gas_used;
  request_gas_price = gas_price;
  fee = event.fee % 2 ^ 64;
  endpoint = e.crypto.bytes2hex event.payload;
  endpoint_decoded = e.crypto.trimmed_text event.payload;
  price_result = "";
  last_fulfill_sent_block_number = 0;
  fulfill_confirmed_block_number = 0;
  fulfill_tx_hash = "";
  fulfill_gas_used = 0;
  fulfill_gas_price = 0;
  fulfillment_attempts = 0;
  job_status = JobStatus.pending;
  request_status = RequestStatus.initialised;
  status_reason = "";
}

-- The row of a request after the event of its fulfilment.
abbrev pub closed : (e : Env) → RequestFulfilled → e.client.Chain → DataRequests → DataRequests
closed e event c r = record r {
  request_status = RequestStatus.success;
  job_status = JobStatus.success;
  fulfill_confirmed_block_number = event.raw.block_number;
  fulfill_tx_hash = e.crypto.hash_hex event.raw.tx_hash;
  fulfill_gas_used = gas_used_of e event.raw c;
  fulfill_gas_price = gas_price_of e event.raw c;
}

module _ {e : Env} where
  module _ (law : IsGorm request_schema e.requests) (up : IsUp request_schema e.requests) where
    Has-success :
        (k : String) (r : DataRequests) (b : ℕ) (tx_hash : String) (u p : ℕ) (n : Node e)
        → Has k r n
        → Gives tt
            (ignore (on_requests (update_fulfillment_success e.requests k b tx_hash u p)))
            n
            (Has k (set_success b tx_hash u p r))
    unfolding update_fulfillment_success
    Has-success k r b tx_hash u p n h =
        Gives-weaken
          (Gives-ignore
            (Has-update_where law up k r (set_success b tx_hash u p) n (λ x. refl) (λ x. refl) h))
          (λ n' v. v.has)

    -- With a database that answers, the event of a fulfilment whose request is in the table, with
    -- a primary key above 0, leaves its row as it was but for these columns: both statuses are
    -- SUCCESS, and the block and the transaction of the event are recorded with the gas used and
    -- the gas price that the chain tells of that transaction, as a uint64, each 0 if the chain
    -- does not tell it.
    pub process_incoming_fulfilments-Gives :
        (event : RequestFulfilled) (r : DataRequests) (n : Node e)
        → Has (e.crypto.bytes2hex event.request_id) r n
        → 0 < r.id
        → Gives tt
            (process_incoming_fulfilments event)
            n
            (Has (e.crypto.bytes2hex event.request_id) (closed e event n.chain r))
    unfolding process_incoming_fulfilments
    process_incoming_fulfilments-Gives event r n h pos_id =
        let k = e.crypto.bytes2hex event.request_id in
        let gas = gas-Gives event.raw k r n h in
        let found : r.id == 0 ≡ false = ground arith in
        Gives->>= _ gas (λ n1 h1. Gives->>= _ (find-Gives law up k r n1 h1) (λ n2 h2.
          rw found
            (Gives->>= _ (Has-success k r _ _ _ _ n2 h2) (λ n3 h3. block-Gives k _ _ n3 h3))))

  module _ (law : IsGorm request_schema e.requests) where
    insert_event_known :
        (event : DataRequested) (u p : ℕ) (n : Node e)
        → any (has_request_id (e.crypto.bytes2hex event.request_id)) (e.requests.rows n.requests)
          ≡ true
        → Gives tt
            (insert_event event u p)
            n
            (λ n'. e.requests.rows n'.requests ≡ e.requests.rows n.requests)
    unfolding insert_event ignore on_requests insert_new_request ◌>>=◌ pure
    insert_event_known event u p n known =
        let row = event_row e event u p in
        elim (Result-cases (e.requests.create row n.requests).0) [
          | inl (r, h) ↦ cc (known, (law.create_ok row r n.requests h).3)
          | inr (m, h) ↦ record { value = refl; after = law.create_err row n.requests m h }
        ]

    insert_if-Gives :
        (id : ℕ) (event : DataRequested) (u p : ℕ) (n : Node e)
        → any (has_request_id (e.crypto.bytes2hex event.request_id)) (e.requests.rows n.requests)
          ≡ true
        → Gives tt
            (if id == 0 then insert_event event u p else pure tt)
            n
            (λ n'. e.requests.rows n'.requests ≡ e.requests.rows n.requests)
    unfolding pure
    insert_if-Gives id event u p n known = elim (Bool-cases (id == 0)) [
      | inl q ↦ rw q (insert_event_known event u p n known)
      | inr q ↦ rw q (record { value = refl; after = refl })
    ]

    -- Whichever calls of the database fail, the event of a request whose id is in the table
    -- changes no row of the requests.
    pub process_incoming_requests-replay :
        (event : DataRequested) (n : Node e)
        → any (has_request_id (e.crypto.bytes2hex event.request_id)) (e.requests.rows n.requests)
          ≡ true
        → e.requests.rows (process_incoming_requests event n).1.requests
          ≡ e.requests.rows n.requests
    unfolding process_incoming_requests
    process_incoming_requests-replay event n known =
        let k = e.crypto.bytes2hex event.request_id in
        let rows = e.requests.rows n.requests in
        let gas = gas-rows law event.raw n in
        (Gives->>= _ gas (λ n1 h1. Gives->>= _ (find-rows law k rows n1 h1) (λ n2 h2.
          Gives->>= _ (insert_if-Gives _ event _ _ n2 (rw h2 known))
            (λ n3 h3. block-rows law event.raw.block_number rows n3 (h3 ∙ h2))))).after

  module _ (law : IsGorm request_schema e.requests) (up : IsUp request_schema e.requests) where
    insert_event-Gives :
        (event : DataRequested) (u p : ℕ) (n : Node e)
        → Distinct request_schema (e.requests.rows n.requests)
        → any (has_request_id (e.crypto.bytes2hex event.request_id)) (e.requests.rows n.requests)
          ≡ false
        → Gives tt (insert_event event u p) n (λ n'.
          (id : ℕ) × Has
            (e.crypto.bytes2hex event.request_id)
            (record (event_row e event u p) { id = id })
            n')
    unfolding insert_event ignore on_requests insert_new_request ◌>>=◌ pure
    insert_event-Gives event u p n d new =
        let row = event_row e event u p in
        let rows = e.requests.rows n.requests in
        let k = e.crypto.bytes2hex event.request_id in
        let (r, made) = up.create_up row n.requests new in
        let (shape, _, fresh, _, table) = law.create_ok row r n.requests made in
        let found : find? (has_request_id k) (r ∷ []) ≡ some (record row { id = r.id }) =
          rw shape (find?-one k (record row { id = r.id }) refl) in
        record {
          value = refl;
          after = (
            r.id,
            record {
              distinct = rw table (Distinct-append rows r d fresh);
              found = rw table (
                  find?-append_none (has_request_id k) rows (r ∷ []) (find?-any _ rows new)
                  ∙ found);
            },
          );
        }

    find_new :
        (k : String) (n : Node e)
        → any (has_request_id k) (e.requests.rows n.requests) ≡ false
        → (value_or no_request (find_by_request_id e.requests k n.requests).0).id ≡ 0
    unfolding find_by_request_id
    find_new k n new = elim (Result-cases (e.requests.first (has_request_id k) n.requests).0) [
      | inl (r, h) ↦
          cc (law.first_ok (has_request_id k) n.requests r h, find?-any (has_request_id k) _ new)
      | inr (m, h) ↦ rw h refl
    ]

    -- With a database that answers and no primary key twice, the event of a request that is not in
    -- the table adds the row of that request, with some primary key: pending and INITIALISED with
    -- no attempts, with the fields of the event, the type of its endpoint and the gas used and gas
    -- price that the chain tells of its transaction, each 0 if it does not, and with every other
    -- column empty.
    pub process_incoming_requests-Gives :
        (event : DataRequested) (n : Node e)
        → Distinct request_schema (e.requests.rows n.requests)
        → any (has_request_id (e.crypto.bytes2hex event.request_id)) (e.requests.rows n.requests)
          ≡ false
        → Gives tt (process_incoming_requests event) n (λ n'.
          (id : ℕ) × Has
            (e.crypto.bytes2hex event.request_id)
            (record (event_row e event
              (gas_used_of e event.raw n.chain)
              (gas_price_of e event.raw n.chain)) { id = id })
            n')
    unfolding process_incoming_requests
    process_incoming_requests-Gives event n d new =
        let k = e.crypto.bytes2hex event.request_id in
        let rows = e.requests.rows n.requests in
        let gas = gas-rows law event.raw n in
        Gives->>= _ gas (λ n1 h1. Gives->>= _ (find-rows law k rows n1 h1) (λ n2 h2.
          rw (find_new k n1 (rw h1 new)) (
            Gives->>= _ (insert_event-Gives event _ _ n2 (rw h2 d) (rw h2 new)) (λ n3 h3.
              Gives-weaken (block-Gives k _ event.raw.block_number n3 h3.1)
                (λ n4 h4. (h3.0, h4))))))
