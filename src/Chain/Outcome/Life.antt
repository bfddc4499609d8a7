-- ===== src/Chain/Outcome/Life.antt =====
-- The life of a request: its fetch, the transaction, and the event of the fulfilment.
use xfund_router.Common.{ℕ, ◌<◌, ◌≡◌, refl, String, false, Result, ok, err, str_eq, subst, sym}
use xfund_router.Common.Words.{add64}
use xfund_router.Models.{DataRequests, RequestStatus, JobStatus}
use xfund_router.Gorm.{IsGorm}
use xfund_router.Gorm.Available.{IsUp}
use xfund_router.Database.Schemas.{request_schema}
use xfund_router.Chain.Env.{Env, Node, Tx, RequestFulfilled}
use xfund_router.Chain.Monad.{◌>>◌}
use xfund_router.Chain.Events.{process_incoming_fulfilments}
use xfund_router.Chain.Fulfil.{process_fulfillment_fetch_data, send_fulfillment_tx, sign_price}
use xfund_router.Chain.Outcome.{Gives, Gives->>=, Gives-weaken, Has}
use xfund_router.Chain.Outcome.Fetch.{
  CanRenew, answer, fetching, process_fulfillment_fetch_data-Gives,
}
use xfund_router.Chain.Outcome.Send.{answer_to, submitted, send_fulfillment_tx-Gives}
use xfund_router.Chain.Outcome.Incoming.{closed, process_incoming_fulfilments-Gives}

-- The row that the next pass reads.
abbrev pub ready : String → DataRequests → ℕ → DataRequests
ready price r block_num = record (fetching block_num r) {
  request_status = RequestStatus.data_ready_to_send;
  price_result = price;
}

-- What the row keeps when a fulfilment is submitted.
record Kept (r x : DataRequests) : Type 0 where
  id : x.id ≡ r.id
  price : x.price_result ≡ r.price_result
  attempts : x.fulfillment_attempts ≡ r.fulfillment_attempts

submitted-Kept : (e : Env) (b : ℕ) (a : Result Tx) (r : DataRequests) → Kept r (submitted e b a r)
submitted-Kept e b (ok tx) r = record { id = refl; price = refl; attempts = refl }
submitted-Kept e b (err m) r = record { id = refl; price = refl; attempts = refl }

module _ {e : Env} (law : IsGorm request_schema e.requests) (up : IsUp request_schema e.requests)
    (r : DataRequests) (n : Node e) (price : String) where
  pub fetched-Gives :
      (block_num : ℕ)
      → Has r.request_id r n
      → CanRenew e n.chain
      → answer e r n.api ≡ ok price
      → str_eq price "" ≡ false
      → Gives tt
          (process_fulfillment_fetch_data r block_num)
          n
          (Has r.request_id (ready price r block_num))
  fetched-Gives block_num h c a p =
      Gives-weaken (process_fulfillment_fetch_data-Gives law up r r block_num n h c)
        (λ n' v. subst (λ z. Has r.request_id z n') (rw (a, p) refl) v)

  -- With a database that answers, a chain that reports a nonce and a gas price and an API that
  -- answers with a price that is not empty, the fetch for a job in the table, then the sending of
  -- the row that this leaves, whether or not the transaction is taken, and then the event of its
  -- fulfilment all end, and leave the job in SUCCESS by both statuses, with that price and one
  -- attempt more.
  pub life-Gives :
      (event : RequestFulfilled) (fetched_at sent_at : ℕ)
      → Has r.request_id r n
      → CanRenew e n.chain
      → answer e r n.api ≡ ok price
      → str_eq price "" ≡ false
      → 0 < r.id
      → e.crypto.bytes2hex event.request_id ≡ r.request_id
      → Gives tt
          (process_fulfillment_fetch_data r fetched_at
            >> (send_fulfillment_tx (ready price r fetched_at) sent_at
                >> process_incoming_fulfilments event))
          n
          (λ n'.
            (x : DataRequests) × Has r.request_id x n'
            × (x.request_status ≡ RequestStatus.success)
            × (x.job_status ≡ JobStatus.success)
            × (x.price_result ≡ price)
            × (x.fulfillment_attempts ≡ add64 r.fulfillment_attempts 1))
  unfolding add64
  life-Gives event fetched_at sent_at h c a p pos_id same =
      Gives->>= _ (fetched-Gives fetched_at h c a p) (λ n1 v1.
        Gives->>= _
          (send_fulfillment_tx-Gives law up (ready price r fetched_at) (ready price r fetched_at)
            sent_at n1 v1)
          (λ n2 v2.
            let x =
              submitted e sent_at
                (answer_to e (ready price r fetched_at) n1
                  (sign_price e (ready price r fetched_at)))
                (ready price r fetched_at) in
            let kept =
              submitted-Kept e sent_at
                (answer_to e (ready price r fetched_at) n1
                  (sign_price e (ready price r fetched_at)))
                (ready price r fetched_at) in
            Gives-weaken
              (process_incoming_fulfilments-Gives law up event x n2
                (subst (λ z. Has z x n2) (sym same) v2) (rw kept.id pos_id))
              (λ n3 v3.
                let y = closed e event n2.chain x in
                (y, subst (λ z. Has z y n3) same v3, refl, refl, kept.price, kept.attempts))))
