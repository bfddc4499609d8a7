-- ===== src/Chain/Outcome/Retry.antt =====
-- The retries: `processPossiblyStuckDataFetch`, `processSendFailedJob` and
-- `processPossiblyStuckSentTx`.
use xfund_router.Common.{
  ℕ, ◌≡◌, refl, sym, subst, String, Result, ok, err, ltb, leb, if◌then◌else◌, Bool-cases, inl, inr,
  arith, ap,
}
use xfund_router.Common.Words.{sub64}
use xfund_router.Models.{DataRequests, RequestStatus, JobStatus}
use xfund_router.Gorm.{IsGorm}
use xfund_router.Gorm.Available.{IsUp}
use xfund_router.Database.Schemas.{request_schema}
use xfund_router.Chain.Env.{Env, Node, Tx, Bytes}
use xfund_router.Chain.Monad.{M, ◌>>=◌, pure, try, on_chain, on_failed, resume, or_return}
use xfund_router.Chain.Fulfil.{
  add_failure, sign_price, send_fulfillment_tx, process_fulfillment_fetch_data,
}
use xfund_router.Chain.Jobs.{
  max_attempts, give_up, too_old, process_possibly_stuck_data_fetch, process_send_failed_job,
  resend, check_sent, process_possibly_stuck_sent_tx,
}
use xfund_router.Chain.Outcome.{
  Gives, Gives->>=, Gives-weaken, Gives-ignore, Has, Leaves, Has-set_status,
}
use xfund_router.Chain.Outcome.Fetch.{
  CanRenew, answer, answered, fetching, process_fulfillment_fetch_data-Gives,
}
use xfund_router.Chain.Outcome.Send.{answer_to, submitted, send_fulfillment_tx-Gives}

-- The row of a job that is given up.
abbrev pub given_up : String → DataRequests → DataRequests
given_up reason r = record r {
  request_status = RequestStatus.fulfilment_failed;
  status_reason = reason;
  job_status = JobStatus.fail;
}

-- The end of a job: three attempts, or more than 250 blocks. Otherwise `retried`.
abbrev pub limited : DataRequests → ℕ → DataRequests → DataRequests → DataRequests
limited job block_num r retried =
    if leb 3 job.fulfillment_attempts
    then given_up "too many failed attempts" r
    else if ltb 250 (sub64 block_num job.request_block_number)
    then given_up "request too old" r
    else retried

submitted-attempts :
    (e : Env) (block_num : ℕ) (a : Result Tx) (r : DataRequests)
    → (submitted e block_num a r).fulfillment_attempts ≡ r.fulfillment_attempts
submitted-attempts e block_num (ok tx) r = refl
submitted-attempts e block_num (err m) r = refl

limited-attempts :
    (job : DataRequests) (block_num : ℕ) (r x : DataRequests)
    → x.fulfillment_attempts ≡ r.fulfillment_attempts
    → (limited job block_num r x).fulfillment_attempts ≡ r.fulfillment_attempts
limited-attempts job block_num r x h = ground arith

module _ {e : Env} (law : IsGorm request_schema e.requests) (up : IsUp request_schema e.requests)
    (job r : DataRequests) (block_num : ℕ) where
  answer_to-same :
      (n n1 : Node e) (a : Result Bytes)
      → n1.chain ≡ n.chain
      → n1.transact_opts ≡ n.transact_opts
      → answer_to e job n1 a ≡ answer_to e job n a
  answer_to-same n n1 (err m) h k = refl
  answer_to-same n n1 (ok s) h k = rw (h, k) refl

  give_up-Gives :
      (reason : String) (n : Node e)
      → Has job.request_id r n
      → Gives tt (give_up job reason) n (Has job.request_id (given_up reason r))
  unfolding give_up
  give_up-Gives reason n h =
      Gives-weaken
        (Has-set_status law up job.request_id r RequestStatus.fulfilment_failed reason n h)
        (λ n' v. v.has)

  -- Any retry, behind the two limits.
  limited-Gives :
      (m : M e (Unit {0})) (retried : DataRequests) (n : Node e)
      → Has job.request_id r n
      → Gives tt m n (Has job.request_id retried)
      → Gives tt
          (if leb max_attempts job.fulfillment_attempts
            then give_up job "too many failed attempts"
            else if too_old job block_num
            then give_up job "request too old"
            else m)
          n
          (Has job.request_id (limited job block_num r retried))
  limited-Gives m retried n h g = elim (Bool-cases (leb 3 job.fulfillment_attempts)) [
    | inl q ↦ rw q (give_up-Gives "too many failed attempts" n h)
    | inr q ↦ elim (Bool-cases (ltb 250 (sub64 block_num job.request_block_number))) [
      | inl q' ↦ rw (q, q') (give_up-Gives "request too old" n h)
      | inr q' ↦ rw (q, q') g
    ]
  ]

  add_failure-Gives :
      (h : String) (u p : ℕ) (reason : String) (n : Node e)
      → Has job.request_id r n
      → Gives tt (add_failure job.request_id h u p reason) n (Leaves job.request_id r n)
  unfolding add_failure on_failed
  add_failure-Gives h u p reason n v = Gives-ignore (record {
    value = refl;
    after = record {
      has = record { distinct = v.distinct; found = v.found };
      same_api = refl;
      same_chain = refl;
      same_opts = refl;
      same_spawned = refl;
    };
  })

  -- With a database that answers and a chain that reports a nonce and a gas price, the retry of a
  -- failed job that is in the table ends, and its row is then FULFILMENT FAILED if three attempts
  -- were made or the request is more than 250 blocks old, and otherwise as a new fetch leaves it.
  pub process_send_failed_job-Gives :
      (n : Node e)
      → Has job.request_id r n
      → CanRenew e n.chain
      → Gives tt (process_send_failed_job job block_num) n (
          Has job.request_id
            (limited job block_num r (answered (answer e job n.api) (fetching block_num r))))
  unfolding process_send_failed_job
  process_send_failed_job-Gives n h c =
      Gives->>= _ (add_failure-Gives "" 0 0 job.status_reason n h) (λ n1 v.
        limited-Gives (process_fulfillment_fetch_data job block_num) _ n1 v.has (
          rw (sym (ap (answer e job) v.same_api)) (
            process_fulfillment_fetch_data-Gives law up job r block_num n1 v.has
              (subst (CanRenew e) (sym v.same_chain) c))))

  -- With a database that answers and a chain that reports a nonce and a gas price, the step for a
  -- fetch that may be stuck ends, and the row of the job is then FULFILMENT FAILED after three
  -- attempts; else unchanged if the last fetch is less than 5 blocks ago; else FULFILMENT FAILED
  -- if the request is more than 250 blocks old; else as a new fetch leaves it.
  pub process_possibly_stuck_data_fetch-Gives :
      (n : Node e)
      → Has job.request_id r n
      → CanRenew e n.chain
      → Gives tt (process_possibly_stuck_data_fetch job block_num) n (
          Has job.request_id (
            if leb 3 job.fulfillment_attempts
            then given_up "too many failed attempts" r
            else if ltb (sub64 block_num job.last_data_fetch_block_number) 5
            then r
            else if ltb 250 (sub64 block_num job.request_block_number)
            then given_up "request too old" r
            else answered (answer e job n.api) (fetching block_num r)))
  unfolding process_possibly_stuck_data_fetch pure
  process_possibly_stuck_data_fetch-Gives n h c =
      elim (Bool-cases (leb 3 job.fulfillment_attempts)) [
        | inl q ↦ rw q (give_up-Gives "too many failed attempts" n h)
        | inr q ↦ elim (Bool-cases (ltb (sub64 block_num job.last_data_fetch_block_number) 5)) [
          | inl q1 ↦ rw (q, q1) (record { value = refl; after = h })
          | inr q1 ↦ elim (Bool-cases (ltb 250 (sub64 block_num job.request_block_number))) [
            | inl q2 ↦ rw (q, q1, q2) (give_up-Gives "request too old" n h)
            | inr q2 ↦
                rw (q, q1, q2) (process_fulfillment_fetch_data-Gives law up job r block_num n h c)
          ]
        ]
      ]

  -- With a database that answers, the step for a reverted fulfilment of a job that is in the table
  -- ends, and its row is then FULFILMENT FAILED if three attempts were made or the request is more
  -- than 250 blocks old, and otherwise as sending the fulfilment leaves it.
  pub resend-Gives :
      (n : Node e)
      → Has job.request_id r n
      → Gives tt (resend job block_num) n (
          Has job.request_id (
            limited job block_num r
              (submitted e block_num (answer_to e job n (sign_price e job)) r)))
  unfolding resend
  resend-Gives n h = Gives->>= _ (add_failure-Gives _ _ _ "tx reverted" n h) (λ n1 v.
      limited-Gives (send_fulfillment_tx job block_num) _ n1 v.has (
        rw (sym (answer_to-same n n1 (sign_price e job) v.same_chain v.same_opts))
          (send_fulfillment_tx-Gives law up job r block_num n1 v.has)))

  -- With a database that answers, the step for a reverted fulfilment leaves the number of attempts
  -- of the row as it was, also where the fulfilment is sent again.
  pub resend-attempts :
      (n : Node e)
      → Has job.request_id r n
      → Gives tt (resend job block_num) n (λ n'.
        (x : DataRequests) × Has job.request_id x n'
        × (x.fulfillment_attempts ≡ r.fulfillment_attempts))
  resend-attempts n h =
      let a = answer_to e job n (sign_price e job) in
      Gives-weaken (resend-Gives n h) (λ n' v. (
        _,
        v,
        limited-attempts job block_num r (submitted e block_num a r)
            (submitted-attempts e block_num a r),
      ))

module _ {e : Env} (job : DataRequests) (block_num : ℕ) where
  -- While the chain answers with an error for the transaction of a sent fulfilment, the step for
  -- it changes no row, whatever the age of the request and the number of attempts.
  pub stuck_when_unknown :
      (n : Node e) (m : String)
      → (e.client.transaction_by_hash (e.crypto.hex_to_hash job.fulfill_tx_hash) n.chain).0 ≡ err m
      → (process_possibly_stuck_sent_tx job block_num n).1.requests ≡ n.requests
  unfolding process_possibly_stuck_sent_tx check_sent try ◌>>=◌ on_chain pure
  stuck_when_unknown n m h =
      elim (Bool-cases (ltb (sub64 block_num job.last_fulfill_sent_block_number) 3)) [
        | inl q ↦ rw q refl
        | inr q ↦ rw (q, h, or_return, resume) refl
      ]
