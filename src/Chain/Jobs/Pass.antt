-- ===== src/Chain/Jobs/Pass.antt =====
-- go-ooo/chain/jobs.go: a pass of the queue over new requests.
use xfund_router.Common.{
  ℕ, ◌≡◌, refl, append_nil, append_cons, ◌∙◌, ap, true, List, [], ◌∷◌, ◌++◌, map, filter, All, ok,
  leb,
}
use xfund_router.Common.Words.{sub64}
use xfund_router.Models.{DataRequests, RequestStatus, is_pending}
use xfund_router.Gorm.{IsGorm}
use xfund_router.Gorm.Available.{IsUp}
use xfund_router.Database.Schemas.{request_schema}
use xfund_router.Database.Queries.{get_pending_jobs}
use xfund_router.Chain.Env.{Env, Node, Receipt, Bytes}
use xfund_router.Chain.Monad.{
  ◌>>=◌, pure, try, scope, for_each, on_chain, on_requests, modify, resume, or_return,
}
use xfund_router.Chain.Jobs.{
  pre_process_pending_job, dispatch, spawn, add_spawned, process_jobs, process_pending_job_queue,
}
use xfund_router.Chain.Jobs.Confirmations.{task}

-- Every receipt is there, and is confirmed at the block `b`.
abbrev pub AllConfirmed : Env → ℕ → Type 0
AllConfirmed e b =
    (h : Bytes) (c : e.client.Chain)
    → (r : Receipt) × ((e.client.transaction_receipt h c).0 ≡ ok r)
      × (leb e.wait_confirmations (sub64 b r.block_number) ≡ true)

module _ {e : Env} (b : ℕ) (confirmed : AllConfirmed e b) where
  new_starts :
      (job : DataRequests) (n : Node e)
      → job.request_status ≡ RequestStatus.initialised
      → (pre_process_pending_job b job n).1.spawned ≡ n.spawned ++ task job b ∷ []
  unfolding pre_process_pending_job dispatch spawn add_spawned try ◌>>=◌ on_chain pure modify
  new_starts job n h =
      let (r, answered, enough) = confirmed (e.crypto.hex_to_hash job.request_tx_hash) n.chain in
      rw (answered, h, dispatch, or_return, resume, enough) refl

  pending_starts :
      (jobs : List DataRequests) (n : Node e)
      → All (λ j. j.request_status ≡ RequestStatus.initialised) jobs
      → (for_each jobs (pre_process_pending_job b) n).1.spawned
        ≡ n.spawned ++ map (λ j. task j b) jobs
  unfolding for_each scope ◌>>=◌ pure
  pending_starts [] n h = append_nil n.spawned
  pending_starts (j ∷ js) n h =
      pending_starts js (pre_process_pending_job b j n).1 h.1
      ∙ (ap (λ s. s ++ map (λ j'. task j' b) js) (new_starts j n h.0)
          ∙ append_cons n.spawned (task j b) (map (λ j'. task j' b) js))

  process_jobs_starts :
      (jobs : List DataRequests) (n : Node e)
      → (e.client.block_number n.chain).0 ≡ ok b
      → All (λ j. j.request_status ≡ RequestStatus.initialised) jobs
      → (process_jobs jobs n).1.spawned ≡ n.spawned ++ map (λ j. task j b) jobs
  unfolding process_jobs try ◌>>=◌ on_chain pure
  process_jobs_starts [] n now h = append_nil n.spawned
  process_jobs_starts (j ∷ js) n now h =
      rw (now, or_return, resume)
        (pending_starts (j ∷ js) (record n { chain = (e.client.block_number n.chain).1 }) h)

  -- With a database that answers and a chain that reports the current block and has every receipt,
  -- with the configured confirmations at that block, a pass of the queue over a table whose
  -- pending jobs are all INITIALISED starts one fetch for each of them, in the order of the table,
  -- after those that wait already.
  pub pass-starts :
      IsGorm request_schema e.requests
      → IsUp request_schema e.requests
      → (n : Node e) → (e.client.block_number n.chain).0 ≡ ok b
      → All
          (λ j. j.request_status ≡ RequestStatus.initialised)
          (filter (λ r. is_pending r.job_status) (e.requests.rows n.requests))
      → (process_pending_job_queue n).1.spawned
        ≡ n.spawned
          ++ map
              (λ j. task j b)
              (filter (λ r. is_pending r.job_status) (e.requests.rows n.requests))
  unfolding process_pending_job_queue try ◌>>=◌ on_requests on_chain get_pending_jobs
  pass-starts law up n now new =
      let pending = filter (λ r. is_pending r.job_status) (e.requests.rows n.requests) in
      let found = up.find_up (λ r. is_pending r.job_status) n.requests in
      rw (found, or_return, resume)
        (process_jobs_starts pending
          (record n { requests = (e.requests.find (λ r. is_pending r.job_status) n.requests).1 })
          now new)
