-- ===== src/Chain/Jobs/Confirmations.antt =====
-- go-ooo/chain/jobs.go: which new jobs a pass of the queue starts.
use xfund_router.Common.{
  ℕ, ◌-◌, ◌≡◌, ◌<◌, ◌≤◌, refl, sym, ◌∙◌, true, [], ◌∷◌, ◌++◌, ok, arith, if◌then◌else◌, leb,
  Bool-cases, inl, inr,
}
use xfund_router.Common.Words.{u64_mod, sub64, sub64-eq_of_le, sub64_wraps}
use xfund_router.Models.{DataRequests, RequestStatus}
use xfund_router.Chain.Env.{Env, Node, Receipt, FetchTask}
use xfund_router.Chain.Monad.{◌>>=◌, pure, try, modify, on_chain, resume, or_return}
use xfund_router.Chain.Jobs.{pre_process_pending_job, dispatch, spawn, add_spawned}

-- The goroutine for a job.
abbrev pub task : DataRequests → ℕ → FetchTask
task job block_num = record { job = job; block_num = block_num }

module _ {e : Env} (n : Node e) (job : DataRequests) (block_num : ℕ) (r : Receipt)
    (receipt : (e.client.transaction_receipt (e.crypto.hex_to_hash job.request_tx_hash) n.chain).0
      ≡ ok r)
    (initialised : job.request_status ≡ RequestStatus.initialised) where
  pre_process-spawned : (pre_process_pending_job block_num job n).1.spawned ≡ (
      if leb e.wait_confirmations (sub64 block_num r.block_number)
      then n.spawned ++ task job block_num ∷ []
      else n.spawned)
  unfolding pre_process_pending_job dispatch spawn add_spawned try ◌>>=◌ on_chain pure modify
  pre_process-spawned =
      elim (Bool-cases (leb e.wait_confirmations (sub64 block_num r.block_number))) [
        | inl q ↦ rw (receipt, initialised, dispatch, or_return, resume, q) refl
        | inr q ↦ rw (receipt, initialised, dispatch, or_return, resume, q) refl
      ]

  -- For an INITIALISED job whose receipt is in a block at or below the current one, a pass starts
  -- its fetch, with the job as it was read, if the difference of the blocks reaches the configured
  -- confirmations, and starts none otherwise.
  pub confirmed_starts :
      block_num < u64_mod
      → r.block_number ≤ block_num
      → (pre_process_pending_job block_num job n).1.spawned ≡ (
          if leb e.wait_confirmations (block_num - r.block_number)
          then n.spawned ++ task job block_num ∷ []
          else n.spawned)
  confirmed_starts h k = rw (sym (sub64-eq_of_le block_num r.block_number k h)) pre_process-spawned

  -- For an INITIALISED job whose receipt is in a block above the current one, the uint64
  -- difference wraps and a pass starts its fetch at once, for any configured confirmations up to 2
  -- ^ 64 less the blocks that are missing.
  pub unconfirmed_starts :
      block_num < r.block_number
      → r.block_number < u64_mod
      → e.wait_confirmations ≤ u64_mod - (r.block_number - block_num)
      → (pre_process_pending_job block_num job n).1.spawned ≡ n.spawned ++ task job block_num ∷ []
  unconfirmed_starts h k w =
      let enough : leb e.wait_confirmations (sub64 block_num r.block_number) ≡ true =
        rw (sub64_wraps block_num r.block_number h k) (ground arith) in
      pre_process-spawned ∙ rw enough refl
