-- ===== src/Chain/Jobs/Stuck.antt =====
-- go-ooo/chain/jobs.go: passes of the queue while the chain does not know the transactions sent.
use xfund_router.Common.{ℕ, zero, suc, ◌≡◌, String, List, filter, All, err}
use xfund_router.Models.{DataRequests, RequestStatus, is_pending}
use xfund_router.Chain.Env.{Env, Node, Bytes}
use xfund_router.Chain.Jobs.{process_pending_job_queue}

-- The chain answers every question for a transaction with an error.
abbrev pub IsForgetful : Env → Type 0
IsForgetful e =
    (h : Bytes) (c : e.client.Chain) → (m : String) × ((e.client.transaction_by_hash h c).0 ≡ err m)

-- The pending jobs of a table are all TX SENT.
abbrev pub AllSent : List DataRequests → Type 0
AllSent rows =
    All (λ j. j.request_status ≡ RequestStatus.tx_sent) (filter (λ r. is_pending r.job_status) rows)

-- The node after a number of passes.
abbrev pub after_passes : {e : Env} → ℕ → Node e → Node e
after_passes zero n = n
after_passes (suc k) n = after_passes k (process_pending_job_queue n).1
