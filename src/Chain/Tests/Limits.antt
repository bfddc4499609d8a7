-- ===== src/Chain/Tests/Limits.antt =====
-- Confirmations, nonces, gas prices, blocks and withdrawals.
use xfund_router.Common.{String, Result, ok, ℕ, refl, ◌≡◌, arith, List, [], ◌∷◌}
use xfund_router.Models.{ToBlocks}
use xfund_router.Database.Transactions.{insert_new_to_block}
use xfund_router.Chain.Env.{Bytes}
use xfund_router.Chain.Start.{Parts}
use xfund_router.Chain.Jobs.{pre_process_pending_job}
use xfund_router.Chain.Jobs.Confirmations.{task, unconfirmed_starts}
use xfund_router.Chain.Admin.{AdminTask}
use xfund_router.Chain.Tests.{env, node, new_row}

-- A block before the one that the request is in.
unconfirmed_starts_example :
    (pre_process_pending_job 99 new_row node).1.spawned ≡ task new_row 99 ∷ []
unconfirmed_starts_example =
    unconfirmed_starts node new_row 99 _ refl refl (ground arith) (ground arith) (ground arith)

blocks : List ℕ
blocks = 103 ∷ 99 ∷ 120 ∷ 101 ∷ []

abbrev parts : Parts env
parts = record {
  requests = node.requests;
  to_blocks = node.to_blocks;
  failed = node.failed;
  chain = 6;
  api = tt;
}

abbrev key_of : String → Result Bytes
key_of s = ok (10 ∷ [])

abbrev recorded : List ToBlocks
recorded = (insert_new_to_block env.to_blocks 120 node.to_blocks).1

abbrev withdrawal : ℕ → AdminTask
withdrawal amount = record { task = "withdraw"; fee_or_amount = amount; to_or_consumer = "0xaa" }
