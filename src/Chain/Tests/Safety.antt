-- ===== src/Chain/Tests/Safety.antt =====
-- The invariants on two events, a fulfilment and a pass of the queue.
use xfund_router.Common.{String, none, [], ◌∷◌, ◌≡◌, ◌≤◌, Result, ok, refl, All, arith}
use xfund_router.Chain.Env.{Node, Bytes}
use xfund_router.Chain.Events.{process_incoming_requests, process_incoming_fulfilments}
use xfund_router.Chain.Jobs.{process_pending_job_queue}
use xfund_router.Chain.Invariant.Statuses.{IsConsistent}
use xfund_router.Chain.Invariant.Keys.{HasKeys}
use xfund_router.Chain.Invariant.Settled.{IsSettled}
use xfund_router.Common.Int.{pos, to_int64}
use xfund_router.Database.Queries.{get_last_block_num_queried}
use xfund_router.Chain.Events.{initial_from_block}
use xfund_router.Chain.Start.{Parts, new_ooo_router, with_account, with_nonce_result, with_nonce_of}
use xfund_router.Chain.Start.Counters.{new_ooo_router-Reach}
use xfund_router.Chain.Schedule.{Step, Reach, here, next}
use xfund_router.Chain.Schedule.Safety.{Reach-IsConsistent, Reach-HasKeys, Reach-IsSettled}
use xfund_router.Chain.Tests.{env, law, display, node, done_row, event_of, fulfilled_event}

abbrev after_events : Node env
after_events =
    (process_incoming_fulfilments fulfilled_event
      (process_incoming_requests (event_of 3 120) node).1).1

abbrev after_pass : Node env
after_pass = (process_pending_job_queue after_events).1

run : Reach display node after_pass
run =
    next
      (next (next here (Step.request node (event_of 3 120)))
        (Step.fulfilled (process_incoming_requests (event_of 3 120) node).1 fulfilled_event))
      (Step.tick after_events)

Reach-IsConsistent_example : All IsConsistent after_pass.requests
Reach-IsConsistent_example = Reach-IsConsistent law display run (ground arith)

Reach-HasKeys_example : HasKeys after_pass.requests
Reach-HasKeys_example =
    Reach-HasKeys law display run
      (record { distinct = (refl, (refl, tt)); unique = (refl, (refl, tt)) })

Reach-IsSettled_example : IsSettled "2" after_pass.requests
Reach-IsSettled_example =
    Reach-IsSettled law display "2" run
      (record { distinct = (refl, (refl, tt)); row = done_row; found = refl; closed = λ h. cc })

-- The same events, in a node that was started.
abbrev pub parts : Parts env
parts = record {
  requests = node.requests;
  to_blocks = node.to_blocks;
  failed = node.failed;
  chain = 6;
  api = tt;
}

abbrev pub accepted : String → Result Bytes
accepted s = ok (10 ∷ [])

abbrev pub started : Node env
started = record node {
  chain = 6;
  prev_tx_nonce = 6;
  transact_opts = record { nonce = pos 6; gas_price = none };
  filter_start = 100;
}

started_test : new_ooo_router accepted 90 "0xc0de" parts ≡ ok started
unfolding new_ooo_router with_account with_nonce_result with_nonce_of initial_from_block to_int64
    get_last_block_num_queried
started_test = refl

started_run : Reach display started (process_incoming_requests (event_of 3 120) started).1
started_run = next here (Step.request started (event_of 3 120))

new_ooo_router-Reach_example :
    let m = (process_incoming_requests (event_of 3 120) started).1 in
    (m.transact_opts.nonce ≡ to_int64 m.prev_tx_nonce)
    × (90 ≤ m.last_block_number)
    × (100 ≤ m.last_block_number)
new_ooo_router-Reach_example =
    new_ooo_router-Reach accepted 90 display "0xc0de" parts started_test started_run
