-- ===== src/Chain/Tests/Outcome.antt =====
-- The outcomes of the handlers for the request `1`.
use xfund_router.Common.{ℕ, [], ◌∷◌, refl, ◌≡◌, ok, err, arith}
use xfund_router.Models.{DataRequests, RequestStatus, JobStatus}
use xfund_router.Chain.Env.{Env, Node}
use xfund_router.Chain.Events.{process_incoming_requests, process_incoming_fulfilments}
use xfund_router.Chain.Fulfil.{process_fulfillment_fetch_data, send_fulfillment_tx, sign_price}
use xfund_router.Common.Words.{sub64, add64}
use xfund_router.Chain.Monad.{◌>>◌}
use xfund_router.Chain.Outcome.Life.{ready, life-Gives}
use xfund_router.Chain.Jobs.Confirmations.{task}
use xfund_router.Chain.Jobs.Pass.{pass-starts}
use xfund_router.Chain.Jobs.{
  process_send_failed_job, process_possibly_stuck_data_fetch, resend, process_pending_job_queue,
}
use xfund_router.Chain.Isolation.{jobs_spare}
use xfund_router.OooApi.Finchains.{price_in}
use xfund_router.OooApi.Tests.{http, pairs, eth_usd, endpoint_of, usd_parsed, usd_sub_type}
use xfund_router.Chain.Env.{Env, Node}
use xfund_router.Chain.Outcome.Finchains.{with_finchains, finchains_life-Gives}
use xfund_router.Chain.Outcome.{Gives, Has}
use xfund_router.Chain.Outcome.Fetch.{
  CanRenew, answered, fetching, process_fulfillment_fetch_data-Gives,
}
use xfund_router.Chain.Outcome.Send.{submitted, send_fulfillment_tx-Gives}
use xfund_router.Chain.Outcome.Retry.{
  given_up, process_send_failed_job-Gives, process_possibly_stuck_data_fetch-Gives, resend-Gives,
  resend-attempts,
}
use xfund_router.Chain.Outcome.Incoming.{
  closed, event_row, process_incoming_fulfilments-Gives, process_incoming_requests-Gives,
  process_incoming_requests-replay,
}
use xfund_router.Chain.Tests.{
  env, client, law, up, node, new_row, done_row, rows, tx_of, event_of, fulfilled_event,
}

new_row-Has : Has "1" new_row node
new_row-Has = record { distinct = (refl, (refl, tt)); found = refl }

can_renew : CanRenew env 6
can_renew = record { nonce = 6; gas_price = 30; has_nonce = refl; has_gas_price = refl }

process_fulfillment_fetch_data-Gives_example :
    Gives tt
      (process_fulfillment_fetch_data new_row 110)
      node
      (Has "1" (answered (ok "1500") (fetching 110 new_row)))
process_fulfillment_fetch_data-Gives_example =
    process_fulfillment_fetch_data-Gives law up new_row new_row 110 node new_row-Has can_renew

send_fulfillment_tx-Gives_example :
    Gives tt
      (send_fulfillment_tx new_row 110)
      node
      (Has "1" (submitted env 110 (ok (tx_of 6)) new_row))
unfolding sign_price
send_fulfillment_tx-Gives_example =
    send_fulfillment_tx-Gives law up new_row new_row 110 node new_row-Has

process_incoming_fulfilments-Gives_example :
    Gives tt
      (process_incoming_fulfilments fulfilled_event)
      node
      (Has "1" (closed env fulfilled_event 6 new_row))
process_incoming_fulfilments-Gives_example =
    process_incoming_fulfilments-Gives law up fulfilled_event new_row node new_row-Has
      (ground arith)

process_incoming_requests-Gives_example :
    Gives tt
      (process_incoming_requests (event_of 3 120))
      node
      (λ n'. (id : ℕ) × Has "3" (record (event_row env (event_of 3 120) 21 5) { id = id }) n')
process_incoming_requests-Gives_example =
    process_incoming_requests-Gives law up (event_of 3 120) node (refl, (refl, tt)) refl

process_incoming_requests-replay_example :
    (process_incoming_requests (event_of 1 120) node).1.requests ≡ rows
process_incoming_requests-replay_example =
    process_incoming_requests-replay law (event_of 1 120) node refl

process_send_failed_job-Gives_example :
    Gives tt
      (process_send_failed_job new_row 110)
      node
      (Has "1" (answered (ok "1500") (fetching 110 new_row)))
unfolding sub64
process_send_failed_job-Gives_example =
    process_send_failed_job-Gives law up new_row new_row 110 node new_row-Has can_renew

process_possibly_stuck_data_fetch-Gives_example :
    Gives tt
      (process_possibly_stuck_data_fetch new_row 400)
      node
      (Has "1" (given_up "request too old" new_row))
unfolding sub64
process_possibly_stuck_data_fetch-Gives_example =
    process_possibly_stuck_data_fetch-Gives law up new_row new_row 400 node new_row-Has can_renew

resend-Gives_example :
    Gives tt (resend new_row 110) node (Has "1" (submitted env 110 (ok (tx_of 6)) new_row))
unfolding sub64 sign_price
resend-Gives_example = resend-Gives law up new_row new_row 110 node new_row-Has

resend-attempts_example :
    Gives tt
      (resend new_row 110)
      node
      (λ n'. (r : DataRequests) × Has "1" r n' × (r.fulfillment_attempts ≡ 0))
resend-attempts_example = resend-attempts law up new_row new_row 110 node new_row-Has

-- A chain that knows no transaction.
abbrev forgetful : Env
forgetful = record env {
  client = record client { transaction_by_hash = λ h c. (err "not found", c) };
}

abbrev sent_row : DataRequests
sent_row = record new_row { request_status = RequestStatus.tx_sent }

abbrev forgetful_node : Node forgetful
forgetful_node = record {
  requests = sent_row ∷ done_row ∷ [];
  to_blocks = [];
  failed = [];
  chain = 6;
  api = tt;
  last_block_number = 100;
  prev_tx_nonce = 5;
  transact_opts = node.transact_opts;
  filter_start = 90;
  spawned = [];
}

life-Gives_example :
    Gives tt
      (process_fulfillment_fetch_data new_row 110
        >> (send_fulfillment_tx (ready "1500" new_row 110) 111
            >> process_incoming_fulfilments fulfilled_event))
      node
      (λ n'.
        (x : DataRequests) × Has "1" x n'
        × (x.request_status ≡ RequestStatus.success)
        × (x.job_status ≡ JobStatus.success)
        × (x.price_result ≡ "1500")
        × (x.fulfillment_attempts ≡ add64 0 1))
life-Gives_example =
    life-Gives law up new_row node "1500" fulfilled_event 110 111 new_row-Has can_renew refl refl
      (ground arith) refl

pass-starts_example : (process_pending_job_queue node).1.spawned ≡ task new_row 110 ∷ []
unfolding sub64
pass-starts_example = pass-starts 110 (λ h c. (_, refl, refl)) law up node refl (refl, tt)

jobs_spare_example :
    Has "2" done_row (process_fulfillment_fetch_data new_row 110 node).1
    × Has "2" done_row (send_fulfillment_tx new_row 110 node).1
jobs_spare_example =
    jobs_spare law "2" done_row new_row 110 node refl
      (record { distinct = (refl, (refl, tt)); found = refl })

-- The node with the Finchains client: a server that always answers 1500, and one pair.
abbrev finchains : Env
finchains = with_finchains env http pairs "https://api" (λ endpoint request_id s. (ok "", s))

abbrev priced_row : DataRequests
priced_row = record new_row { endpoint_decoded = "ETH.USD.PR.AVG.24H" }

abbrev finchains_node : Node finchains
finchains_node = record {
  requests = priced_row ∷ done_row ∷ [];
  to_blocks = node.to_blocks;
  failed = [];
  chain = 6;
  api = (0, eth_usd ∷ []);
  last_block_number = 100;
  prev_tx_nonce = 5;
  transact_opts = node.transact_opts;
  filter_start = 90;
  spawned = [];
}

finchains_life-Gives_example :
    Gives tt
      (process_fulfillment_fetch_data priced_row 110
        >> (send_fulfillment_tx (ready "1500" priced_row 110) 111
            >> process_incoming_fulfilments fulfilled_event))
      finchains_node
      (λ n'.
        (x : DataRequests) × Has "1" x n'
        × (x.request_status ≡ RequestStatus.success)
        × (x.job_status ≡ JobStatus.success)
        × (x.price_result ≡ "1500")
        × (x.fulfillment_attempts ≡ add64 0 1))
unfolding price_in
finchains_life-Gives_example =
    finchains_life-Gives env http pairs "https://api" (λ endpoint request_id s. (ok "", s)) law up
      priced_row finchains_node (endpoint_of "USD") eth_usd "avg/24H" "1500" fulfilled_event 110 111
      (record { distinct = (refl, (refl, tt)); found = refl })
      (record { nonce = 6; gas_price = 30; has_nonce = refl; has_gas_price = refl }) refl usd_parsed
      refl (ground arith) refl usd_sub_type refl refl (ground arith) refl
