-- ===== src/Chain/Admin/Withdraw.antt =====
-- go-ooo/chain/admin_tasks.go: withdrawals, and the nonce after them.
use Prim.Native.String.{◌++◌ as ◌<>◌}
use xfund_router.Common.{ℕ, ◌≡◌, ◌<◌, ◌≤◌, refl, String, true, false, ok, some, arith, ltb}
use xfund_router.Chain.Env.{Env, Node, Tx}
use xfund_router.Chain.Monad.{◌>>=◌, pure, on_chain, modify, resume}
use xfund_router.Chain.Caller.{set_next_tx_nonce}
use xfund_router.Chain.Admin.{
  Display, AdminTask, AdminTaskResponse, withdraw, withdraw_available, with_opts, after_tx, failed,
  succeeded,
}

set_next_tx_nonce-chain :
    {e : Env} (nonce : ℕ) (n : Node e) (c : e.client.Chain)
    → (set_next_tx_nonce nonce false (record n { chain = c })).prev_tx_nonce
      ≡ (set_next_tx_nonce nonce false n).prev_tx_nonce
unfolding set_next_tx_nonce
set_next_tx_nonce-chain nonce n c = ground arith

module _ {e : Env} (d : Display) (task : AdminTask) (n : Node e) (available : ℕ)
    (asked : (e.client.get_withdrawable_tokens n.chain).0 ≡ ok available) where
  -- the node after the question
  abbrev queried : Node e
  queried = record n { chain = (e.client.get_withdrawable_tokens n.chain).1 }

  withdraw-queried : withdraw d task n ≡ withdraw_available d task (ok available) queried
  unfolding withdraw on_chain ◌>>=◌
  withdraw-queried = rw (asked) refl

  -- A withdrawal of more than the contract reports as available is answered with a failure, and
  -- leaves the node as it was but for the question to the chain: no transaction is sent and the
  -- nonce stays.
  pub withdraw-too_much :
      available < task.fee_or_amount
      → ((withdraw d task n).1 ≡ queried)
        × (r : AdminTaskResponse) × ((withdraw d task n).0 ≡ some r)
        × (r.success ≡ false)
  unfolding withdraw_available pure
  withdraw-too_much h =
      let over : ltb available task.fee_or_amount ≡ true = ground arith in
      let m : String =
        (("cannot withdraw " <> d.big_string task.fee_or_amount) <> ". Only ")
        <> (d.big_string available <> " available") in
      (rw (withdraw-queried, over) refl, failed task m, rw (withdraw-queried, over) refl, refl)

  -- A withdrawal of at most the available amount for which the chain takes the transaction is
  -- answered with a success, and moves the nonce on as its transaction does.
  pub withdraw-sends :
      (tx : Tx)
      → task.fee_or_amount ≤ available
      → (e.client.withdraw n.transact_opts
          (e.crypto.hex_to_address task.to_or_consumer)
          task.fee_or_amount
          queried.chain).0
        ≡ ok tx
      → ((withdraw d task n).1.prev_tx_nonce ≡ (set_next_tx_nonce tx.nonce false n).prev_tx_nonce)
        × (r : AdminTaskResponse) × ((withdraw d task n).0 ≡ some r)
        × (r.success ≡ true)
  unfolding withdraw_available with_opts after_tx on_chain ◌>>=◌ pure modify
  withdraw-sends tx h sent =
      let fits : ltb available task.fee_or_amount ≡ false = ground arith in
      let r = succeeded task ("Sent! Tx Hash: " <> e.crypto.hash_hex tx.hash) in
      (
        rw (withdraw-queried, fits, sent, resume) (set_next_tx_nonce-chain tx.nonce n _),
        r,
        rw (withdraw-queried, fits, sent, resume) refl,
        refl,
      )
