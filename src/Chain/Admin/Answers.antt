-- ===== src/Chain/Admin/Answers.antt =====
-- go-ooo/chain/admin_tasks.go: every task is answered, in the name of the task.
use xfund_router.Common.{
  ℕ, String, Bool, true, false, Option, none, some, Result, ok, err, ◌≡◌, ◌⊎◌, inl, inr, ap, subst,
  refl, if◌then◌else◌,
}
use xfund_router.Chain.Env.{Env, Node, Tx, TransactOpts}
use xfund_router.Chain.Monad.{M, ◌>>=◌, pure, modify, on_chain}
use xfund_router.Chain.Caller.{price_renewed, nonce_renewed, renew_transact_opts}
use xfund_router.Chain.Admin.{
  AdminTask, AdminTaskResponse, Display, failed, succeeded, with_opts, after_tx,
  register_as_provider, set_global_fee, set_granular_fee, withdraw_available, withdraw, report,
  query_withdrawable, query_fees, query_granular_fees, run_task, after_renewal, process_admin_task,
}

-- A call that returns a value with `P`, whatever the node.
pub record Answers {e : Env} {A : Type 0} (P : A → Type 0) (m : M e A) : Type 0 where
  pub run : (n : Node e) → (a : A) × ((m n).0 ≡ some a) × P a

-- A failure or a success, in the name of the task.
abbrev pub IsFor : AdminTask → AdminTaskResponse → Type 0
IsFor t r = ((m : String) × (r ≡ failed t m)) ⊎ ((m : String) × (r ≡ succeeded t m))

pub IsFor-task : {t : AdminTask} {r : AdminTaskResponse} → IsFor t r → r.admin_task ≡ t
IsFor-task (inl (m, h)) = ap (λ r. r.admin_task) h
IsFor-task (inr (m, h)) = ap (λ r. r.admin_task) h

module _ {e : Env} where
  Answers-pure : {A : Type 0} (P : A → Type 0) (a : A) → P a → Answers {e = e} P (pure a)
  unfolding pure
  Answers-pure P a h = record { run = λ n. (a, refl, h) }

  Answers->>= :
      {A B : Type 0} (P : A → Type 0) (Q : B → Type 0) (m : M e A) (f : A → M e B)
      → Answers P m
      → ((a : A) → Answers Q (f a))
      → Answers Q (m >>= f)
  unfolding ◌>>=◌
  Answers->>= P Q m f h k = record {
    run = λ n.
        let (a, given, _) = h.run n in
        let (b, then_given, q) = (k a).run (m n).1 in (b, rw given then_given, q);
  }

  Answers-if :
      {A : Type 0} (P : A → Type 0) (b : Bool) (m k : M e A)
      → Answers P m
      → Answers P k
      → Answers P (if b then m else k)
  Answers-if P true m k h g = h
  Answers-if P false m k h g = g

  on_chain-Answers :
      {A : Type 0} (f : e.client.Chain → A × e.client.Chain)
      → Answers {e = e} (λ a. Unit {0}) (on_chain {e = e} f)
  unfolding on_chain
  on_chain-Answers f = record { run = λ n. ((f n.chain).0, refl, tt) }

  modify-Answers : (f : Node e → Node e) → Answers {e = e} (λ a. Unit {0}) (modify f)
  unfolding modify
  modify-Answers f = record { run = λ n. (tt, refl, tt) }

  with_opts-Answers :
      (d : Display) (f : TransactOpts → e.client.Chain → Result Tx × e.client.Chain)
      → Answers {e = e} (λ a. Unit {0}) (with_opts {e = e} d f)
  unfolding with_opts on_chain
  with_opts-Answers d f = record { run = λ n. ((f n.transact_opts n.chain).0, refl, tt) }

  price_renewed-Answers : (r : Result ℕ) → Answers {e = e} (λ a. Unit {0}) (price_renewed r)
  unfolding price_renewed
  price_renewed-Answers (err m) = Answers-pure _ _ tt
  price_renewed-Answers (ok p) = Answers->>= _ _ _ _ (modify-Answers _) (λ a. Answers-pure _ _ tt)

  nonce_renewed-Answers : (r : Result ℕ) → Answers {e = e} (λ a. Unit {0}) (nonce_renewed r)
  unfolding nonce_renewed
  nonce_renewed-Answers (err m) = Answers-pure _ _ tt
  nonce_renewed-Answers (ok v) =
      Answers->>= _ _ _ _ (modify-Answers _)
        (λ a. Answers->>= _ _ _ _ (on_chain-Answers _) price_renewed-Answers)

  renew_transact_opts-Answers : Answers {e = e} (λ a. Unit {0}) renew_transact_opts
  unfolding renew_transact_opts
  renew_transact_opts-Answers = Answers->>= _ _ _ _ (on_chain-Answers _) nonce_renewed-Answers

  module _ (d : Display) (t : AdminTask) where
    failed-Answers : (m : String) → Answers {e = e} (IsFor t) (pure (failed t m))
    failed-Answers m = Answers-pure _ _ (inl (m, refl))

    succeeded-Answers : (m : String) → Answers {e = e} (IsFor t) (pure (succeeded t m))
    succeeded-Answers m = Answers-pure _ _ (inr (m, refl))

    after_tx-Answers : (r : Result Tx) → Answers {e = e} (IsFor t) (after_tx d t r)
    unfolding after_tx
    after_tx-Answers (err m) = failed-Answers m
    after_tx-Answers (ok tx) = Answers->>= _ _ _ _ (modify-Answers _) (λ a. succeeded-Answers _)

    report-Answers : (f : ℕ → String) (r : Result ℕ) → Answers {e = e} (IsFor t) (report d t f r)
    unfolding report
    report-Answers f (err m) = failed-Answers m
    report-Answers f (ok v) = succeeded-Answers _

    call-Answers :
        (f : TransactOpts → e.client.Chain → Result Tx × e.client.Chain)
        → Answers {e = e} (IsFor t) (with_opts {e = e} d f >>= after_tx d t)
    call-Answers f = Answers->>= _ _ _ _ (with_opts-Answers d f) after_tx-Answers

    query-Answers :
        (f : e.client.Chain → Result ℕ × e.client.Chain) (text : ℕ → String)
        → Answers {e = e} (IsFor t) (on_chain {e = e} f >>= report d t text)
    query-Answers f text = Answers->>= _ _ _ _ (on_chain-Answers f) (report-Answers text)

    withdraw_available-Answers :
        (r : Result ℕ) → Answers {e = e} (IsFor t) (withdraw_available d t r)
    unfolding withdraw_available
    withdraw_available-Answers (err m) = failed-Answers m
    withdraw_available-Answers (ok v) = Answers-if _ _ _ _ (failed-Answers _) (call-Answers _)

    withdraw-Answers : Answers {e = e} (IsFor t) (withdraw d t)
    unfolding withdraw
    withdraw-Answers = Answers->>= _ _ _ _ (on_chain-Answers _) withdraw_available-Answers

    query_withdrawable-Answers : Answers {e = e} (IsFor t) (query_withdrawable d t)
    unfolding query_withdrawable
    query_withdrawable-Answers = query-Answers _ _

    query_fees-Answers : Answers {e = e} (IsFor t) (query_fees d t)
    unfolding query_fees
    query_fees-Answers = query-Answers _ _

    query_granular_fees-Answers : Answers {e = e} (IsFor t) (query_granular_fees d t)
    unfolding query_granular_fees
    query_granular_fees-Answers = query-Answers _ _

    run_task-Answers : Answers {e = e} (IsFor t) (run_task d t)
    unfolding run_task register_as_provider set_global_fee set_granular_fee
    run_task-Answers =
        search
          (
            Answers-if, call-Answers, query_withdrawable-Answers, query_fees-Answers,
            query_granular_fees-Answers, withdraw-Answers, failed-Answers,
          )
          depth 14

    after_renewal-Answers : (o : Option String) → Answers {e = e} (IsFor t) (after_renewal d t o)
    unfolding after_renewal
    after_renewal-Answers (some m) = failed-Answers m
    after_renewal-Answers none = run_task-Answers

    pub process_admin_task-Answers : Answers {e = e} (IsFor t) (process_admin_task d t)
    unfolding process_admin_task
    process_admin_task-Answers =
        Answers->>= _ _ _ _ renew_transact_opts-Answers after_renewal-Answers

  pub process_admin_task-IsFor :
      (d : Display) (t : AdminTask) (n : Node e) {r : AdminTaskResponse}
      → (process_admin_task d t n).0 ≡ some r
      → IsFor t r
  process_admin_task-IsFor d t n {r} h =
      let (q, given, own) = (process_admin_task-Answers d t).run n in
      let same : q ≡ r = cc in subst (IsFor t) same own
