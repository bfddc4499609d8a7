-- ===== src/Cmd/Suggestion.antt =====
-- go-ooo/cmd/analytics.go with go-ooo/service/analytics.go: a suggested fee without a price.
use xfund_router.Common.{
  subst, sym, [], ◌<◌, ◌^◌, ◌||◌, All, arith, ℕ, zero, suc, String, true, false, none, List, ◌∷◌,
  ok, err, ◌≡◌, refl,
}
use xfund_router.Common.Int.{pos, to_int64-eq_of_lt}
use xfund_router.Models.{DataRequests}
use xfund_router.Gorm.{Gorm}
use xfund_router.Database.Queries.{get_last_x_successful_requests}
use xfund_router.Utils.{Floats}
use xfund_router.Service.Analytics.{process_analytics_task}
use xfund_router.Service.Analytics.Types.{Arithmetic}
use xfund_router.Service.Analytics.Fee.{
  big, cost_sum, is_loss, mean_cost, raise_fee, run_suggest_fee,
}
use xfund_router.Cmd.Admin.{Remote}
use xfund_router.Cmd.Analytics.{
  Flags, Json, price_url, get_xfund_price, curr_xfund_price, suggest_fee_task,
}

-- What `math/big` promises for numbers that are finite, without the sign of a zero: what is not
-- below 0 stays so under sums, products and quotients by a count, a product with 0 is 0, and 0 less
-- what is not below 0 is not above 0.
pub record IsOrdered {f : Floats} (a : Arithmetic f) : Type 0 where
  pub nat_up : (n : ℕ) → f.cmp_less (big a n) (big a 0) ≡ false
  pub int_up : (n : ℕ) → f.cmp_less (a.of_int (pos n)) (big a 0) ≡ false
  pub mul_up :
      (x y : f.B)
      → f.cmp_less x (big a 0) ≡ false
      → f.cmp_less y (big a 0) ≡ false
      → f.cmp_less (a.mul x y) (big a 0) ≡ false
  pub add_up :
      (x y : f.B)
      → f.cmp_less x (big a 0) ≡ false
      → f.cmp_less y (big a 0) ≡ false
      → f.cmp_less (a.add53 x y) (big a 0) ≡ false
  pub quo_up :
      (x : f.B) (n : ℕ)
      → f.cmp_less x (big a 0) ≡ false
      → 0 < n
      → f.cmp_less (a.quo x (big a n)) (big a 0) ≡ false
  pub mul_zero : (x : f.B) → a.mul x (big a 0) ≡ big a 0
  pub zero_minus :
      (x : f.B)
      → f.cmp_less x (big a 0) ≡ false
      → (f.cmp_less (a.minus (big a 0) x) (big a 0) || a.cmp_equal (a.minus (big a 0) x) (big a 0))
        ≡ true

-- The gas used and the gas price are int64 numbers.
abbrev pub HasGas : DataRequests → Type 0
HasGas r = (r.fulfill_gas_used < 2 ^ 63) × (r.fulfill_gas_price < 2 ^ 63)

module _ {f : Floats} (a : Arithmetic f) where
  raise_fee-ends :
      (fuel : ℕ) (price : f.F) (cost fee : f.B)
      → ((b : f.B) → is_loss a price cost b ≡ true)
      → raise_fee a fuel price cost fee ≡ none
  unfolding raise_fee
  raise_fee-ends zero price cost fee loses = refl
  raise_fee-ends (suc fuel) price cost fee loses =
      rw (loses fee) (raise_fee-ends fuel price cost _ loses)

  module _ (law : IsOrdered a) where
    cost_sum-up :
        (rows : List DataRequests) (sum : f.B)
        → All HasGas rows
        → f.cmp_less sum (big a 0) ≡ false
        → f.cmp_less (cost_sum a rows sum) (big a 0) ≡ false
    unfolding cost_sum
    cost_sum-up [] sum h up = up
    cost_sum-up (r ∷ rows) sum (gas, h) up =
        let used = law.int_up r.fulfill_gas_used in
        let price = law.int_up r.fulfill_gas_price in
        cost_sum-up rows _ h (
          rw
            (
              to_int64-eq_of_lt r.fulfill_gas_used gas.0,
              to_int64-eq_of_lt r.fulfill_gas_price gas.1,
            )
            (law.add_up _ _ up (law.mul_up _ _ used price)))

    mean_cost-up :
        (job : DataRequests) (jobs : List DataRequests)
        → All HasGas (job ∷ jobs)
        → f.cmp_less (mean_cost a (job ∷ jobs)) (big a 0) ≡ false
    unfolding mean_cost
    mean_cost-up job jobs h =
        law.quo_up _ _
          (law.quo_up _ _ (cost_sum-up (job ∷ jobs) (big a 0) h (law.nat_up 0)) (omega arith))
          (omega arith)

    -- At the price 0 a fee earns nothing.
    loses_free :
        (cost fee : f.B)
        → f.cmp_less cost (big a 0) ≡ false
        → is_loss a (f.of_nat 0) cost fee ≡ true
    loses_free cost fee up =
        subst
          (λ x.
            (f.cmp_less (a.minus x cost) (big a 0) || a.cmp_equal (a.minus x cost) (big a 0))
            ≡ true)
          (sym (law.mul_zero fee)) (law.zero_minus cost up)

module _ {f : Floats} (c : Remote) (j : Json f) (flags : Flags f) (net : c.Net) {m : String} where
  -- Without a price in the flags and from the server, the task has the price 0.
  no_price :
      f.gt flags.curr_xfund_price (f.of_nat 0) ≡ false
      → (c.get price_url net).0 ≡ err m
      → (curr_xfund_price c j flags net).0 ≡ f.of_nat 0
  unfolding curr_xfund_price get_xfund_price
  no_price unset unheard = rw (unset, unheard) refl

  module _ (a : Arithmetic f) (g : Gorm DataRequests) (t : g.Table) where
    -- With floats that are ordered as numbers are, if no price is given by the flags and the price
    -- server cannot be reached, and the jobs that were served are at least one and have int64
    -- numbers for gas used and gas price, the task that suggestFee sends is given no answer on any
    -- fuel.
    pub suggest_fee-hangs :
        (job : DataRequests) (jobs : List DataRequests)
        → IsOrdered a
        → All HasGas (job ∷ jobs)
        → f.gt flags.curr_xfund_price (f.of_nat 0) ≡ false
        → (c.get price_url net).0 ≡ err m
        → let task = suggest_fee_task c j flags (curr_xfund_price c j flags net).0 in
          (get_last_x_successful_requests g task.num_txs task.consumer t).0 ≡ ok (job ∷ jobs)
          → (fuel : ℕ) → (process_analytics_task a g fuel task t).0 ≡ none
    unfolding process_analytics_task suggest_fee_task run_suggest_fee
    suggest_fee-hangs job jobs law gas unset unheard some_jobs fuel = rw some_jobs (
        rw (no_price unset unheard) (
          rw
            (raise_fee-ends a fuel _ _ _
              (λ fee. loses_free a law _ fee (mean_cost-up a law job jobs gas)))
            refl))
