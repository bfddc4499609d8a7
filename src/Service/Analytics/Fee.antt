-- ===== src/Service/Analytics/Fee.antt =====
-- go-ooo/service/analytics.go, runSuggestFee: the least fee that earns more than a request costs.
use xfund_router.Common.{
  ℕ, zero, suc, ◌<◌, ◌^◌, map, ◌≡◌, ◌⊎◌, refl, ap, subst, inl, inr, Bool, true, false, ◌||◌, List,
  [], ◌∷◌, Option, none, some, if◌then◌else◌, length, arith, Bool-cases,
}
use xfund_router.Common.Int.{ℤ, to_int64}
use xfund_router.Models.{DataRequests}
use xfund_router.Utils.{Floats, ether}
use xfund_router.Service.Analytics.Types.{Arithmetic, AnalyticsTask}

module _ {f : Floats} (a : Arithmetic f) where
  abbrev pub big : ℕ → f.B
  big n = f.new_float (f.of_nat n)

  -- Gas used times gas price.
  abbrev pub cost_of : ℤ → ℤ → f.B
  cost_of gas_val gas_price_val = a.mul (a.of_int gas_val) (a.of_int gas_price_val)

  unfoldable pub cost_sum : List DataRequests → f.B → f.B
  cost_sum [] sum = sum
  cost_sum (r ∷ rows) sum =
      cost_sum rows
        (a.add53 sum (cost_of (to_int64 r.fulfill_gas_used) (to_int64 r.fulfill_gas_price)))

  unfoldable pub mean_cost : List DataRequests → f.B
  mean_cost rows = a.quo (a.quo (cost_sum rows (big 0)) (big ether)) (big (length rows))

  -- What a fee earns beyond the cost.
  abbrev pub profit_of : f.F → f.B → f.B → f.B
  profit_of price cost fee_xfund = a.minus (a.mul fee_xfund (f.new_float price)) cost

  -- `Cmp(0) <= 0`.
  abbrev pub is_loss : f.F → f.B → f.B → Bool
  is_loss price cost fee =
      f.cmp_less (profit_of price cost fee) (big 0)
      || a.cmp_equal (profit_of price cost fee) (big 0)

  abbrev pub next_fee : f.B → f.B
  next_fee fee = a.add53 fee (f.new_float a.fee_step)

  -- The loop, on fuel.
  unfoldable pub raise_fee : (fuel : ℕ) → f.F → f.B → f.B → Option f.B
  raise_fee zero price cost fee = none
  raise_fee (suc fuel) price cost fee =
      let rest = raise_fee fuel price cost (next_fee fee) in
      if is_loss price cost fee then rest else some fee

  -- Rounded up to four places, and its profit.
  abbrev pub suggestion : f.F → f.B → f.B → f.F × f.F
  suggestion price cost fee =
      let final_suggestion =
        a.over (a.ceil (a.times (f.float64 fee) (f.of_nat 10000))) (f.of_nat 10000) in
      (final_suggestion, f.float64 (profit_of price cost (f.new_float final_suggestion)))

  abbrev suggested : f.F → f.B → Option f.B → Option (f.F × f.F)
  suggested price cost none = none
  suggested price cost (some fee) = some (suggestion price cost fee)

  unfoldable pub run_suggest_fee :
      (fuel : ℕ) → List DataRequests → AnalyticsTask f → Option (f.F × f.F)
  run_suggest_fee fuel rows task =
      let cost = mean_cost rows in
      suggested task.curr_xfund_price cost (raise_fee fuel task.curr_xfund_price cost (big 0))

  -- The fee `n` steps above another one.
  abbrev pub fee_after : ℕ → f.B → f.B
  fee_after zero fee = fee
  fee_after (suc n) fee = fee_after n (a.add53 fee (f.new_float a.fee_step))

  -- The fee at the price, less the cost, is above 0; or it is below 0 or 0.
  abbrev pub Earns : f.F → f.B → f.B → Type 0
  Earns price cost fee =
      let earned = a.minus (a.mul fee (f.new_float price)) cost in
      (f.cmp_less earned (f.new_float (f.of_nat 0)) ≡ false)
      × (a.cmp_equal earned (f.new_float (f.of_nat 0)) ≡ false)

  abbrev pub Loses : f.F → f.B → f.B → Type 0
  Loses price cost fee =
      let earned = a.minus (a.mul fee (f.new_float price)) cost in
      (f.cmp_less earned (f.new_float (f.of_nat 0)) ≡ true)
      ⊎ (a.cmp_equal earned (f.new_float (f.of_nat 0)) ≡ true)

  -- The first `n` fees lose.
  abbrev pub Losing : f.F → f.B → ℕ → f.B → Type 0
  Losing price cost zero fee = Unit
  Losing price cost (suc n) fee =
      Loses price cost fee × Losing price cost n (a.add53 fee (f.new_float a.fee_step))

  -- The products of gas used and gas price, as int64, added in their order.
  abbrev pub total_of : f.B → List f.B → f.B
  total_of total [] = total
  total_of total (x ∷ xs) = total_of (a.add53 total x) xs

  abbrev pub products : List DataRequests → List f.B
  products rows =
      map
        (λ r.
          a.mul (a.of_int (to_int64 r.fulfill_gas_used)) (a.of_int (to_int64 r.fulfill_gas_price)))
        rows

  -- Their mean, in ether.
  abbrev pub expected_cost : List DataRequests → f.B
  expected_cost rows =
      a.quo
        (a.quo (total_of (f.new_float (f.of_nat 0)) (products rows))
          (f.new_float (f.of_nat (10 ^ 18))))
        (f.new_float (f.of_nat (length rows)))

  cost_sum-total_of :
      (rows : List DataRequests) (sum : f.B) → cost_sum rows sum ≡ total_of sum (products rows)
  unfolding cost_sum
  cost_sum-total_of [] sum = refl
  cost_sum-total_of (r ∷ rows) sum = cost_sum-total_of rows _

  pub mean_cost-expected_cost : (rows : List DataRequests) → mean_cost rows ≡ expected_cost rows
  unfolding mean_cost
  mean_cost-expected_cost rows =
      ap (λ x. a.quo (a.quo x (big ether)) (big (length rows))) (cost_sum-total_of rows (big 0))

  is_loss-cases :
      (price : f.F) (cost fee : f.B)
      → ((is_loss price cost fee ≡ true) × Loses price cost fee)
        ⊎ ((is_loss price cost fee ≡ false) × Earns price cost fee)
  is_loss-cases price cost fee = elim (Bool-cases (f.cmp_less (profit_of price cost fee) (big 0))) [
    | inl h ↦ inl (rw h refl, inl h)
    | inr h ↦ elim (Bool-cases (a.cmp_equal (profit_of price cost fee) (big 0))) [
      | inl k ↦ inl (rw (h, k) refl, inr k)
      | inr k ↦ inr (rw (h, k) refl, (h, k))
    ]
  ]

  raise_fee-cases :
      (fuel : ℕ) (price : f.F) (cost fee : f.B)
      → ((raise_fee fuel price cost fee ≡ none) × Losing price cost fuel fee)
        ⊎ ((n : ℕ) × (n < fuel)
            × Losing price cost n fee
            × Earns price cost (fee_after n fee)
            × (raise_fee fuel price cost fee ≡ some (fee_after n fee)))
  unfolding raise_fee
  raise_fee-cases zero price cost fee = inl (refl, tt)
  raise_fee-cases (suc fuel) price cost fee = elim (is_loss-cases price cost fee) [
    | inr (h, earns) ↦ inr (0, omega arith, tt, earns, rw h refl)
    | inl (h, loses) ↦ elim (raise_fee-cases fuel price cost (next_fee fee)) [
      | inl (e, l) ↦ inl (rw h e, (loses, l))
      | inr (n, lt, l, stop, e) ↦ inr (suc n, omega (arith, lt), (loses, l), stop, rw h e)
    ]
  ]

  -- Up to four places.
  abbrev pub rounded : f.B → f.F
  rounded fee = a.over (a.ceil (a.times (f.float64 fee) (f.of_nat 10000))) (f.of_nat 10000)

  -- With a mean cost, the search is out of fuel after losing fees, or ends at the first that earns.
  abbrev pub Searched : ℕ → f.F → f.B → Option (f.F × f.F) → Type 0
  Searched fuel price cost answer =
      ((answer ≡ none) × Losing price cost fuel (f.new_float (f.of_nat 0)))
      ⊎ ((n : ℕ) × (n < fuel)
          × Losing price cost n (f.new_float (f.of_nat 0))
          × Earns price cost (fee_after n (f.new_float (f.of_nat 0)))
          × (answer
              ≡ some (
                rounded (fee_after n (f.new_float (f.of_nat 0))),
                f.float64 (
                    a.minus
                      (a.mul (f.new_float (rounded (fee_after n (f.new_float (f.of_nat 0)))))
                        (f.new_float price))
                      cost),
              )))

  suggested-Searched :
      (fuel : ℕ) (price : f.F) (cost : f.B)
      → Searched fuel price cost (suggested price cost (raise_fee fuel price cost (big 0)))
  suggested-Searched fuel price cost = elim (raise_fee-cases fuel price cost (big 0)) [
    | inl (e, l) ↦ inl (ap (suggested price cost) e, l)
    | inr (n, lt, l, stop, e) ↦ inr (n, lt, l, stop, ap (suggested price cost) e)
  ]

  -- The search for a fee either ends within its fuel, at the first fee counted up from 0 in the
  -- steps of the source that at the price earns more than the mean cost of a request, neither less
  -- nor the same, after fees that each earn less or the same, and answers with that fee rounded up
  -- to four places and what the rounded fee earns beyond the cost; or it is out of fuel after fees
  -- that each earn less or the same. The mean cost is the sum of gas used times gas price over the
  -- rows, in ether, by their number.
  pub run_suggest_fee-cases :
      (fuel : ℕ) (rows : List DataRequests) (task : AnalyticsTask f)
      → Searched fuel task.curr_xfund_price (expected_cost rows) (run_suggest_fee fuel rows task)
  unfolding run_suggest_fee
  run_suggest_fee-cases fuel rows task =
      let price = task.curr_xfund_price in
      subst
        (λ c.
          Searched fuel price c
            (suggested price (mean_cost rows) (raise_fee fuel price (mean_cost rows) (big 0))))
        (mean_cost-expected_cost rows) (suggested-Searched fuel price (mean_cost rows))
