-- ===== src/Service/Analytics/Stats/Extremes.antt =====
-- go-ooo/service/analytics.go, runAnalytics: the extremes of the gas used.
use xfund_router.Common.{
  ℕ, ◌+◌, ◌<◌, ◌≡◌, refl, ◌∙◌, sym, Bool, true, false, List, [], ◌∷◌, All, map, length, arith, ◌==◌,
  ltb, if◌then◌else◌,
}
use xfund_router.Common.Sums.{sum, least, greatest, least-two, greatest-two}
use xfund_router.Common.Int.{pos, i64_limit, to_int64-eq_of_lt}
use xfund_router.Models.{DataRequests}
use xfund_router.Utils.{Floats}
use xfund_router.Service.Analytics.Types.{Arithmetic, AnalyticsTask}
use xfund_router.Service.Analytics.Stats.{
  IntTotals, no_totals, add_value, Totals, add_row, add_rows, none_yet, run_analytics,
}

-- The gas that was used, as an `int64` above 0.
abbrev pub HasGas : DataRequests → Type 0
HasGas r = (0 < r.fulfill_gas_used) × (r.fulfill_gas_used < i64_limit)

abbrev pub gas_of : List DataRequests → List ℕ
gas_of = map (λ r. r.fulfill_gas_used)

abbrev totals : ℕ → ℕ → ℕ → IntTotals
totals m k s = record { min = pos m; max = pos k; sum = pos s }

totals-eq : {m m' k k' s s' : ℕ} → m ≡ m' → k ≡ k' → s ≡ s' → totals m k s ≡ totals m' k' s'
totals-eq p q r = λ i. totals (p i) (q i) (r i)

ap_pos : (b : Bool) (n m : ℕ) → (if b then pos n else pos m) ≡ pos (if b then n else m)
ap_pos true n m = refl
ap_pos false n m = refl

add_value-first : (v : ℕ) → 0 < v → add_value (pos v) no_totals ≡ totals v v v
unfolding add_value
add_value-first v h =
    let above : ltb 0 v ≡ true = ground (arith, h) in rw above (totals-eq refl refl (omega arith))

add_value-next :
    (v m k s : ℕ)
    → 0 < m
    → add_value (pos v) (totals m k s)
      ≡ totals (if ltb v m then v else m) (if ltb k v then v else k) (s + v)
unfolding add_value
add_value-next v m k s h =
    let seen : (m == 0) ≡ false = ground (arith, h) in
    rw (seen, ap_pos (ltb v m) v m, ap_pos (ltb k v) v k) refl

smaller_pos : (v m : ℕ) → 0 < v → 0 < m → 0 < (if ltb v m then v else m)
smaller_pos v m h k = ground (arith, h, k)

module _ {f : Floats} (a : Arithmetic f) (task : AnalyticsTask f) where
  add_rows-gas :
      (rows : List DataRequests) (t : Totals f) (m k s : ℕ)
      → All HasGas rows
      → 0 < m
      → t.gas ≡ totals m k s
      → (add_rows a task rows t).gas
        ≡ totals (least (m ∷ gas_of rows)) (greatest (k ∷ gas_of rows)) (s + sum (gas_of rows))
  unfolding add_rows add_row
  add_rows-gas [] t m k s h above e = e ∙ totals-eq refl (ground arith) (omega arith)
  add_rows-gas (r ∷ rows) t m k s h above e =
      let v = r.fulfill_gas_used in
      let next : (add_row a task r t).gas
          ≡ totals (if ltb v m then v else m) (if ltb k v then v else k) (s + v) =
        rw (to_int64-eq_of_lt v h.0.1, e) (add_value-next v m k s above) in
      add_rows-gas rows (add_row a task r t) (if ltb v m then v else m) (if ltb k v then v else k)
        (s + v) h.1 (smaller_pos v m h.0.0 above) next
      ∙ totals-eq (sym (least-two m v (gas_of rows))) (sym (greatest-two k v (gas_of rows)))
          (omega arith)

  -- For requests whose gas used is above 0 and fits an int64, the statistics of the gas used are
  -- those of the list of these amounts: its least and its greatest member, and the quotient of its
  -- sum and its length.
  pub run_analytics-gas :
      (r : DataRequests) (rows : List DataRequests)
      → All HasGas (r ∷ rows)
      → let gas = gas_of (r ∷ rows) in
        let stats = (run_analytics a (r ∷ rows) task).gas_used in
        (stats.min ≡ a.int_uint64 (pos (least gas)))
        × (stats.max ≡ a.int_uint64 (pos (greatest gas)))
        × (stats.mean
            ≡ a.float_uint64
                (a.quo (a.of_int (pos (sum gas))) (a.of_int (pos (length (r ∷ rows))))))
  unfolding run_analytics add_rows add_row
  run_analytics-gas r rows h =
      let v = r.fulfill_gas_used in
      let first : (add_row a task r (none_yet a)).gas ≡ totals v v v =
        rw (to_int64-eq_of_lt v h.0.1) (add_value-first v h.0.0) in
      rw (add_rows-gas rows (add_row a task r (none_yet a)) v v v h.1 h.0.0 first)
        (refl, refl, refl)
