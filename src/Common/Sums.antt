-- ===== src/Common/Sums.antt =====
-- Sums, extremes and means of lists of native numbers.
use Prim.Native.Nat.{ℕ, suc, ◌+◌, ◌*◌, ◌/◌, ◌≤◌, ◌<◌}
use native.Mathlib.Nat.{le-div_iff_mul-le, div-lt_iff_lt-mul, mul-le-mul_right}
use mathlib.Core.Path.{◌≡◌}
use mathlib.Core.Logic.{inl, inr}
use mathlib.Core.List.{List, [], ◌∷◌, ◌++◌}
use native.Mathlib.Omega.{arith}
use xfund_router.Common.Tests.{ltb, leb, if◌then◌else◌, Bool-cases}
use xfund_router.Common.Lists.{length, All}

abbrev pub sum : List ℕ → ℕ
sum [] = 0
sum (n ∷ ns) = n + sum ns

-- The least and the greatest member, 0 where there is none.
abbrev pub least : List ℕ → ℕ
least [] = 0
least (n ∷ []) = n
least (n ∷ m ∷ ns) = let rest = least (m ∷ ns) in if leb n rest then n else rest

abbrev pub greatest : List ℕ → ℕ
greatest [] = 0
greatest (n ∷ ns) = let rest = greatest ns in if leb n rest then rest else n

least-sum : (ns : List ℕ) → least ns * length ns ≤ sum ns
least-sum [] = omega arith
least-sum (n ∷ []) = omega arith
least-sum (n ∷ m ∷ ns) =
    let k : ℕ = suc (length ns) in
    let rest : ℕ = least (m ∷ ns) in
    elim (Bool-cases (leb n rest)) [
      | inl q ↦ rw q (
          omega
            (arith, mul-le-mul_right {m = n} {n = rest} k (ground (arith, q)), least-sum (m ∷ ns)))
      | inr q ↦
          let above : rest ≤ n = ground (arith, q) in
          rw q (omega (arith, above, least-sum (m ∷ ns)))
    ]

sum-greatest : (ns : List ℕ) → sum ns ≤ greatest ns * length ns
sum-greatest [] = omega arith
sum-greatest (n ∷ ns) =
    let k : ℕ = length ns in
    let rest : ℕ = greatest ns in
    elim (Bool-cases (leb n rest)) [
      | inl q ↦
          let below : n ≤ rest = ground (arith, q) in rw q (omega (arith, below, sum-greatest ns))
      | inr q ↦ rw q (
          omega (arith, mul-le-mul_right {m = rest} {n = n} k (ground (arith, q)), sum-greatest ns))
    ]

pub least_pos : (n : ℕ) (ns : List ℕ) → All (λ w. 0 < w) (n ∷ ns) → 0 < least (n ∷ ns)
least_pos n [] h = h.0
least_pos n (m ∷ ns) h = ground (arith, least_pos m ns h.1, h.0)

-- The mean lies between the least and the greatest member.
pub mean-bounds :
    (n : ℕ) (ns : List ℕ)
    → (least (n ∷ ns) ≤ sum (n ∷ ns) / length (n ∷ ns))
      × (sum (n ∷ ns) / length (n ∷ ns) ≤ greatest (n ∷ ns))
mean-bounds n ns =
    let total : ℕ = sum (n ∷ ns) in
    let count : ℕ = length (n ∷ ns) in
    let top : ℕ = suc (greatest (n ∷ ns)) in
    let sum_lt : total < top * count = omega (arith, sum-greatest (n ∷ ns)) in
    let below : total / count < top =
      (div-lt_iff_lt-mul {k = count} {x = total} {y = top} (omega arith)).1 sum_lt in
    ((le-div_iff_mul-le (omega arith)).1 (least-sum (n ∷ ns)), omega (arith, below))

pub sum-append : (ns ms : List ℕ) → sum (ns ++ ms) ≡ sum ns + sum ms
sum-append [] ms = omega arith
sum-append (n ∷ ns) ms = omega (arith, sum-append ns ms)

-- The extremes of a list, its first two members made one.
pub least-two :
    (n m : ℕ) (ns : List ℕ) → least (n ∷ m ∷ ns) ≡ least ((if ltb m n then m else n) ∷ ns)
least-two n m [] = ground arith
least-two n m (k ∷ ns) = ground arith

pub greatest-two :
    (n m : ℕ) (ns : List ℕ) → greatest (n ∷ m ∷ ns) ≡ greatest ((if ltb n m then m else n) ∷ ns)
greatest-two n m ns = ground arith
