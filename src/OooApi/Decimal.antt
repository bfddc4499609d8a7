-- ===== src/OooApi/Decimal.antt =====
-- go-ooo/ooo_api/api.go: decimal texts, as strconv reads and prints them.
use Prim.Native.Nat.pow
use Prim.Native.Char.{Char, code}
use Prim.Native.String.{◌++◌ as ◌<>◌}
use text.Mathlib.TextLemmas.{cons-append, nil-append}
use xfund_router.Common.{
  ℕ, zero, suc, ◌+◌, ◌-◌, ◌*◌, ◌/◌, ◌%◌, ◌^◌, ◌<◌, ◌≡◌, ◌⊎◌, inl, inr, refl, ◌∙◌, ap, subst, String,
  true, false, ◌||◌, Option, none, some, ◌==◌, ltb, arith, get_or, Bool-cases, Option-cases,
}
use xfund_router.Common.Int.{ℤ, pos, negsuc, i64_limit, is_positive}
use xfund_router.OooApi.Finchains.{
  scan, digits, bounded_pos, bounded_neg, parse_int, digit_texts, emit, itoa, cleanse_dmax,
}

scan-digit_char :
    (c : Char) (r : ℕ) (out : String) (a : ℕ)
    → code c ≡ b'0' + r
    → r < 10
    → scan (String.◌∷◌ c "" <> out) a ≡ scan out (a * 10 + r)
unfolding scan
scan-digit_char c r out a h k =
    let value : code c - b'0' ≡ r = omega (arith, h) in
    let digit : (ltb (code c) b'0' || ltb b'9' (code c)) ≡ false = ground (arith, h, k) in
    rw (cons-append c "" out, nil-append out, scan, digit, value) refl

scan-digit :
    (r : ℕ) (out : String) (a : ℕ)
    → r < 10
    → scan (get_or digit_texts r "" <> out) a ≡ scan out (a * 10 + r)
scan-digit zero out a h = scan-digit_char _ 0 out a refl (omega arith)
scan-digit (suc zero) out a h = scan-digit_char _ 1 out a refl (omega arith)
scan-digit (suc (suc zero)) out a h = scan-digit_char _ 2 out a refl (omega arith)
scan-digit (suc (suc (suc zero))) out a h = scan-digit_char _ 3 out a refl (omega arith)
scan-digit (suc (suc (suc (suc zero)))) out a h = scan-digit_char _ 4 out a refl (omega arith)
scan-digit (suc (suc (suc (suc (suc zero))))) out a h = scan-digit_char _ 5 out a refl (omega arith)
scan-digit (suc (suc (suc (suc (suc (suc zero)))))) out a h =
    scan-digit_char _ 6 out a refl (omega arith)
scan-digit (suc (suc (suc (suc (suc (suc (suc zero))))))) out a h =
    scan-digit_char _ 7 out a refl (omega arith)
scan-digit (suc (suc (suc (suc (suc (suc (suc (suc zero)))))))) out a h =
    scan-digit_char _ 8 out a refl (omega arith)
scan-digit (suc (suc (suc (suc (suc (suc (suc (suc (suc zero))))))))) out a h =
    scan-digit_char _ 9 out a refl (omega arith)
scan-digit (suc (suc (suc (suc (suc (suc (suc (suc (suc (suc r)))))))))) out a h =
    absurd (omega (arith, h))

scan-nil : (n : ℕ) → scan "" n ≡ some n
unfolding scan
scan-nil n = refl

pow-suc : (k : ℕ) → 10 ^ suc k ≡ 10 * 10 ^ k
pow-suc k = (λ i. pow.suc 10 k i) ∙ omega arith

quotient_lt : (n m : ℕ) → n < 10 * m → n / 10 < m
quotient_lt n m h = omega (arith, h)

-- Reading what was printed before `out` goes on with `out` and the number.
scan-emit : (fuel n : ℕ) (out : String) → n < 10 ^ fuel → scan (emit fuel n out) 0 ≡ scan out n
unfolding emit
scan-emit zero n out h = ap (scan out) (omega (arith, h))
scan-emit (suc fuel) n out h = elim (Bool-cases (n == 0)) [
  | inl q ↦ rw q (ap (scan out) (ground (arith, q)))
  | inr q ↦ rw q (
      scan-emit fuel (n / 10) (get_or digit_texts (n % 10) "" <> out)
        (quotient_lt n (10 ^ fuel) (subst (λ x. n < x) (pow-suc fuel) h))
      ∙ (scan-digit (n % 10) out (n / 10) (omega arith) ∙ ap (scan out) (omega arith)))
]

-- A text that is read as digits is read as that number.
parse_int-digits :
    (s : String) (n : ℕ) → 0 < n → n < i64_limit → scan s 0 ≡ some n → parse_int s ≡ some (pos n)
unfolding parse_int digits scan
parse_int-digits String.[] n h k e = ground (arith, e, h)
parse_int-digits (String.◌∷◌ c s) n h k e = ground (arith, e, k)

pub scan-itoa : (n : ℕ) → n < i64_limit → scan (itoa n) 0 ≡ some n
unfolding itoa
scan-itoa n k = scan-emit 20 n "" (omega (arith, k)) ∙ scan-nil n

pub parse_int-itoa : (n : ℕ) → 0 < n → n < i64_limit → parse_int (itoa n) ≡ some (pos n)
unfolding itoa
parse_int-itoa n h k = parse_int-digits (emit 20 n "") n h k (scan-itoa n k)

bounded_pos-bound : (o : Option ℕ) (n : ℕ) → bounded_pos o ≡ some (pos n) → n < i64_limit
bounded_pos-bound none n h = cc
bounded_pos-bound (some m) n h = ground (arith, h)

bounded_neg-bound : (o : Option ℕ) (n : ℕ) → bounded_neg o ≡ some (pos n) → n < i64_limit
bounded_neg-bound none n h = cc
bounded_neg-bound (some zero) n h = ground (arith, h)
bounded_neg-bound (some (suc m)) n h = ground (arith, h)

parse_int-bound : (s : String) (n : ℕ) → parse_int s ≡ some (pos n) → n < i64_limit
unfolding parse_int
parse_int-bound String.[] n h = cc
parse_int-bound (String.◌∷◌ c s) n h = ground (
  arith,
  h,
  bounded_pos-bound (digits s) n,
  bounded_neg-bound (digits s) n,
  bounded_pos-bound (digits (String.◌∷◌ c s)) n,
)

positive : (n : ℕ) → ltb 0 (suc n) ≡ true
positive n = ground arith

-- The number of deviations that is asked for is, read back as an int64, the one of the endpoint if
-- that is a positive int64, and is 3 if the text is no int64 or not a positive one.
pub cleanse_dmax-reads :
    (d_max : String)
    → ((n : ℕ) × (0 < n)
        × (parse_int d_max ≡ some (pos n))
        × (parse_int (cleanse_dmax d_max) ≡ some (pos n)))
      ⊎ (((parse_int d_max ≡ none)
            ⊎ ((z : ℤ) × (parse_int d_max ≡ some z) × (is_positive z ≡ false)))
          × (cleanse_dmax d_max ≡ "3"))
unfolding cleanse_dmax
cleanse_dmax-reads d_max = elim (Option-cases (parse_int d_max)) [
  | inl h ↦ inr (inl h, rw h refl)
  | inr (negsuc n, h) ↦ inr (inr (negsuc n, h, refl), rw h refl)
  | inr (pos zero, h) ↦ inr (inr (pos zero, h, refl), rw h refl)
  | inr (pos (suc n), h) ↦ inl (
    suc n,
    omega arith,
    h,
    rw (h, positive n) (parse_int-itoa (suc n) (omega arith) (parse_int-bound d_max (suc n) h)),
  )
]
