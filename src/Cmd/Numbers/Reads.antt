-- ===== src/Cmd/Numbers/Reads.antt =====
-- go-ooo/cmd: the fee that a task is sent with, for the text that was typed.
use Prim.Native.Char.{Char, code}
use Prim.Native.String.{◌++◌ as ◌<>◌}
use text.Mathlib.TextLemmas.{cons-append, nil-append, append-nil}
use xfund_router.Common.{
  ℕ, ◌+◌, ◌-◌, ◌*◌, ◌<◌, ◌≤◌, ◌≡◌, refl, ◌∙◌, String, false, some, arith, ◌==◌, ap, sym,
}
use xfund_router.Common.Words.{u64_mod}
use xfund_router.Common.Int.{pos, i64_limit}
use xfund_router.OooApi.Finchains.{scan, itoa}
use xfund_router.OooApi.Decimal.{scan-itoa}
use xfund_router.Cmd.Numbers.{scan64, digits64, pos_value, int_value, fee_of}
use xfund_router.Cmd.Admin.{set_fee_cmd, register_cmd}

scan-le : (s : String) (n m : ℕ) → scan s n ≡ some m → n ≤ m
unfolding scan
scan-le String.[] n m h = ground arith
scan-le (String.◌∷◌ c s) n m h = ground (arith, scan-le s (n * 10 + (code c - b'0')) m)

scan-nil : (n : ℕ) → scan "" 0 ≡ some n → n ≡ 0
unfolding scan
scan-nil n h = ground arith

scan-digit_code :
    (c : Char) (s : String) (n m : ℕ)
    → scan (String.◌∷◌ c s) n ≡ some m
    → (b'0' ≤ code c) × (code c ≤ b'9')
unfolding scan
scan-digit_code c s n m h = ground arith

-- What follows digits is read after them.
scan64-append :
    (s t : String) (n m : ℕ) → scan s n ≡ some m → m < u64_mod → scan64 (s <> t) n ≡ scan64 t m
unfolding scan scan64
scan64-append String.[] t n m h k = rw (nil-append t) (ground arith)
scan64-append (String.◌∷◌ c s) t n m h k = rw (cons-append c s t) (
    ground (
      arith,
      scan-le s (n * 10 + (code c - b'0')) m,
      scan64-append s t (n * 10 + (code c - b'0')) m,
    ))

int_value-append :
    (s t : String) (n : ℕ)
    → 0 < n
    → n < u64_mod
    → scan s 0 ≡ some n
    → int_value (s <> t) ≡ pos_value (scan64 t n)
unfolding int_value digits64
int_value-append String.[] t n h k e = ground (arith, scan-nil n, h)
int_value-append (String.◌∷◌ c s) t n h k e =
    let rest : scan64 (String.◌∷◌ c (s <> t)) 0 ≡ scan64 t n =
      ap (λ u. scan64 u 0) (sym (cons-append c s t)) ∙ scan64-append (String.◌∷◌ c s) t 0 n e k in
    let plus : (code c == b'+') ≡ false = ground (arith, scan-digit_code c s 0 n e) in
    let minus : (code c == b'-') ≡ false = ground (arith, scan-digit_code c s 0 n e) in
    rw (cons-append c s t) (rw (plus, minus) (ap pos_value rest))

scan64_end : (n : ℕ) → n < i64_limit → pos_value (scan64 "" n) ≡ pos n
unfolding scan64
scan64_end n k = ground arith

scan64_point : (rest : String) (n : ℕ) → pos_value (scan64 ("." <> rest) n) ≡ pos 0
unfolding scan64
scan64_point rest n = rw (cons-append _ "" rest) refl

-- For a number n from 1 to the greatest int64, setFee and register with the decimal text of n send
-- the fee n, and with that text, a decimal point and any rest they send the fee 0.
pub set_fee_cmd-reads :
    (n : ℕ) (rest : String)
    → 0 < n
    → n < i64_limit
    → ((set_fee_cmd (itoa n)).fee_or_amount ≡ n)
      × ((register_cmd (itoa n)).fee_or_amount ≡ n)
      × ((set_fee_cmd (itoa n <> ("." <> rest))).fee_or_amount ≡ 0)
      × ((register_cmd (itoa n <> ("." <> rest))).fee_or_amount ≡ 0)
unfolding set_fee_cmd register_cmd fee_of
set_fee_cmd-reads n rest h k =
    let digits : scan (itoa n) 0 ≡ some n = scan-itoa n k in
    let whole : int_value (itoa n) ≡ pos n =
      ap int_value (sym (append-nil (itoa n)))
      ∙ (int_value-append (itoa n) "" n h (omega arith) digits ∙ scan64_end n k) in
    let broken : int_value (itoa n <> ("." <> rest)) ≡ pos 0 =
      int_value-append (itoa n) ("." <> rest) n h (omega arith) digits ∙ scan64_point rest n in
    (rw whole refl, rw whole refl, rw broken refl, rw broken refl)
