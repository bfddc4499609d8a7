-- ===== src/Cmd/Numbers.antt =====
-- go-ooo/cmd/register.go, setFee.go, setGranularFee.go and withdraw.go: the number in an argument, read
-- by `strconv.ParseInt(s, 10, 64)` with its error dropped.
pub mod Reads
use Prim.Native.Char.{code}
use xfund_router.Common.{
  ℕ, zero, suc, ◌+◌, ◌-◌, ◌*◌, String, ◌||◌, Option, none, some, ltb, ◌==◌, if◌then◌else◌,
}
use xfund_router.Common.Words.{u64_mod}
use xfund_router.Common.Int.{ℤ, pos, negsuc, i64_limit, to_uint64}

-- Digits after `n`: none of a text with another character; a value that leaves 64 bits ends the
-- reading with the greatest one.
unfoldable pub scan64 : String → ℕ → Option ℕ
scan64 String.[] n = some n
scan64 (String.◌∷◌ c s) n =
    let next_n : ℕ = n * 10 + (code c - b'0') in
    let rest = scan64 s next_n in
    if ltb (code c) b'0' || ltb b'9' (code c)
    then none
    else if ltb next_n u64_mod
    then rest
    else some (u64_mod - 1)

unfoldable pub digits64 : String → Option ℕ
digits64 String.[] = none
digits64 (String.◌∷◌ c s) = scan64 (String.◌∷◌ c s) 0

abbrev pub pos_value : Option ℕ → ℤ
pos_value none = pos 0
pos_value (some n) = if ltb n i64_limit then pos n else pos (i64_limit - 1)

abbrev pub neg_value : Option ℕ → ℤ
neg_value none = pos 0
neg_value (some zero) = pos 0
neg_value (some (suc n)) = if ltb n i64_limit then negsuc n else negsuc (i64_limit - 1)

unfoldable pub int_value : String → ℤ
int_value String.[] = pos 0
int_value (String.◌∷◌ c s) =
    if code c == b'+'
    then pos_value (digits64 s)
    else if code c == b'-'
    then neg_value (digits64 s)
    else pos_value (digits64 (String.◌∷◌ c s))

-- `uint64(fee)`.
unfoldable pub fee_of : String → ℕ
fee_of s = to_uint64 (int_value s)
