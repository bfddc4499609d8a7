-- ===== src/Utils.antt =====
-- go-ooo/utils/utils.go: hexadecimal prefixes, and amounts of ether in wei.
pub mod Hex
use Prim.Native.Char.{Char, code}
use Prim.Native.String.{◌++◌ as ◌<>◌, count}
use xfund_router.Common.{
  ℕ, zero, suc, ◌+◌, ◌-◌, ◌*◌, String, Bool, true, false, ◌&&◌, ◌||◌, List, [], ◌∷◌, Option, none,
  some, Result, ltb, ◌==◌, if◌then◌else◌,
}
use xfund_router.Common.Int.{ℤ, pos, negsuc}
use xfund_router.OooApi.Endpoint.{split}
use xfund_router.OooApi.Finchains.{digits}

unfoldable pub has_hex_prefix : String → Bool
has_hex_prefix (String.◌∷◌ a (String.◌∷◌ x s)) =
    (code a == b'0') && ((code x == b'x') || (code x == b'X'))
has_hex_prefix _ = false

unfoldable pub remove_hex_prefix : String → String
unfolding has_hex_prefix
remove_hex_prefix (String.◌∷◌ a (String.◌∷◌ x s)) =
    if has_hex_prefix (String.◌∷◌ a (String.◌∷◌ x s)) then s else String.◌∷◌ a (String.◌∷◌ x s)
remove_hex_prefix s = s

-- `strings.ToLower(str[0:2]) != "0x"` of a text of at least two characters.
unfoldable pub add_hex_prefix : String → String
add_hex_prefix (String.◌∷◌ a (String.◌∷◌ x s)) =
    if (code a == b'0') && ((code x == b'x') || (code x == b'X'))
    then String.◌∷◌ a (String.◌∷◌ x s)
    else "0x" <> String.◌∷◌ a (String.◌∷◌ x s)
add_hex_prefix s = "0x" <> s

-- `math/big` and `strconv` on `float64` (`F`) and `big.Float` (`B`), and montanaflynn/stats: the
-- value that a text has and the error of reading it; `Int`, which is nil for an infinity; and the
-- decimal text with 18 places.
pub record Floats : Type 1 where
  pub F : Type 0
  pub B : Type 0
  pub of_nat : ℕ → F
  pub is_zero : F → Bool
  pub gt : F → F → Bool
  pub sub : F → F → F
  pub div : F → F → F
  pub abs : F → F
  pub mean : List F → Result F
  pub standard_deviation : List F → Result F
  pub new_float : F → B
  pub float64 : B → F
  pub cmp_less : B → B → Bool
  pub int : B → Option ℤ
  pub fixed18 : B → String
  pub sscan : String → B × Option String

-- `fmt.Sscan` into a float of 236 bits.
abbrev pub parse_big_float : (f : Floats) → String → f.B × Option String
parse_big_float f value = f.sscan value

abbrev pub ether : ℕ
ether = 1000000000000000000

abbrev scale : ℕ → ℤ → ℤ
scale k (pos n) = pos (n * k)
scale k (negsuc n) = negsuc (suc n * k - 1)

abbrev add_nat : ℤ → ℕ → ℤ
add_nat (pos n) m = pos (n + m)
add_nat (negsuc n) m = if ltb n m then pos (m - suc n) else negsuc (n - m)

abbrev pub zeros : ℕ → String
zeros zero = ""
zeros (suc n) = "0" <> zeros n

-- The places, filled up to 18; a longer text panics, and so does a text that is no number.
abbrev frac_int : String → Option ℕ
frac_int frac_str =
    if ltb 18 (count frac_str) then none else digits (frac_str <> zeros (18 - count frac_str))

abbrev add_frac : ℤ → Option ℕ → Option ℤ
add_frac trunc_int none = none
add_frac trunc_int (some n) = some (add_nat (scale ether trunc_int) n)

-- The part behind the first point.
abbrev second_part : List String → Option String
second_part (a ∷ b ∷ _) = some b
second_part _ = none

abbrev wei_of : Option ℤ → Option String → Option ℤ
wei_of (some trunc_int) (some frac_str) = add_frac trunc_int (frac_int frac_str)
wei_of _ _ = none

-- `none` is a panic: of an infinity, which has no integer and no point in its text.
unfoldable pub ether_to_wei : (f : Floats) → f.B → Option ℤ
unfolding split digits
ether_to_wei f eth = wei_of (f.int eth) (second_part (split b'.' (f.fixed18 eth)))
