-- ===== src/Utils/Hex.antt =====
-- go-ooo/utils/utils.go: the prefix of a hexadecimal text.
use Prim.Native.Char.{Char, code}
use Prim.Native.String.{◌++◌ as ◌<>◌}
use text.Mathlib.TextLemmas.{cons-append}
use xfund_router.Common.{◌≡◌, refl, String, true, false, ◌&&◌, ◌||◌, ◌==◌, Bool-cases, inl, inr}
use xfund_router.Utils.{has_hex_prefix, add_hex_prefix}

-- A text with the prefix stays as it is.
pub add_hex_prefix_has : (s : String) → has_hex_prefix s ≡ true → add_hex_prefix s ≡ s
unfolding has_hex_prefix add_hex_prefix
add_hex_prefix_has String.[] h = cc
add_hex_prefix_has (String.◌∷◌ a String.[]) h = cc
add_hex_prefix_has (String.◌∷◌ a (String.◌∷◌ x s)) h = rw h refl

has_hex_prefix_of_chars :
    (a x : Char) (s : String)
    → ((code a == b'0') && ((code x == b'x') || (code x == b'X'))) ≡ true
    → has_hex_prefix (String.◌∷◌ a (String.◌∷◌ x "") <> s) ≡ true
unfolding has_hex_prefix
has_hex_prefix_of_chars a x s h = rw (cons-append a (String.◌∷◌ x "") s, cons-append x "" s) h

prefix_of_lacking : (s : String) → has_hex_prefix s ≡ false → add_hex_prefix s ≡ "0x" <> s
unfolding has_hex_prefix add_hex_prefix
prefix_of_lacking String.[] h = refl
prefix_of_lacking (String.◌∷◌ a String.[]) h = refl
prefix_of_lacking (String.◌∷◌ a (String.◌∷◌ x s)) h = rw h refl

pub has_hex_prefix-add_hex_prefix : (s : String) → has_hex_prefix (add_hex_prefix s) ≡ true
has_hex_prefix-add_hex_prefix s = elim (Bool-cases (has_hex_prefix s)) [
  | inl h ↦ rw (add_hex_prefix_has s h) h
  | inr h ↦ rw (prefix_of_lacking s h) (has_hex_prefix_of_chars _ _ s refl)
]
