-- ===== src/OooApi/RoundTrip.antt =====
-- go-ooo/ooo_api/api.go: endpoint texts and their parts.
use Prim.Native.Char.{Char, code}
use Prim.Native.String.{◌++◌ as ◌<>◌}
use text.Mathlib.TextLemmas.{cons-append, nil-append}
use xfund_router.Common.{
  ℕ, suc, ◌<◌, ◌≡◌, ◌↔◌, refl, ◌∙◌, ap, String, true, false, List, [], ◌∷◌, ok, err, ◌==◌,
  if◌then◌else◌, All, arith, str_eq, length, get_or,
}
use xfund_router.OooApi.Endpoint.{split, push_char, parse_endpoint, endpoint_of_parts, is_adhoc}

-- The number of separators in a text.
abbrev pub count : ℕ → String → ℕ
count sep String.[] = 0
count sep (String.◌∷◌ c s) = let rest = count sep s in if code c == sep then suc rest else rest

-- `strings.Join(parts, ".")`.
abbrev pub join : List String → String
join [] = ""
join (w ∷ []) = w
join (w ∷ v ∷ ws) = w <> ("." <> join (v ∷ ws))

split-cons :
    (c : Char) (w s : String) (ws : List String)
    → code c == b'.' ≡ false
    → split b'.' s ≡ w ∷ ws
    → split b'.' (String.◌∷◌ c s) ≡ String.◌∷◌ c w ∷ ws
unfolding split
split-cons c w s ws h k = rw (h, k) refl

split-sep :
    (c : Char) (r : String)
    → code c == b'.' ≡ true
    → split b'.' (String.◌∷◌ c "" <> r) ≡ "" ∷ split b'.' r
unfolding split
split-sep c r h = rw (cons-append c "" r, nil-append r, split, h) refl

split-dot : (r : String) → split b'.' ("." <> r) ≡ "" ∷ split b'.' r
split-dot r = split-sep _ r refl

split-word : (w r : String) → count b'.' w ≡ 0 → split b'.' (w <> ("." <> r)) ≡ w ∷ split b'.' r
split-word String.[] r h = rw (nil-append ("." <> r)) (split-dot r)
split-word (String.◌∷◌ c s) r h =
    let plain : (code c == b'.' ≡ false) × (count b'.' s ≡ 0) = ground arith in
    rw (cons-append c s ("." <> r))
      (split-cons c s (s <> ("." <> r)) (split b'.' r) plain.0 (split-word s r plain.1))

split-single : (w : String) → count b'.' w ≡ 0 → split b'.' w ≡ w ∷ []
unfolding split
split-single String.[] h = refl
split-single (String.◌∷◌ c s) h = ground (arith, split-single s)

-- Splitting is the inverse of joining for parts without a dot.
pub split-join :
    (w : String) (ws : List String)
    → All (λ x. count b'.' x ≡ 0) (w ∷ ws)
    → split b'.' (join (w ∷ ws)) ≡ w ∷ ws
split-join w [] h = split-single w h.0
split-join w (v ∷ ws) h =
    split-word w (join (v ∷ ws)) h.0 ∙ ap (λ rest. w ∷ rest) (split-join v ws h.1)

length-push_char :
    (c : Char) (ws : List String) → 0 < length ws → length (push_char c ws) ≡ length ws
length-push_char c [] h = ground arith
length-push_char c (w ∷ ws) h = refl

length-split : (sep : ℕ) (s : String) → length (split sep s) ≡ suc (count sep s)
unfolding split
length-split sep String.[] = refl
length-split sep (String.◌∷◌ c s) =
    let h = length-split sep s in
    ground (arith, h, length-push_char c (split sep s) (rw h (omega arith)))

parts-refused :
    (s : String) (ps : List String)
    → (length ps < 3) ↔ ((m : String) × (endpoint_of_parts s ps ≡ err m))
unfolding endpoint_of_parts
parts-refused s [] = (λ h. (_, refl), λ h. omega arith)
parts-refused s (a ∷ []) = (λ h. (_, refl), λ h. omega arith)
parts-refused s (a ∷ b ∷ []) = (λ h. (_, refl), λ h. omega arith)
parts-refused s (a ∷ b ∷ c ∷ ps) = (λ h. absurd (omega (arith, h)), λ h. cc (h.1))

-- An endpoint text is refused exactly if it has fewer than two dots.
pub parse_endpoint-refuses :
    (s : String) → (count b'.' s < 2) ↔ ((m : String) × (parse_endpoint s ≡ err m))
unfolding parse_endpoint
parse_endpoint-refuses s =
    let n = length-split b'.' s in
    let refused = parts-refused s (split b'.' s) in
    (λ h. refused.0 (rw n (omega (arith, h))), λ h. omega (arith, n, refused.1 h))

-- The parts of a text that is joined by dots from three or more parts without a dot come back as
-- the fields of the endpoint, a missing one empty and an eighth ignored; the text is ad-hoc
-- exactly if its third part is AD.
pub parse_endpoint-join :
    (base target q_type : String) (rest : List String)
    → All (λ x. count b'.' x ≡ 0) (base ∷ target ∷ q_type ∷ rest)
    → (parse_endpoint (join (base ∷ target ∷ q_type ∷ rest))
        ≡ ok (record {
          base = base;
          target = target;
          q_type = q_type;
          subtype = get_or rest 0 "";
          supp1 = get_or rest 1 "";
          supp2 = get_or rest 2 "";
          supp3 = get_or rest 3 "";
        }))
      × (is_adhoc (join (base ∷ target ∷ q_type ∷ rest)) ≡ ok (str_eq q_type "AD"))
unfolding parse_endpoint is_adhoc endpoint_of_parts
parse_endpoint-join base target q_type rest h =
    let parts = split-join base (target ∷ q_type ∷ rest) h in
    (rw (parts, endpoint_of_parts) refl, rw (parts, is_adhoc, endpoint_of_parts) refl)
