-- ===== src/OooApi/Finchains.antt =====
-- go-ooo/ooo_api/api.go: the path of the Finchains API for an endpoint, and the query.
use Prim.Native.Char.{code}
use Prim.Native.String.{◌++◌ as ◌<>◌}
use xfund_router.Common.{
  ℕ, zero, suc, ◌+◌, ◌*◌, ◌-◌, ◌/◌, ◌%◌, String, ◌||◌, List, [], ◌∷◌, Result, ok, err, Option, none,
  some, ◌==◌, ltb, if◌then◌else◌, str_eq, any, get_or, value_or,
}
use xfund_router.Common.Int.{ℤ, pos, negsuc, i64_limit, is_positive, pos_part}
use xfund_router.Models.{SupportedPairs, no_pair}
use xfund_router.Gorm.{Gorm}
use xfund_router.Database.Queries.{pair_is_supported_by_base_and_target}
use xfund_router.OooApi.Endpoint.{Endpoint, parse_endpoint}

abbrev pub times : List String
times = "5M" ∷ "10M" ∷ "30M" ∷ "1H" ∷ "2H" ∷ "6H" ∷ "12H" ∷ "24H" ∷ "48H" ∷ []

unfoldable pub cleanse_time : String → String
cleanse_time tm = if any (str_eq tm) times then tm else "1H"

-- The value of decimal digits after `n`.
unfoldable pub scan : String → ℕ → Option ℕ
scan String.[] n = some n
scan (String.◌∷◌ c s) n =
    let rest = scan s (n * 10 + (code c - b'0')) in
    if ltb (code c) b'0' || ltb b'9' (code c) then none else rest

-- At least one digit.
unfoldable pub digits : String → Option ℕ
digits String.[] = none
digits (String.◌∷◌ c s) = scan (String.◌∷◌ c s) 0

abbrev pub bounded_pos : Option ℕ → Option ℤ
bounded_pos none = none
bounded_pos (some n) = if ltb n i64_limit then some (pos n) else none

abbrev pub bounded_neg : Option ℕ → Option ℤ
bounded_neg none = none
bounded_neg (some zero) = some (pos 0)
bounded_neg (some (suc n)) = if ltb n i64_limit then some (negsuc n) else none

-- `strconv.ParseInt(s, 10, 64)`, without the text of its error.
unfoldable pub parse_int : String → Option ℤ
parse_int String.[] = none
parse_int (String.◌∷◌ c s) =
    if code c == b'+'
    then bounded_pos (digits s)
    else if code c == b'-'
    then bounded_neg (digits s)
    else bounded_pos (digits (String.◌∷◌ c s))

abbrev pub digit_texts : List String
digit_texts = "0" ∷ "1" ∷ "2" ∷ "3" ∷ "4" ∷ "5" ∷ "6" ∷ "7" ∷ "8" ∷ "9" ∷ []

-- The last digits of `n`, before `out`.
unfoldable pub emit : (fuel : ℕ) → ℕ → String → String
emit zero n out = out
emit (suc fuel) n out =
    let rest = emit fuel (n / 10) (get_or digit_texts (n % 10) "" <> out) in
    if n == 0 then out else rest

-- `strconv.Itoa` of a positive `int`: 19 digits are enough.
unfoldable pub itoa : ℕ → String
itoa n = emit 20 n ""

-- The error of `ParseInt` is dropped by the only caller, so the value alone is kept.
abbrev pub dmax_of : Option ℤ → String
dmax_of none = "3"
dmax_of (some n) = if is_positive n then itoa (pos_part n) else "3"

unfoldable pub cleanse_dmax : String → String
cleanse_dmax d_max = dmax_of (parse_int d_max)

unfoldable pub get_price_sub_type : String → String → String → Result String
get_price_sub_type subtype supp1 supp2 =
    let tm = cleanse_time supp1 in
    if str_eq subtype "AVG"
    then ok ("avg/" <> tm)
    else if str_eq subtype "AVI"
    then ok ("avg/iqd/" <> tm)
    else if str_eq subtype "AVP"
    then ok ("avg/peirce/" <> tm)
    else if str_eq subtype "AVC"
    then ok (("avg/chauvenet/" <> tm) <> ("/" <> cleanse_dmax supp2))
    else if str_eq subtype "LAT"
    then ok "latest_one"
    else err "unsupported sub type for PR"

-- The path, for the row of the pair.
unfoldable pub uri_of : Endpoint → SupportedPairs → Result String
uri_of ep supported =
    if supported.id == 0
    then err "pair not currently supported"
    else if str_eq ep.q_type "PR"
    then elim (get_price_sub_type ep.subtype ep.supp1 ep.supp2) [
      | ok data_type ↦ ok ("currency/" <> (supported.name <> ("/" <> data_type)))
      | err m ↦ err m
    ]
    else err "query type not currently supported"

-- What is left to do when the endpoint is parsed.
unfoldable pub uri_of_pair :
    (g : Gorm SupportedPairs) → Result Endpoint → g.Table → Result String × g.Table
uri_of_pair g (err m) t = (err m, t)
uri_of_pair g (ok ep) t =
    let (supported, t1) = pair_is_supported_by_base_and_target g ep.base ep.target t in
    (uri_of ep (value_or no_pair supported), t1)

unfoldable pub build_query : (g : Gorm SupportedPairs) → String → g.Table → Result String × g.Table
build_query g endpoint t = uri_of_pair g (parse_endpoint endpoint) t

-- An entry of the answer to `/pairs`.
pub record OooApiPairsResult : Type 0 where
  pub name : String
  pub base : String
  pub target : String

-- `net/http` and `encoding/json`: a `GET`; its body, or what was read of it before an error; the
-- `price` and the pairs of a JSON text.
pub record Http : Type 1 where
  pub Conn : Type 0
  pub Response : Type 0
  pub get : String → Conn → Result Response × Conn
  pub read_all : Response → Result String
  pub price_of : String → Result String
  pub read_part : Response → String
  pub pairs_of : String → Result (List OooApiPairsResult)

unfoldable pub price_in : (h : Http) → Result h.Response → Result String
price_in h (err m) = err m
price_in h (ok r) = elim (h.read_all r) [ err m ↦ err m | ok body ↦ h.price_of body ]

unfoldable pub ask : (h : Http) → String → Result String → h.Conn → Result String × h.Conn
ask h base_url (err m) c = (err m, c)
ask h base_url (ok uri) c = let (r, c1) = h.get ((base_url <> "/") <> uri) c in (price_in h r, c1)

unfoldable pub query_finchains_endpoint :
    (h : Http) (g : Gorm SupportedPairs)
    → String
    → String
    → h.Conn × g.Table
    → Result String × (h.Conn × g.Table)
query_finchains_endpoint h g base_url endpoint (c, t) =
    let (uri, t1) = build_query g endpoint t in
    let (price, c1) = ask h base_url uri c in (price, (c1, t1))
