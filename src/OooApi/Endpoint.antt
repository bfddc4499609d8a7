-- ===== src/OooApi/Endpoint.antt =====
-- go-ooo/ooo_api/api.go: the endpoint text `BASE.TARGET.TYPE.SUBTYPE…` and its parts.
use Prim.Native.Char.{Char, code}
use Prim.Native.String.{◌++◌ as ◌<>◌}
use xfund_router.Common.{
  ℕ, String, Bool, List, [], ◌∷◌, Result, ok, err, ◌==◌, if◌then◌else◌, str_eq, get_or,
}

abbrev pub push_char : Char → List String → List String
push_char c [] = String.◌∷◌ c "" ∷ []
push_char c (w ∷ ws) = String.◌∷◌ c w ∷ ws

-- `strings.Split(s, sep)` for a separator of one byte.
unfoldable pub split : ℕ → String → List String
split sep String.[] = "" ∷ []
split sep (String.◌∷◌ c s) =
    let rest = split sep s in if code c == sep then "" ∷ rest else push_char c rest

pub record Endpoint : Type 0 where
  pub base : String
  pub target : String
  pub q_type : String
  pub subtype : String
  pub supp1 : String
  pub supp2 : String
  pub supp3 : String

-- At least three parts; a part beyond them that is missing is empty, and an eighth is ignored.
unfoldable pub endpoint_of_parts : String → List String → Result Endpoint
endpoint_of_parts text (base ∷ target ∷ q_type ∷ rest) = ok (record {
  base = base;
  target = target;
  q_type = q_type;
  subtype = get_or rest 0 "";
  supp1 = get_or rest 1 "";
  supp2 = get_or rest 2 "";
  supp3 = get_or rest 3 "";
})
endpoint_of_parts text _ = err ("incorrect endpoint format: " <> text)

unfoldable pub parse_endpoint : String → Result Endpoint
unfolding split endpoint_of_parts
parse_endpoint endpoint = endpoint_of_parts endpoint (split b'.' endpoint)

unfoldable pub is_adhoc : String → Result Bool
unfolding parse_endpoint
is_adhoc endpoint = elim (parse_endpoint endpoint) [
  | ok ep ↦ ok (str_eq ep.q_type "AD")
  | err e ↦ err e
]
