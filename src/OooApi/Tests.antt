-- ===== src/OooApi/Tests.antt =====
-- Endpoints, decimals, and a query over a connection that counts its requests.
use Prim.Native.String.{◌++◌ as ◌<>◌}
use xfund_router.Common.{
  ℕ, suc, ◌<◌, ◌≡◌, ◌⊎◌, refl, String, true, false, none, some, ok, [], ◌∷◌, any,
}
use xfund_router.Common.Int.{ℤ, pos, is_positive}
use xfund_router.Models.{SupportedPairs}
use xfund_router.Gorm.{Gorm}
use xfund_router.Gorm.Memory.{memory, memory-IsGorm}
use xfund_router.Gorm.Available.{memory-IsUp}
use xfund_router.OooApi.Pairs.{refresh}
use xfund_router.OooApi.Pairs.Names.{has_name, is_listed, refresh-names}
use xfund_router.Database.Schemas.{pair_schema}
use xfund_router.OooApi.Endpoint.{Endpoint, split, parse_endpoint, endpoint_of_parts, is_adhoc}
use xfund_router.OooApi.Finchains.{
  Http, OooApiPairsResult, parse_int, scan, digits, itoa, emit, cleanse_dmax, cleanse_time,
  get_price_sub_type,
}
use xfund_router.OooApi.RoundTrip.{parse_endpoint-join}
use xfund_router.OooApi.Decimal.{cleanse_dmax-reads}

abbrev listed : String → String → OooApiPairsResult
listed base target = record { name = (base <> "_") <> target; base = base; target = target }

abbrev pub http : Http
http = record {
  Conn = ℕ;
  Response = String;
  get = λ url c. (ok url, suc c);
  read_all = λ r. ok r;
  price_of = λ body. ok "1500";
  read_part = λ r. r;
  pairs_of = λ body. ok (listed "ETH" "USD" ∷ listed "BTC" "GBP" ∷ []);
}

abbrev pub pairs : Gorm SupportedPairs
pairs = memory pair_schema

abbrev pub eth_usd : SupportedPairs
eth_usd = record { id = 4; name = "ETH_USD"; base = "ETH"; target = "USD" }

adhoc_test : is_adhoc "ETH.USD.AD.X" ≡ ok true
unfolding is_adhoc parse_endpoint endpoint_of_parts split
adhoc_test = refl

dmax_test :
    (cleanse_dmax "+0042" ≡ "42")
    × (cleanse_dmax "9223372036854775808" ≡ "3")
    × (cleanse_dmax "4x" ≡ "3")
unfolding cleanse_dmax parse_int digits scan itoa emit
dmax_test = (refl, refl, refl)

sub_type_test : get_price_sub_type "AVC" "24H" "7" ≡ ok "avg/chauvenet/24H/7"
unfolding get_price_sub_type cleanse_time cleanse_dmax parse_int digits scan itoa emit
sub_type_test = refl

parse_endpoint-join_example :
    (parse_endpoint "ETH.USD.PR.AVC.24H"
      ≡ ok (record {
        base = "ETH";
        target = "USD";
        q_type = "PR";
        subtype = "AVC";
        supp1 = "24H";
        supp2 = "";
        supp3 = "";
      }))
    × (is_adhoc "ETH.USD.PR.AVC.24H" ≡ ok false)
parse_endpoint-join_example =
    parse_endpoint-join "ETH" "USD" "PR" ("AVC" ∷ "24H" ∷ [])
      (refl, (refl, (refl, (refl, (refl, tt)))))

cleanse_dmax-reads_example :
    ((n : ℕ) × (0 < n)
      × (parse_int "12" ≡ some (pos n))
      × (parse_int (cleanse_dmax "12") ≡ some (pos n)))
    ⊎ (((parse_int "12" ≡ none) ⊎ ((z : ℤ) × (parse_int "12" ≡ some z) × (is_positive z ≡ false)))
        × (cleanse_dmax "12" ≡ "3"))
cleanse_dmax-reads_example = cleanse_dmax-reads "12"

abbrev pub endpoint_of : String → Endpoint
endpoint_of target = record {
  base = "ETH";
  target = target;
  q_type = "PR";
  subtype = "AVG";
  supp1 = "24H";
  supp2 = "";
  supp3 = "";
}

gbp_parsed : parse_endpoint "ETH.GBP.PR.AVG.24H" ≡ ok (endpoint_of "GBP")
unfolding parse_endpoint endpoint_of_parts split
gbp_parsed = refl

pub usd_parsed : parse_endpoint "ETH.USD.PR.AVG.24H" ≡ ok (endpoint_of "USD")
unfolding parse_endpoint endpoint_of_parts split
usd_parsed = refl

pub usd_sub_type : get_price_sub_type "AVG" "24H" "" ≡ ok "avg/24H"
unfolding get_price_sub_type cleanse_time
usd_sub_type = refl

abbrev doge_usd : SupportedPairs
doge_usd = record { id = 9; name = "DOGE_USD"; base = "DOGE"; target = "USD" }

refresh-names_example :
    any
      (has_name "DOGE_USD")
      (refresh pairs (listed "ETH" "USD" ∷ listed "BTC" "GBP" ∷ []) (eth_usd ∷ doge_usd ∷ []))
    ≡ is_listed "DOGE_USD" (listed "ETH" "USD" ∷ listed "BTC" "GBP" ∷ [])
refresh-names_example =
    refresh-names pairs (memory-IsGorm pair_schema (λ n p. refl)) (memory-IsUp pair_schema)
      (listed "ETH" "USD" ∷ listed "BTC" "GBP" ∷ []) (eth_usd ∷ doge_usd ∷ []) (refl, (refl, tt))
      "DOGE_USD"
