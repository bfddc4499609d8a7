-- ===== src/OooApi/Adhoc/Price/Mean.antt =====
-- go-ooo/ooo_api/adhoc.go, QueryAdhoc: the mean of the prices that are kept.
use xfund_router.Common.{
  ℕ, ◌+◌, ◌/◌, ◌≤◌, ◌<◌, ◌≡◌, ◌≢◌, refl, sym, ◌∙◌, ap, subst, String, true, false, List, [], ◌∷◌,
  ◌++◌, Option, none, some, ok, ◌==◌, if◌then◌else◌, length, filter, arith, ◌⊎◌, All, All-append,
  length-append, Bool-cases, Result-cases, inl, inr,
}
use xfund_router.Common.Sums.{sum, least, greatest, least_pos, mean-bounds, sum-append}
use xfund_router.Common.Int.{ℤ, pos, negsuc, is_positive, pos_part}
use xfund_router.Models.Tokens.{DexPairs}
use xfund_router.Gorm.{Gorm}
use xfund_router.Utils.{Floats, ether_to_wei}
use xfund_router.OooApi.Endpoint.{Endpoint, parse_endpoint}
use xfund_router.OooApi.Adhoc.Dexs.{get_ql_apis}
use xfund_router.OooApi.Adhoc.Queries.{decimal}
use xfund_router.OooApi.Adhoc.Graph.{Subgraphs}
use xfund_router.OooApi.Adhoc.Price.{
  is_kept, count_wei, add_prices, mean_text, price_of_kept, price_of_raw, price_at, query_adhoc,
  current_blocks, raw_prices,
}

some_ne_none : {A : Type 0} {a : A} → some a ≢ none
some_ne_none h = absurd (cc)

positive_part : (wei : ℤ) → is_positive wei ≡ true → 0 < pos_part wei
positive_part (pos n) h = ground (arith, h)
positive_part (negsuc n) h = cc

module _ (f : Floats) where
  abbrev pub positive_wei : Option ℤ → List ℕ
  positive_wei none = []
  positive_wei (some wei) = if is_positive wei then pos_part wei ∷ [] else []

  -- The amounts above 0.
  abbrev pub positive_weis : List f.F → List ℕ
  positive_weis [] = []
  positive_weis (o ∷ os) = positive_wei (ether_to_wei f (f.new_float o)) ++ positive_weis os

  All-positive_wei : (o : Option ℤ) → All (λ w. 0 < w) (positive_wei o)
  All-positive_wei none = tt
  All-positive_wei (some wei) = elim (Bool-cases (is_positive wei)) [
    | inl h ↦ rw h (positive_part wei h, tt)
    | inr h ↦ rw h tt
  ]

  All-positive_weis : (os : List f.F) → All (λ w. 0 < w) (positive_weis os)
  All-positive_weis [] = tt
  All-positive_weis (o ∷ os) =
      All-append (λ w. 0 < w) (positive_wei (ether_to_wei f (f.new_float o))) (positive_weis os)
        (All-positive_wei (ether_to_wei f (f.new_float o))) (All-positive_weis os)

  count_wei-none : (o : Option ℤ) → count_wei f o none ≡ none
  count_wei-none none = refl
  count_wei-none (some wei) = refl

  add_prices-none : (os : List f.F) → add_prices f os none ≡ none
  unfolding add_prices
  add_prices-none [] = refl
  add_prices-none (o ∷ os) =
      rw (count_wei-none (ether_to_wei f (f.new_float o))) (add_prices-none os)

  -- A price that does not panic adds its amount to the total, if that is above 0.
  count_wei-cases :
      (o : Option ℤ) (total price_count : ℕ)
      → (count_wei f o (some (total, price_count)) ≡ none)
        ⊎ (count_wei f o (some (total, price_count))
            ≡ some (total + sum (positive_wei o), price_count + length (positive_wei o)))
  count_wei-cases none total price_count = inl refl
  count_wei-cases (some wei) total price_count = elim (Bool-cases (is_positive wei)) [
    | inl h ↦ inr (rw h (ap (λ x. some (x, price_count + 1)) (omega arith)))
    | inr h ↦ inr (rw h (ap some (ground arith)))
  ]

  add_prices-weis :
      (os : List f.F) (total price_count total' price_count' : ℕ)
      → add_prices f os (some (total, price_count)) ≡ some (total', price_count')
      → (total' ≡ total + sum (positive_weis os))
        × (price_count' ≡ price_count + length (positive_weis os))
  unfolding add_prices
  add_prices-weis [] total price_count total' price_count' h = ground (arith, h)
  add_prices-weis (o ∷ os) total price_count total' price_count' h =
      let w = ether_to_wei f (f.new_float o) in
      elim (count_wei-cases w total price_count) [
        | inl e ↦
            let panics : add_prices f os (count_wei f w (some (total, price_count))) ≡ none =
              rw e (add_prices-none os) in
            absurd (some_ne_none (sym h ∙ panics))
        | inr e ↦
            let (sums, counts) =
              add_prices-weis os (total + sum (positive_wei w))
                (price_count + length (positive_wei w)) total' price_count'
                (subst (λ x. add_prices f os x ≡ some (total', price_count')) e h) in
            (
              sums ∙ omega (arith, sum-append (positive_wei w) (positive_weis os)),
              counts ∙ omega (arith, length-append (positive_wei w) (positive_weis os)),
            )
      ]

  -- The text is the mean, rounded down, of the amounts above 0 of the prices that are kept, and is
  -- neither below the least of them nor above the greatest.
  abbrev pub IsMean : String → List f.F → Type 0
  IsMean text raw =
      (mean : f.F) × (std_dev : f.F) × (f.mean raw ≡ ok mean)
      × (f.standard_deviation raw ≡ ok std_dev)
      × let weis = positive_weis (filter (is_kept f mean std_dev) raw) in
        (m : ℕ) × (text ≡ decimal 400 m)
        × (m ≡ sum weis / length weis)
        × (0 < m)
        × (least weis ≤ m)
        × (m ≤ greatest weis)

  mean_of_weis :
      (weis : List ℕ)
      → All (λ w. 0 < w) weis
      → (sum weis == 0) ≡ false
      → (m : ℕ) × (m ≡ sum weis / length weis) × (0 < m) × (least weis ≤ m) × (m ≤ greatest weis)
  mean_of_weis [] above h = cc
  mean_of_weis (n ∷ ns) above h =
      let (low, high) = mean-bounds n ns in
      (_, refl, omega (arith, low, least_pos n ns above), low, high)

  mean_text-ok :
      (acc : Option (ℕ × ℕ)) (text : String)
      → mean_text f acc ≡ some (ok text)
      → (total : ℕ) × (price_count : ℕ) × (acc ≡ some (total, price_count))
        × ((total == 0) ≡ false)
        × (text ≡ decimal 400 (total / price_count))
  mean_text-ok none text h = absurd (some_ne_none (sym h))
  mean_text-ok (some (total, price_count)) text h = elim (Bool-cases (total == 0)) [
    | inl z ↦ absurd (ground (arith, h, z))
    | inr z ↦ (total, price_count, refl, z, ground (arith, h, z))
  ]

  price_of_raw-ok :
      (raw : List f.F) (text : String) → price_of_raw f raw ≡ some (ok text) → IsMean text raw
  unfolding price_of_raw
  price_of_raw-ok raw text h = elim (Result-cases (f.mean raw)) [
    | inr (m, e) ↦ absurd (ground (arith, h, e))
    | inl (mean, e) ↦ elim (Result-cases (f.standard_deviation raw)) [
      | inr (m, e') ↦ absurd (ground (arith, h, e, e'))
      | inl (std_dev, e') ↦
          let kept = filter (is_kept f mean std_dev) raw in
          let h' : mean_text f (add_prices f kept (some (0, 0))) ≡ some (ok text) =
            subst (λ x. price_of_kept f raw (ok mean) x ≡ some (ok text)) e'
              (subst (λ x. price_of_kept f raw x (f.standard_deviation raw) ≡ some (ok text)) e
                h) in
          let (total, price_count, acc, above, printed) =
            mean_text-ok (add_prices f kept (some (0, 0))) text h' in
          let added = add_prices-weis kept 0 0 total price_count acc in
          let sums : total ≡ sum (positive_weis kept) = added.0 ∙ omega arith in
          let counts : price_count ≡ length (positive_weis kept) = added.1 ∙ omega arith in
          let (m, value, above_0, low, high) =
            mean_of_weis (positive_weis kept) (All-positive_weis kept)
              (subst (λ x. (x == 0) ≡ false) sums above) in
          (
            mean,
            std_dev,
            e,
            e',
            (
              m,
              printed
                  ∙ ap (decimal 400) (
                      ap (λ x. x / price_count) sums
                      ∙ ap (λ x. sum (positive_weis kept) / x) counts
                      ∙ sym value),
              value,
              above_0,
              low,
              high,
            ),
          )
    ]
  ]

  module _ (q : Subgraphs) (pairs : Gorm (DexPairs f.F)) where
    -- The prices that the answer for an endpoint goes by.
    abbrev pub prices_for : Endpoint → q.Conn → pairs.Table → List f.F
    prices_for ep c t =
        let (blocks, c1) = current_blocks q get_ql_apis [] c in
        (raw_prices f q pairs ep.base ep.target blocks get_ql_apis (c1, t)).0

    -- An ad-hoc query that answers with a price does so for an endpoint that parses, and the price
    -- is the mean in wei, rounded down, of the amounts above 0 among the prices from the exchanges
    -- that pass the test for outliers: it is above 0, not below the least of these amounts and not
    -- above the greatest.
    pub query_adhoc-IsMean :
        (endpoint text : String) (c : q.Conn) (t : pairs.Table)
        → (query_adhoc f q pairs endpoint (c, t)).0 ≡ some (ok text)
        → (ep : Endpoint) × (parse_endpoint endpoint ≡ ok ep) × IsMean text (prices_for ep c t)
    unfolding query_adhoc price_at
    query_adhoc-IsMean endpoint text c t h = elim (Result-cases (parse_endpoint endpoint)) [
      | inr (m, e) ↦ absurd (ground (arith, h, e))
      | inl (ep, e) ↦ (
        ep,
        e,
        price_of_raw-ok (prices_for ep c t) text (
            subst
              (λ r.
                (price_at f q pairs (current_blocks q get_ql_apis [] c).0 r
                  ((current_blocks q get_ql_apis [] c).1, t)).0
                ≡ some (ok text))
              e h),
      )
    ]
