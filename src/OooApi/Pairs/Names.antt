-- ===== src/OooApi/Pairs/Names.antt =====
-- go-ooo/ooo_api/api.go, UpdateSupportedPairs: the names that the table has afterwards.
use xfund_router.Common.{
  ◌≡◌, ◌⊎◌, refl, ◌∙◌, ap, subst, String, Bool, true, false, not, ◌||◌, ◌&&◌, List, [], ◌∷◌, ◌++◌,
  map, some, ◌==◌, any, filter, find?, arith, str_eq, eq_iff, Bool-cases, Result-cases, inl, inr,
}
use xfund_router.Models.{SupportedPairs}
use xfund_router.Gorm.{Gorm, IsGorm, Distinct, contains_id}
use xfund_router.Gorm.Available.{IsUp}
use xfund_router.Gorm.Deleted.{
  any-append, any_none, Distinct-append, is_one_of, filter-without, filter-deleted,
}
use xfund_router.Database.Schemas.{pair_schema}
use xfund_router.Database.Queries.{pair_is_supported_by_pair_name, pairs_no_longer_supported}
use xfund_router.Database.Transactions.{add_new_supported_pair}
use xfund_router.OooApi.Finchains.{OooApiPairsResult}
use xfund_router.OooApi.Pairs.{add_if_new, add_missing, delete_each, delete_unsupported, refresh}

abbrev pub has_name : String → SupportedPairs → Bool
has_name n p = str_eq p.name n

abbrev pub is_listed : String → List OooApiPairsResult → Bool
is_listed n = any (λ p. str_eq p.name n)

any-find? :
    {A : Type 0} (p : A → Bool) (xs : List A) (a : A) → find? p xs ≡ some a → any p xs ≡ true
any-find? p [] a h = cc
any-find? p (x ∷ xs) a h = ground (arith, any-find? p xs a)

module _ (g : Gorm SupportedPairs) (law : IsGorm pair_schema g) (up : IsUp pair_schema g) where
  abbrev Added : OooApiPairsResult → List SupportedPairs → List SupportedPairs → Type 0
  Added p rows rows' =
      ((rows' ≡ rows) × (any (has_name p.name) rows ≡ true))
      ⊎ ((r : SupportedPairs) × (r.name ≡ p.name)
          × (contains_id pair_schema r.id rows ≡ false)
          × (rows' ≡ rows ++ r ∷ []))

  creates :
      (p : OooApiPairsResult) (t : g.Table)
      → (r : SupportedPairs) × (r.name ≡ p.name)
        × (contains_id pair_schema r.id (g.rows t) ≡ false)
        × (g.rows (add_new_supported_pair g p.name p.base p.target t).1 ≡ g.rows t ++ r ∷ [])
  unfolding add_new_supported_pair
  creates p t =
      let row : SupportedPairs = record {
        id = 0;
        name = p.name;
        base = p.base;
        target = p.target;
      } in
      let (r, made) = up.create_up row t (any_none (λ x. false) (λ x. refl) (g.rows t)) in
      let (same, above, fresh, apart, new) = law.create_ok row r t made in
      (r, ap (λ x. x.name) same, fresh, new)

  creates_after :
      (p : OooApiPairsResult) (t : g.Table)
      → Added p (g.rows t) (
          g.rows
            (add_new_supported_pair g p.name p.base p.target
              (pair_is_supported_by_pair_name g p.name t).1).1)
  unfolding pair_is_supported_by_pair_name
  creates_after p t =
      let (r, name, fresh, new) = creates p (g.first (has_name p.name) t).1 in
      let same = law.first_rows (has_name p.name) t in
      inr (
        r,
        name,
        subst (λ rows. contains_id pair_schema r.id rows ≡ false) same fresh,
        new ∙ ap (λ rows. rows ++ r ∷ []) same,
      )

  add_if_new-cases :
      (p : OooApiPairsResult) (t : g.Table) → Added p (g.rows t) (g.rows (add_if_new g p t))
  unfolding add_if_new pair_is_supported_by_pair_name
  add_if_new-cases p t = elim (Result-cases (g.first (has_name p.name) t).0) [
    | inr (m, e) ↦ rw e (creates_after p t)
    | inl (r, e) ↦ elim (Bool-cases (r.id == 0)) [
      | inl k ↦ rw (e, k) (creates_after p t)
      | inr k ↦
          rw (e, k)
            (inl (
              law.first_rows (has_name p.name) t,
              any-find? (has_name p.name) (g.rows t) r (law.first_ok (has_name p.name) t r e),
            ))
    ]
  ]

  any-Added :
      (n : String) (p : OooApiPairsResult) (xs ys : List SupportedPairs)
      → Added p xs ys
      → any (has_name n) ys ≡ (str_eq p.name n || any (has_name n) xs)
  any-Added n p xs ys (inl (same, there)) = ground (arith, eq_iff p.name n)
  any-Added n p xs ys (inr (r, name, fresh, new)) =
      ground (arith, any-append (has_name n) xs (r ∷ []))

  Distinct-Added :
      (p : OooApiPairsResult) (xs ys : List SupportedPairs)
      → Added p xs ys
      → Distinct pair_schema xs
      → Distinct pair_schema ys
  Distinct-Added p xs ys (inl (same, there)) d = rw same d
  Distinct-Added p xs ys (inr (r, name, fresh, new)) d =
      rw new (Distinct-append pair_schema xs r d fresh)

  any-add_missing :
      (n : String) (ps : List OooApiPairsResult) (t : g.Table)
      → any (has_name n) (g.rows (add_missing g ps t))
        ≡ (is_listed n ps || any (has_name n) (g.rows t))
  unfolding add_missing
  any-add_missing n [] t = refl
  any-add_missing n (p ∷ ps) t = ground (
    arith,
    any-add_missing n ps (add_if_new g p t),
    any-Added n p (g.rows t) (g.rows (add_if_new g p t)) (add_if_new-cases p t),
  )

  Distinct-add_missing :
      (ps : List OooApiPairsResult) (t : g.Table)
      → Distinct pair_schema (g.rows t)
      → Distinct pair_schema (g.rows (add_missing g ps t))
  unfolding add_missing
  Distinct-add_missing [] t d = d
  Distinct-add_missing (p ∷ ps) t d =
      Distinct-add_missing ps (add_if_new g p t)
        (Distinct-Added p (g.rows t) (g.rows (add_if_new g p t)) (add_if_new-cases p t) d)

  filter_all : {A : Type 0} (xs : List A) → xs ≡ filter (λ x. not false) xs
  filter_all [] = refl
  filter_all (x ∷ xs) = ap (λ ys. x ∷ ys) (filter_all xs)

  delete_each-rows :
      (gone : List SupportedPairs) (t : g.Table)
      → g.rows (delete_each g gone t) ≡ filter (λ x. not (is_one_of pair_schema gone x)) (g.rows t)
  unfolding delete_each
  delete_each-rows [] t = filter_all (g.rows t)
  delete_each-rows (p ∷ gone) t =
      delete_each-rows gone (g.delete p t).1
      ∙ ap (filter (λ x. not (is_one_of pair_schema gone x))) (law.delete_ok p t (up.delete_up p t))
      ∙ filter-without pair_schema p gone (g.rows t)

  any-map :
      (n : String) (ps : List OooApiPairsResult)
      → any (str_eq n) (map (λ p. p.name) ps) ≡ is_listed n ps
  any-map n [] = refl
  any-map n (p ∷ ps) = ground (arith, any-map n ps, eq_iff p.name n, eq_iff n p.name)

  any-supported :
      (n : String) (names : List String) (xs : List SupportedPairs)
      → any (has_name n) (filter (λ x. not (not (any (str_eq x.name) names))) xs)
        ≡ (any (has_name n) xs && any (str_eq n) names)
  any-supported n names [] = refl
  any-supported n names (x ∷ xs) = ground (arith, any-supported n names xs, eq_iff x.name n)

  -- With a database that keeps its promises and answers, and no primary key twice in the table of
  -- pairs, refreshing the table from an answer of the API leaves exactly the names of that answer:
  -- a name is in the table afterwards if and only if the answer lists it.
  pub refresh-names :
      (result : List OooApiPairsResult) (t : g.Table)
      → Distinct pair_schema (g.rows t)
      → (n : String) → any (has_name n) (g.rows (refresh g result t)) ≡ is_listed n result
  unfolding refresh delete_unsupported pairs_no_longer_supported
  refresh-names result t d n =
      let q : SupportedPairs → Bool = λ p. not (any (str_eq p.name) (map (λ x. x.name) result)) in
      let t1 = add_missing g result t in
      let gone = up.find_up q t1 in
      rw gone (
        ap (any (has_name n)) (
          delete_each-rows (filter q (g.rows t1)) (g.find q t1).1
          ∙ ap (filter (λ x. not (is_one_of pair_schema (filter q (g.rows t1)) x)))
              (law.find_rows q t1)
          ∙ filter-deleted pair_schema q (g.rows t1) (Distinct-add_missing result t d))
        ∙ any-supported n (map (λ x. x.name) result) (g.rows t1)
        ∙ ground (arith, any-map n result, any-add_missing n result t))
