-- ===== src/Gorm/Memory.antt =====
-- A table in memory: a database that keeps every promise, for the tests.
use xfund_router.Common.{
  ℕ, String, suc, ◌<◌, ◌≡◌, refl, false, Option, none, some, List, [], ◌∷◌, ◌++◌, Result, ok, err,
  find?, last?, filter, any, true, Bool, reverse, arith, if◌then◌else◌, leb,
}
use xfund_router.Gorm.{Schema, Gorm, IsGorm, contains_id, replace, without, at_most}

abbrev or_missing : {A : Type 0} → Option A → Result A
or_missing none = err "record not found"
or_missing (some a) = ok a

abbrev pub keep : {A : Type 0} → (A → A → Bool) → A → Option A → Option A
keep before x none = some x
keep before x (some y) = if before y x then some y else some x

-- The first of the rows that no later one comes before.
abbrev pub best : {A : Type 0} → (A → A → Bool) → List A → Option A
best before [] = none
best before (x ∷ xs) = let rest = best before xs in keep before x rest

module _ {Row : Type 0} (s : Schema Row) where
  abbrev max_id : List Row → ℕ
  max_id [] = 0
  max_id (x ∷ xs) = let m = max_id xs in if leb m (s.id x) then s.id x else m

  contains_id_bound : (n : ℕ) (xs : List Row) → max_id xs < n → contains_id s n xs ≡ false
  contains_id_bound n [] h = refl
  contains_id_bound n (x ∷ xs) h = ground (arith, contains_id_bound n xs)

  abbrev create_in : Row → List Row → Result Row × List Row
  create_in r t =
      if any (s.clash r) t
      then (err "UNIQUE constraint failed", t)
      else (ok (s.with_id (suc (max_id t)) r), t ++ s.with_id (suc (max_id t)) r ∷ [])

  abbrev pub memory : Gorm Row
  memory = record {
    Table = List Row;
    rows = λ t. t;
    first = λ p t. (or_missing (find? p t), t);
    find = λ p t. (ok (filter p t), t);
    last = λ t. (or_missing (last? t), t);
    create = create_in;
    save = λ r t. (none, replace s r t);
    top = λ p before t. (or_missing (best before (filter p t)), t);
    newest = λ p n t. (ok (at_most n (reverse (filter p t))), t);
    delete = λ r t. (none, without s (s.id r) t);
    clear = λ t. (none, []);
  }

  or_missing-eq-ok : {A : Type 0} (o : Option A) (a : A) → or_missing o ≡ ok a → o ≡ some a
  or_missing-eq-ok none a h = cc
  or_missing-eq-ok (some b) a h = cc

  best-passes :
      (before : Row → Row → Bool) (p : Row → Bool) (t : List Row) (r : Row)
      → best before (filter p t) ≡ some r
      → p r ≡ true
  best-passes before p [] r h = cc
  best-passes before p (x ∷ xs) r h = ground (arith, best-passes before p xs r)

  best-any :
      (before : Row → Row → Bool) (p : Row → Bool) (t : List Row) (r : Row)
      → best before (filter p t) ≡ some r
      → any p t ≡ true
  best-any before p [] r h = cc
  best-any before p (x ∷ xs) r h = ground (arith, best-any before p xs r)

  best-there :
      (before : Row → Row → Bool) (p : Row → Bool) (t : List Row) (r : Row)
      → best before (filter p t) ≡ some r
      → contains_id s (s.id r) t ≡ true
  best-there before p [] r h = cc
  best-there before p (x ∷ xs) r h = ground (arith, best-there before p xs r)

  create_in-ok :
      ((n : ℕ) (r : Row) → s.id (s.with_id n r) ≡ n)
      → (r r' : Row) (t : List Row) → (create_in r t).0 ≡ ok r'
      → (r' ≡ s.with_id (s.id r') r)
        × (0 < s.id r')
        × (contains_id s (s.id r') t ≡ false)
        × (any (s.clash r) t ≡ false)
        × ((create_in r t).1 ≡ t ++ r' ∷ [])
  create_in-ok key r r' t h =
      ground (arith, key (suc (max_id t)) r, contains_id_bound (suc (max_id t)) t)

  create_in-err :
      (r : Row) (t : List Row) (e : String) → (create_in r t).0 ≡ err e → (create_in r t).1 ≡ t
  create_in-err r t e h = ground arith

  pub memory-IsGorm : ((n : ℕ) (r : Row) → s.id (s.with_id n r) ≡ n) → IsGorm s memory
  memory-IsGorm key = record {
    first_ok = λ p t r h. or_missing-eq-ok (find? p t) r h;
    first_rows = λ p t. refl;
    find_ok = λ p t rs h. cc;
    find_rows = λ p t. refl;
    last_ok = λ t r h. or_missing-eq-ok (last? t) r h;
    last_rows = λ t. refl;
    create_ok = create_in-ok key;
    create_err = create_in-err;
    save_ok = λ r t h k. refl;
    save_err = λ r t e h. cc;
    top_ok = λ p before t r h.
        let found = or_missing-eq-ok (best before (filter p t)) r h in
        (
          best-passes before p t r found,
          best-any before p t r found,
          best-there before p t r found,
        );
    top_rows = λ p before t. refl;
    newest_ok = λ p n t rs h. cc;
    newest_rows = λ p n t. refl;
    delete_ok = λ r t h. refl;
    delete_err = λ r t e h. cc;
    clear_ok = λ t h. refl;
  }
