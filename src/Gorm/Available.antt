-- ===== src/Gorm/Available.antt =====
-- A database that answers: no query and no write fails for want of a connection.
use xfund_router.Common.{
  true, ℕ, List, [], ◌∷◌, Option, reverse, arith, inl, inr, Bool-cases, ◌≡◌, refl, Bool, false,
  none, some, ok, find?, filter, any, find?, ◌∙◌, ap,
}
use xfund_router.Gorm.{Schema, Gorm, IsGorm, contains_id, replace, at_most}
use xfund_router.Gorm.Rows.{contains_id-find?}
use xfund_router.Gorm.Update.{update_where}
use xfund_router.Gorm.Memory.{memory, best, keep}

keep_exists :
    {Row : Type 0} (before : Row → Row → Bool) (x : Row) (o : Option Row)
    → (r : Row) × (keep before x o ≡ some r)
keep_exists before x none = (x, refl)
keep_exists before x (some y) = elim (Bool-cases (before y x)) [
  | inl q ↦ (y, rw q refl)
  | inr q ↦ (x, rw q refl)
]

best_exists :
    {Row : Type 0} (before : Row → Row → Bool) (p : Row → Bool) (t : List Row)
    → any p t ≡ true
    → (r : Row) × (best before (filter p t) ≡ some r)
best_exists before p [] h = cc
best_exists before p (x ∷ xs) h = elim (Bool-cases (p x)) [
  | inl q ↦ rw q (keep_exists before x (best before (filter p xs)))
  | inr q ↦ rw q (best_exists before p xs (ground (arith, h, q)))
]

module _ {Row : Type 0} (s : Schema Row) where
  pub record IsUp (g : Gorm Row) : Type 0 where
    pub first_up :
        (p : Row → Bool) (t : g.Table) (r : Row)
        → find? p (g.rows t) ≡ some r
        → (g.first p t).0 ≡ ok r
    pub find_up : (p : Row → Bool) (t : g.Table) → (g.find p t).0 ≡ ok (filter p (g.rows t))
    pub save_up : (r : Row) (t : g.Table) → (g.save r t).0 ≡ none
    pub create_up :
        (r : Row) (t : g.Table)
        → any (s.clash r) (g.rows t) ≡ false
        → (r' : Row) × ((g.create r t).0 ≡ ok r')
    pub top_up :
        (p : Row → Bool) (before : Row → Row → Bool) (t : g.Table)
        → any p (g.rows t) ≡ true
        → (r : Row) × ((g.top p before t).0 ≡ ok r)
    pub newest_up :
        (p : Row → Bool) (n : ℕ) (t : g.Table)
        → (g.newest p n t).0 ≡ ok (at_most n (reverse (filter p (g.rows t))))
    pub delete_up : (r : Row) (t : g.Table) → (g.delete r t).0 ≡ none
    pub clear_up : (t : g.Table) → (g.clear t).0 ≡ none

  pub memory-IsUp : IsUp (memory s)
  memory-IsUp = record {
    first_up = λ p t r h. rw h refl;
    find_up = λ p t. refl;
    save_up = λ r t. refl;
    create_up = λ r t h. rw h (_, refl);
    top_up = λ p before t h. let (r, found) = best_exists before p t h in (r, rw found refl);
    newest_up = λ p n t. refl;
    delete_up = λ r t. refl;
    clear_up = λ t. refl;
  }

  module _ (g : Gorm Row) (law : IsGorm s g) (up : IsUp g) (p : Row → Bool) (f : Row → Row)
      (same_id : (r : Row) → s.id (f r) ≡ s.id r) where
    -- An update of a row that is there succeeds, and replaces it.
    pub update_where_up :
        (t : g.Table) (r : Row)
        → find? p (g.rows t) ≡ some r
        → ((update_where g p f t).0 ≡ none)
          × (g.rows (update_where g p f t).1 ≡ replace s (f r) (g.rows t))
    unfolding update_where
    update_where_up t r found =
        let t1 = (g.first p t).1 in
        let there : contains_id s (s.id (f r)) (g.rows t1) ≡ Bool.true =
          rw (same_id r, law.first_rows p t) (contains_id-find? s p (g.rows t) r found) in
        rw (up.first_up p t r found, update_where)
          (
            up.save_up (f r) t1,
            law.save_ok (f r) t1 there (up.save_up (f r) t1)
                ∙ ap (replace s (f r)) (law.first_rows p t),
          )
