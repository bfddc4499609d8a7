-- ===== src/Gorm/Update.antt =====
-- The shape of every update in go-ooo/database/transactions.go: `First`, and on success the
-- fields set and `Save`; what it leaves in the table.
use xfund_router.Common.{
  String, ◌≡◌, ◌⊎◌, inl, inr, Bool, true, false, Option, some, none, find?, All, ok, err,
  Result-cases, Option-cases, ap, ◌∙◌, All-find?,
}
use xfund_router.Gorm.{Schema, Gorm, IsGorm, contains_id, replace, Distinct}
use xfund_router.Gorm.Rows.{
  find?-sound, contains_id-find?, All-replace, Distinct-replace, find?-replace_self,
  find?-replace_ne,
}

module _ {Row : Type 0} (g : Gorm Row) where
  unfoldable pub update_where : (Row → Bool) → (Row → Row) → g.Table → Option String × g.Table
  update_where p f t = elim (g.first p t).0 [
    | ok r ↦ g.save (f r) (g.first p t).1
    | err e ↦ (some e, (g.first p t).1)
  ]

  module _ (s : Schema Row) (law : IsGorm s g) (p : Row → Bool) (f : Row → Row)
      (same_id : (r : Row) → s.id (f r) ≡ s.id r) where
    -- Either the call failed and no row changed, or the first row that fits was replaced.
    pub update_where-cases :
        (t : g.Table)
        → let (e, t') = update_where p f t in
          ((m : String) × (e ≡ some m) × (g.rows t' ≡ g.rows t))
          ⊎ ((r : Row) × (find? p (g.rows t) ≡ some r)
              × (e ≡ none)
              × (g.rows t' ≡ replace s (f r) (g.rows t)))
    unfolding update_where
    update_where-cases t = elim (Result-cases (g.first p t).0) [
      | inr (m, e) ↦ inl (m, rw (e, update_where), rw (e, update_where) (law.first_rows p t))
      | inl (r, e) ↦
          let t1 = (g.first p t).1 in
          let found : find? p (g.rows t) ≡ some r = law.first_ok p t r e in
          let there : contains_id s (s.id (f r)) (g.rows t1) ≡ true =
            rw (same_id r, law.first_rows p t) (contains_id-find? s p (g.rows t) r found) in
          elim (Option-cases (g.save (f r) t1).0) [
            | inl saved ↦ inr (
              r,
              found,
              rw (e, update_where) saved,
              rw (e, update_where)
                  (law.save_ok (f r) t1 there saved ∙ ap (replace s (f r)) (law.first_rows p t)),
            )
            | inr (m, k) ↦ inl (
              m,
              rw (e, update_where) k,
              rw (e, update_where) (law.save_err (f r) t1 m k ∙ law.first_rows p t),
            )
          ]
    ]

    pub All-update_where :
        (P : Row → Type 0)
        → ((r : Row) → P r → P (f r))
        → (t : g.Table) → All P (g.rows t)
        → All P (g.rows (update_where p f t).1)
    All-update_where P keep t h = elim (update_where-cases t) [
      | inl (m, e, same) ↦ rw same h
      | inr (r, found, e, new) ↦
          rw new (All-replace s P (f r) (g.rows t) (keep r (All-find? P p (g.rows t) r h found)) h)
    ]

    pub Distinct-update_where :
        (t : g.Table) → Distinct s (g.rows t) → Distinct s (g.rows (update_where p f t).1)
    Distinct-update_where t h = elim (update_where-cases t) [
      | inl (m, e, same) ↦ rw same h
      | inr (r, found, e, new) ↦ rw new (Distinct-replace s (f r) (g.rows t) h)
    ]

    -- A successful update is seen by the same search, and hidden from a search that fits neither
    -- the old row nor the new one.
    pub find?-update_where_self :
        (t : g.Table)
        → Distinct s (g.rows t)
        → ((r : Row) → p (f r) ≡ p r)
        → (update_where p f t).0 ≡ none
        → (r : Row) × (find? p (g.rows t) ≡ some r)
          × (find? p (g.rows (update_where p f t).1) ≡ some (f r))
    find?-update_where_self t d keep e = elim (update_where-cases t) [
      | inl (m, failed, same) ↦ cc
      | inr (r, found, k, new) ↦ (
        r,
        found,
        rw new (
            find?-replace_self s p r (f r) (g.rows t) d found (same_id r)
              (keep r ∙ find?-sound p (g.rows t) r found)),
      )
    ]

    pub find?-update_where_ne :
        (q : Row → Bool) (t : g.Table)
        → Distinct s (g.rows t)
        → ((r : Row) → q (f r) ≡ q r)
        → ((r : Row) → p r ≡ true → q r ≡ false)
        → find? q (g.rows (update_where p f t).1) ≡ find? q (g.rows t)
    find?-update_where_ne q t d keep apart = elim (update_where-cases t) [
      | inl (m, failed, same) ↦ rw same
      | inr (r, found, k, new) ↦
          let other : q r ≡ false = apart r (find?-sound p (g.rows t) r found) in
          rw new
            (find?-replace_ne s p q r (f r) (g.rows t) d found (same_id r) other (keep r ∙ other))
    ]
