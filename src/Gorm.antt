-- ===== src/Gorm.antt =====
-- The database library (gorm), which is not part of the repository: a table as the node uses it,
-- and what the node relies on. `rows` shows the rows of a table in the order of their primary
-- key. Nothing else of a `Table` is seen, so any call may fail, as a connection does.
pub mod Rows
pub mod Deleted
pub mod Update
pub mod Memory
pub mod Available
use xfund_router.Common.{
  ℕ, ◌<◌, ◌≡◌, String, Bool, true, false, Option, none, some, List, [], ◌∷◌, ◌++◌, Result, ok, err,
  find?, last?, filter, any, All, ◌==◌, if◌then◌else◌, not, reverse, take, zero, suc,
}

-- A model's primary key, the row that `Create` fills a key into, and its unique indices: `clash`
-- holds of two rows that may not stand in one table.
pub record Schema (Row : Type 0) : Type 0 where
  pub id : Row → ℕ
  pub with_id : ℕ → Row → Row
  pub clash : Row → Row → Bool

-- The calls: `Where(p).First`, `Where(p).Order("id asc").Find`, `Last`, `Create` and `Save`;
-- `Where(p).Order(o).First` with a test for a row that `o` puts before another; `Where(p)`, newest
-- first, with a limit where that is above 0; `Delete` of a row for good, and `DELETE FROM`.
pub record Gorm (Row : Type 0) : Type 1 where
  pub Table : Type 0
  pub rows : Table → List Row
  pub first : (Row → Bool) → Table → Result Row × Table
  pub find : (Row → Bool) → Table → Result (List Row) × Table
  pub last : Table → Result Row × Table
  pub create : Row → Table → Result Row × Table
  pub save : Row → Table → Option String × Table
  pub top : (Row → Bool) → (Row → Row → Bool) → Table → Result Row × Table
  pub newest : (Row → Bool) → ℕ → Table → Result (List Row) × Table
  pub delete : Row → Table → Option String × Table
  pub clear : Table → Option String × Table

-- `LIMIT n`, none for 0.
abbrev pub at_most : {A : Type 0} → ℕ → List A → List A
at_most zero xs = xs
at_most (suc n) xs = take (suc n) xs

module _ {Row : Type 0} (s : Schema Row) where
  abbrev pub contains_id : ℕ → List Row → Bool
  contains_id n = any (λ x. s.id x == n)

  -- `UPDATE … WHERE id = r.id`, every column set from `r`.
  abbrev pub replace : Row → List Row → List Row
  replace r [] = []
  replace r (x ∷ xs) = let rest = replace r xs in if s.id x == s.id r then r ∷ rest else x ∷ rest

  abbrev pub without : ℕ → List Row → List Row
  without n = filter (λ x. not (s.id x == n))

  -- No primary key twice.
  abbrev pub Distinct : List Row → Type 0
  Distinct [] = Unit
  Distinct (x ∷ xs) = (contains_id (s.id x) xs ≡ false) × Distinct xs

  -- What the calls promise. A query changes nothing; a failed write changes nothing; `Create`
  -- gives a fresh key above 0 and keeps the unique indices; `Save` of a row that is there
  -- replaces it.
  pub record IsGorm (g : Gorm Row) : Type 0 where
    pub first_ok :
        (p : Row → Bool) (t : g.Table) (r : Row)
        → (g.first p t).0 ≡ ok r
        → find? p (g.rows t) ≡ some r
    pub first_rows : (p : Row → Bool) (t : g.Table) → g.rows (g.first p t).1 ≡ g.rows t
    pub find_ok :
        (p : Row → Bool) (t : g.Table) (rs : List Row)
        → (g.find p t).0 ≡ ok rs
        → rs ≡ filter p (g.rows t)
    pub find_rows : (p : Row → Bool) (t : g.Table) → g.rows (g.find p t).1 ≡ g.rows t
    pub last_ok : (t : g.Table) (r : Row) → (g.last t).0 ≡ ok r → last? (g.rows t) ≡ some r
    pub last_rows : (t : g.Table) → g.rows (g.last t).1 ≡ g.rows t
    pub create_ok :
        (r r' : Row) (t : g.Table)
        → (g.create r t).0 ≡ ok r'
        → (r' ≡ s.with_id (s.id r') r)
          × (0 < s.id r')
          × (contains_id (s.id r') (g.rows t) ≡ false)
          × (any (s.clash r) (g.rows t) ≡ false)
          × (g.rows (g.create r t).1 ≡ g.rows t ++ r' ∷ [])
    pub create_err :
        (r : Row) (t : g.Table) (e : String)
        → (g.create r t).0 ≡ err e
        → g.rows (g.create r t).1 ≡ g.rows t
    pub save_ok :
        (r : Row) (t : g.Table)
        → contains_id (s.id r) (g.rows t) ≡ true
        → (g.save r t).0 ≡ none
        → g.rows (g.save r t).1 ≡ replace r (g.rows t)
    pub save_err :
        (r : Row) (t : g.Table) (e : String)
        → (g.save r t).0 ≡ some e
        → g.rows (g.save r t).1 ≡ g.rows t
    pub top_ok :
        (p : Row → Bool) (before : Row → Row → Bool) (t : g.Table) (r : Row)
        → (g.top p before t).0 ≡ ok r
        → (p r ≡ true) × (any p (g.rows t) ≡ true) × (contains_id (s.id r) (g.rows t) ≡ true)
    pub top_rows :
        (p : Row → Bool) (before : Row → Row → Bool) (t : g.Table)
        → g.rows (g.top p before t).1 ≡ g.rows t
    pub newest_ok :
        (p : Row → Bool) (n : ℕ) (t : g.Table) (rs : List Row)
        → (g.newest p n t).0 ≡ ok rs
        → rs ≡ at_most n (reverse (filter p (g.rows t)))
    pub newest_rows : (p : Row → Bool) (n : ℕ) (t : g.Table) → g.rows (g.newest p n t).1 ≡ g.rows t
    pub delete_ok :
        (r : Row) (t : g.Table)
        → (g.delete r t).0 ≡ none
        → g.rows (g.delete r t).1 ≡ without (s.id r) (g.rows t)
    pub delete_err :
        (r : Row) (t : g.Table) (e : String)
        → (g.delete r t).0 ≡ some e
        → g.rows (g.delete r t).1 ≡ g.rows t
    pub clear_ok : (t : g.Table) → (g.clear t).0 ≡ none → g.rows (g.clear t).1 ≡ []
