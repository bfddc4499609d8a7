-- ===== src/Gorm/Deleted.antt =====
-- The rows that deletes leave, and a row added under a fresh key.
use xfund_router.Common.{
  ◌≡◌, refl, ◌∙◌, Bool, false, not, ◌||◌, ◌&&◌, List, [], ◌∷◌, ◌++◌, ◌==◌, any, filter, arith,
}
use xfund_router.Gorm.{Schema, Distinct, contains_id, without}

pub any-append :
    {A : Type 0} (p : A → Bool) (xs ys : List A) → any p (xs ++ ys) ≡ (any p xs || any p ys)
any-append p [] ys = refl
any-append p (x ∷ xs) ys = ground (arith, any-append p xs ys)

pub any_none :
    {A : Type 0} (p : A → Bool) → ((a : A) → p a ≡ false) → (xs : List A) → any p xs ≡ false
any_none p h [] = refl
any_none p h (x ∷ xs) = ground (arith, h x, any_none p h xs)

pub any-filter :
    {A : Type 0} (p q : A → Bool) (xs : List A) → any p (filter q xs) ≡ any (λ x. q x && p x) xs
any-filter p q [] = refl
any-filter p q (x ∷ xs) = ground (arith, any-filter p q xs)

filter-filter :
    {A : Type 0} (p q : A → Bool) (xs : List A)
    → filter p (filter q xs) ≡ filter (λ x. q x && p x) xs
filter-filter p q [] = refl
filter-filter p q (x ∷ xs) = ground (arith, filter-filter p q xs)

filter-eq :
    {A : Type 0} (p q : A → Bool)
    → ((a : A) → p a ≡ q a)
    → (xs : List A) → filter p xs ≡ filter q xs
filter-eq p q h [] = refl
filter-eq p q h (x ∷ xs) = ground (arith, h x, filter-eq p q h xs)

module _ {Row : Type 0} (s : Schema Row) where
  pub Distinct-append :
      (xs : List Row) (r : Row)
      → Distinct s xs
      → contains_id s (s.id r) xs ≡ false
      → Distinct s (xs ++ r ∷ [])
  Distinct-append [] r d fresh = (refl, tt)
  Distinct-append (x ∷ xs) r d fresh =
      ground (arith, Distinct-append xs r d.1, any-append (λ y. s.id y == s.id x) xs (r ∷ []))

  -- The row has the key of one of `gs`.
  abbrev pub is_one_of : List Row → Row → Bool
  is_one_of gs x = any (λ g. s.id x == s.id g) gs

  pub filter-without :
      (g : Row) (gs xs : List Row)
      → filter (λ x. not (is_one_of gs x)) (without s (s.id g) xs)
        ≡ filter (λ x. not (is_one_of (g ∷ gs) x)) xs
  filter-without g gs xs =
      filter-filter (λ x. not (is_one_of gs x)) (λ x. not (s.id x == s.id g)) xs
      ∙ filter-eq _ (λ x. not (is_one_of (g ∷ gs) x)) (λ a. ground arith) xs

  filter-fresh :
      (g : Row) (gs xs : List Row)
      → contains_id s (s.id g) xs ≡ false
      → filter (λ x. not (is_one_of (g ∷ gs) x)) xs ≡ filter (λ x. not (is_one_of gs x)) xs
  filter-fresh g gs [] h = refl
  filter-fresh g gs (x ∷ xs) h = ground (arith, filter-fresh g gs xs)

  is_one_of-filter :
      (q : Row → Bool) (x : Row) (xs : List Row)
      → contains_id s (s.id x) xs ≡ false
      → is_one_of (filter q xs) x ≡ false
  is_one_of-filter q x [] h = refl
  is_one_of-filter q x (y ∷ xs) h = ground (arith, is_one_of-filter q x xs)

  -- Deleting by key the rows that fit `q` leaves those that do not.
  pub filter-deleted :
      (q : Row → Bool) (xs : List Row)
      → Distinct s xs
      → filter (λ x. not (is_one_of (filter q xs) x)) xs ≡ filter (λ x. not (q x)) xs
  filter-deleted q [] d = refl
  filter-deleted q (x ∷ xs) d =
      ground
        (arith, filter-deleted q xs d.1, filter-fresh x (filter q xs) xs, is_one_of-filter q x xs)
