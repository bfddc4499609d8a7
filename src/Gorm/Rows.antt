-- ===== src/Gorm/Rows.antt =====
-- Searching a list of rows after one row has been replaced or added.
use xfund_router.Common.{
  ℕ, ◌≡◌, refl, Bool, true, false, some, none, List, [], ◌∷◌, ◌++◌, arith, find?, All,
}
use xfund_router.Gorm.{Schema, contains_id, replace, Distinct}

pub find?-append_some :
    {A : Type 0} (p : A → Bool) (xs ys : List A) (a : A)
    → find? p xs ≡ some a
    → find? p (xs ++ ys) ≡ some a
find?-append_some p [] ys a h = cc
find?-append_some p (x ∷ xs) ys a h = ground (arith, find?-append_some p xs ys a)

pub find?-append_none :
    {A : Type 0} (p : A → Bool) (xs ys : List A)
    → find? p xs ≡ none
    → find? p (xs ++ ys) ≡ find? p ys
find?-append_none p [] ys h = refl
find?-append_none p (x ∷ xs) ys h = ground (arith, find?-append_none p xs ys)

pub find?-sound :
    {A : Type 0} (p : A → Bool) (xs : List A) (a : A) → find? p xs ≡ some a → p a ≡ true
find?-sound p [] a h = cc
find?-sound p (x ∷ xs) a h = ground (arith, find?-sound p xs a)

module _ {Row : Type 0} (s : Schema Row) where
  pub contains_id-find? :
      (p : Row → Bool) (xs : List Row) (r : Row)
      → find? p xs ≡ some r
      → contains_id s (s.id r) xs ≡ true
  contains_id-find? p [] r h = cc
  contains_id-find? p (x ∷ xs) r h = ground (arith, contains_id-find? p xs r)

  pub All-replace :
      (P : Row → Type 0) (r : Row) (xs : List Row) → P r → All P xs → All P (replace s r xs)
  All-replace P r [] h k = tt
  All-replace P r (x ∷ xs) h k = ground (arith, All-replace P r xs h k.1)

  contains_id-replace :
      (n : ℕ) (r : Row) (xs : List Row) → contains_id s n (replace s r xs) ≡ contains_id s n xs
  contains_id-replace n r [] = refl
  contains_id-replace n r (x ∷ xs) = ground (arith, contains_id-replace n r xs)

  pub Distinct-replace : (r : Row) (xs : List Row) → Distinct s xs → Distinct s (replace s r xs)
  Distinct-replace r [] h = tt
  Distinct-replace r (x ∷ xs) h =
      ground (arith, Distinct-replace r xs h.1, contains_id-replace (s.id x) r xs)

  pub replace_fresh :
      (r : Row) (xs : List Row) → contains_id s (s.id r) xs ≡ false → replace s r xs ≡ xs
  replace_fresh r [] h = refl
  replace_fresh r (x ∷ xs) h = ground (arith, replace_fresh r xs)

  -- The row that a search finds, replaced by one that passes the same search, is found.
  pub find?-replace_self :
      (p : Row → Bool) (r r' : Row) (xs : List Row)
      → Distinct s xs
      → find? p xs ≡ some r
      → s.id r' ≡ s.id r
      → p r' ≡ true
      → find? p (replace s r' xs) ≡ some r'
  find?-replace_self p r r' [] d h e k = cc
  find?-replace_self p r r' (x ∷ xs) d h e k =
      ground (arith, find?-replace_self p r r' xs d.1, contains_id-find? p xs r)

  -- A search that fits neither the replaced row nor the new one finds what it found.
  pub find?-replace_ne :
      (p q : Row → Bool) (r r' : Row) (xs : List Row)
      → Distinct s xs
      → find? p xs ≡ some r
      → s.id r' ≡ s.id r
      → q r ≡ false
      → q r' ≡ false
      → find? q (replace s r' xs) ≡ find? q xs
  find?-replace_ne p q r r' [] d h e k k' = refl
  find?-replace_ne p q r r' (x ∷ xs) d h e k k' =
      ground
        (arith, find?-replace_ne p q r r' xs d.1, contains_id-find? p xs r, replace_fresh r' xs)
