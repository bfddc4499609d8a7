-- ===== src/Chain/Keeps.antt =====
-- Invariants of handlers: a handler keeps an invariant if every part of it does, however it ends.
use xfund_router.Common.{
  String, Bool, true, false, Option, some, none, Result, ok, err, List, [], ◌∷◌, if◌then◌else◌,
}
use xfund_router.Chain.Env.{Env, Node}
use xfund_router.Chain.Monad.{
  M, resume, or_return, unless_error, ◌>>=◌, pure, return, try, check, ignore, scope, for_each,
}

pub record Keeps {e : Env} {A : Type 0} (I : Node e → Type 0) (m : M e A) : Type 0 where
  pub run : (n : Node e) → I n → I (m n).1

module _ {e : Env} {I : Node e → Type 0} where
  resume-keeps :
      {A B : Type 0} (r : Option A) (f : A → M e B) (n : Node e)
      → ((a : A) → Keeps I (f a))
      → I n
      → I (resume r f n).1
  resume-keeps none f n k i = i
  resume-keeps (some a) f n k i = (k a).run n i

  pub Keeps->>= :
      {A B : Type 0} (m : M e A) (f : A → M e B)
      → Keeps I m
      → ((a : A) → Keeps I (f a))
      → Keeps I (m >>= f)
  unfolding ◌>>=◌
  Keeps->>= m f h k = record { run = λ n i. resume-keeps (m n).0 f (m n).1 k (h.run n i) }

  pub Keeps-pure : {A : Type 0} (a : A) → Keeps I (pure a)
  unfolding pure
  Keeps-pure a = record { run = λ n i. i }

  pub Keeps-return : Keeps I return
  unfolding return
  Keeps-return = record { run = λ n i. i }

  or_return-Keeps : {A : Type 0} (r : Result A) → Keeps I (or_return r)
  or_return-Keeps (ok a) = record { run = λ n i. i }
  or_return-Keeps (err _) = record { run = λ n i. i }

  unless_error-Keeps : (o : Option String) → Keeps I (unless_error o)
  unless_error-Keeps none = record { run = λ n i. i }
  unless_error-Keeps (some _) = record { run = λ n i. i }

  pub Keeps-try : {A : Type 0} (m : M e (Result A)) → Keeps I m → Keeps I (try m)
  unfolding try
  Keeps-try m h = Keeps->>= m or_return h or_return-Keeps

  pub Keeps-check : (m : M e (Option String)) → Keeps I m → Keeps I (check m)
  unfolding check
  Keeps-check m h = Keeps->>= m unless_error h unless_error-Keeps

  pub Keeps-ignore : {A : Type 0} (m : M e A) → Keeps I m → Keeps I (ignore m)
  unfolding ignore
  Keeps-ignore m h = Keeps->>= m (λ _. pure tt) h (λ _. Keeps-pure tt)

  pub Keeps-if :
      {A : Type 0} (b : Bool) (m k : M e A) → Keeps I m → Keeps I k → Keeps I (if b then m else k)
  Keeps-if true m k h g = h
  Keeps-if false m k h g = g

  pub Keeps-scope : (m : M e (Unit {0})) → Keeps I m → Keeps I (scope m)
  unfolding scope
  Keeps-scope m h = record { run = λ n i. h.run n i }

  pub Keeps-for_each :
      {A : Type 0} (xs : List A) (body : A → M e (Unit {0}))
      → ((x : A) → Keeps I (body x))
      → Keeps I (for_each xs body)
  unfolding for_each
  Keeps-for_each [] body h = Keeps-pure tt
  Keeps-for_each (x ∷ xs) body h =
      Keeps->>= (scope (body x)) _ (Keeps-scope (body x) (h x)) (λ _. Keeps-for_each xs body h)
