-- ===== src/Service/Loop/Handlers.antt =====
-- go-ooo/service/echo.go: the handlers that share a channel, as one of them changes.
use xfund_router.Common.{List, [], ◌∷◌, ◌++◌, ◌≡◌, refl, ap}
use xfund_router.Service.Loop.{Handler, sending, waiting, answered}

module _ {T R : Type 0} where
  abbrev pub NoneWaiting : List (Handler T R) → Type 0
  NoneWaiting [] = Unit
  NoneWaiting (waiting t ∷ hs) = ⊥
  NoneWaiting (sending t ∷ hs) = NoneWaiting hs
  NoneWaiting (answered t r ∷ hs) = NoneWaiting hs

  -- One handler waits, and its task has the property.
  abbrev pub OneWaits : (T → Type 0) → List (Handler T R) → Type 0
  OneWaits P [] = ⊥
  OneWaits P (waiting t ∷ hs) = P t × NoneWaiting hs
  OneWaits P (sending t ∷ hs) = OneWaits P hs
  OneWaits P (answered t r ∷ hs) = OneWaits P hs

  abbrev pub AllAnswered : (T → R → Type 0) → List (Handler T R) → Type 0
  AllAnswered Q [] = Unit
  AllAnswered Q (answered t r ∷ hs) = Q t r × AllAnswered Q hs
  AllAnswered Q (sending t ∷ hs) = AllAnswered Q hs
  AllAnswered Q (waiting t ∷ hs) = AllAnswered Q hs

  pub OneWaits-of_sending :
      (P : T → Type 0) (before after : List (Handler T R)) (t : T)
      → P t
      → NoneWaiting (before ++ sending t ∷ after)
      → OneWaits P (before ++ waiting t ∷ after)
  OneWaits-of_sending P [] after t p h = (p, h)
  OneWaits-of_sending P (sending u ∷ before) after t p h = OneWaits-of_sending P before after t p h
  OneWaits-of_sending P (answered u r ∷ before) after t p h =
      OneWaits-of_sending P before after t p h
  OneWaits-of_sending P (waiting u ∷ before) after t p h = absurd h

  not-NoneWaiting :
      (before after : List (Handler T R)) (t : T) → ¬ NoneWaiting (before ++ waiting t ∷ after)
  not-NoneWaiting [] after t h = h
  not-NoneWaiting (sending u ∷ before) after t h = not-NoneWaiting before after t h
  not-NoneWaiting (answered u r ∷ before) after t h = not-NoneWaiting before after t h
  not-NoneWaiting (waiting u ∷ before) after t h = h

  -- The handler that receives the response is the one that waits.
  pub OneWaits-received :
      (P : T → Type 0) (before after : List (Handler T R)) (t : T) (r : R)
      → OneWaits P (before ++ waiting t ∷ after)
      → P t × NoneWaiting (before ++ answered t r ∷ after)
  OneWaits-received P [] after t r h = h
  OneWaits-received P (sending u ∷ before) after t r h = OneWaits-received P before after t r h
  OneWaits-received P (answered u q ∷ before) after t r h = OneWaits-received P before after t r h
  OneWaits-received P (waiting u ∷ before) after t r h = absurd (not-NoneWaiting before after t h.1)

  pub AllAnswered-taken :
      (Q : T → R → Type 0) (before after : List (Handler T R)) (t : T)
      → AllAnswered Q (before ++ sending t ∷ after)
      → AllAnswered Q (before ++ waiting t ∷ after)
  AllAnswered-taken Q [] after t h = h
  AllAnswered-taken Q (sending u ∷ before) after t h = AllAnswered-taken Q before after t h
  AllAnswered-taken Q (waiting u ∷ before) after t h = AllAnswered-taken Q before after t h
  AllAnswered-taken Q (answered u r ∷ before) after t h =
      (h.0, AllAnswered-taken Q before after t h.1)

  pub AllAnswered-received :
      (Q : T → R → Type 0) (before after : List (Handler T R)) (t : T) (r : R)
      → Q t r
      → AllAnswered Q (before ++ waiting t ∷ after)
      → AllAnswered Q (before ++ answered t r ∷ after)
  AllAnswered-received Q [] after t r q h = (q, h)
  AllAnswered-received Q (sending u ∷ before) after t r q h =
      AllAnswered-received Q before after t r q h
  AllAnswered-received Q (waiting u ∷ before) after t r q h =
      AllAnswered-received Q before after t r q h
  AllAnswered-received Q (answered u p ∷ before) after t r q h =
      (h.0, AllAnswered-received Q before after t r q h.1)

  pub NoneWaiting-posted :
      (hs : List (Handler T R)) (t : T) → NoneWaiting hs → NoneWaiting (hs ++ sending t ∷ [])
  NoneWaiting-posted [] t h = tt
  NoneWaiting-posted (sending u ∷ hs) t h = NoneWaiting-posted hs t h
  NoneWaiting-posted (answered u r ∷ hs) t h = NoneWaiting-posted hs t h
  NoneWaiting-posted (waiting u ∷ hs) t h = h

  pub OneWaits-posted :
      (P : T → Type 0) (hs : List (Handler T R)) (t : T)
      → OneWaits P hs
      → OneWaits P (hs ++ sending t ∷ [])
  OneWaits-posted P [] t h = absurd h
  OneWaits-posted P (sending u ∷ hs) t h = OneWaits-posted P hs t h
  OneWaits-posted P (answered u r ∷ hs) t h = OneWaits-posted P hs t h
  OneWaits-posted P (waiting u ∷ hs) t h = (h.0, NoneWaiting-posted hs t h.1)

  pub AllAnswered-posted :
      (Q : T → R → Type 0) (hs : List (Handler T R)) (t : T)
      → AllAnswered Q hs
      → AllAnswered Q (hs ++ sending t ∷ [])
  AllAnswered-posted Q [] t h = tt
  AllAnswered-posted Q (sending u ∷ hs) t h = AllAnswered-posted Q hs t h
  AllAnswered-posted Q (waiting u ∷ hs) t h = AllAnswered-posted Q hs t h
  AllAnswered-posted Q (answered u r ∷ hs) t h = (h.0, AllAnswered-posted Q hs t h.1)

  -- The one that waits, for the reply that it is sent.
  pub OneWaits-split :
      (P : T → Type 0) (hs : List (Handler T R))
      → OneWaits P hs
      → (before : List (Handler T R)) × (t : T) × (after : List (Handler T R)) × (hs
          ≡ before ++ waiting t ∷ after)
        × P t
  OneWaits-split P [] h = absurd h
  OneWaits-split P (waiting u ∷ hs) h = ([], u, hs, refl, h.0)
  OneWaits-split P (sending u ∷ hs) h =
      let (before, t, after, same, p) = OneWaits-split P hs h in
      (sending u ∷ before, t, after, ap (λ ks. sending u ∷ ks) same, p)
  OneWaits-split P (answered u r ∷ hs) h =
      let (before, t, after, same, p) = OneWaits-split P hs h in
      (answered u r ∷ before, t, after, ap (λ ks. answered u r ∷ ks) same, p)

  pub AllAnswered-mono :
      (P Q : T → R → Type 0)
      → ((t : T) (r : R) → P t r → Q t r)
      → (hs : List (Handler T R)) → AllAnswered P hs
      → AllAnswered Q hs
  AllAnswered-mono P Q f [] h = tt
  AllAnswered-mono P Q f (sending u ∷ hs) h = AllAnswered-mono P Q f hs h
  AllAnswered-mono P Q f (waiting u ∷ hs) h = AllAnswered-mono P Q f hs h
  AllAnswered-mono P Q f (answered u r ∷ hs) h = (f u r h.0, AllAnswered-mono P Q f hs h.1)
