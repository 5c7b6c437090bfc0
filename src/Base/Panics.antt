-- ===== src/Base/Panics.antt =====
-- Rust code that may panic. `panic` ends the thread; no part of the program catches one.
use Prim.Native.String.{String}
use mathlib.Core.Path.{◌≡◌, refl}
use mathlib.Core.Bool.{Bool, true, false}
use mathlib.Core.Option.{Option, none, some}
use mathlib.Core.List.{List, [], ◌∷◌}
use swayr.Base.Tests.{if◌then◌else◌}
use swayr.Base.Lists.{filter, find, All}

pub data Outcome {ℓ} (A : Type ℓ) : Type ℓ where
  ret : A → Outcome A
  panic : String → Outcome A

infixl 5 ◌>>=◌
abbrev pub ◌>>=◌ {ℓ κ} : {A : Type ℓ} {B : Type κ} → Outcome A → (A → Outcome B) → Outcome B
ret a >>= f = f a
panic e >>= f = panic e

-- `Option::expect`.
abbrev pub expect {ℓ} : {A : Type ℓ} → Option A → String → Outcome A
expect none msg = panic msg
expect (some a) msg = ret a

module _ {ℓ} {A : Type ℓ} where
  -- `filter` and `find` by a test that may panic, in the order of the items.
  abbrev pub filter_m : (A → Outcome Bool) → List A → Outcome (List A)
  filter_m p [] = ret []
  filter_m p (x ∷ xs) = do b ← p x; rest ← filter_m p xs; ret (if b then x ∷ rest else rest)

  abbrev pub find_m : (A → Outcome Bool) → List A → Outcome (Option A)
  find_m p [] = ret none
  find_m p (x ∷ xs) = let rest = find_m p xs in do b ← p x; if b then ret (some x) else rest

  -- A test that does not panic on the items is a plain one there.
  pub filter_m-filter :
      (p : A → Outcome Bool) (q : A → Bool) (xs : List A)
      → All (λ x. p x ≡ ret (q x)) xs
      → filter_m p xs ≡ ret (filter q xs)
  filter_m-filter p q [] h = refl
  filter_m-filter p q (x ∷ xs) h = rw (h.0, filter_m-filter p q xs h.1)

  find_m-find :
      (p : A → Outcome Bool) (q : A → Bool) (xs : List A)
      → All (λ x. p x ≡ ret (q x)) xs
      → find_m p xs ≡ ret (find q xs)
  find_m-find p q [] h = refl
  find_m-find p q (x ∷ xs) h = rw (h.0, find_m-find p q xs h.1) (go (q x))
    where
      go :
          (b : Bool)
          → (if b then ret (some x) else ret (find q xs)) ≡ ret (if b then some x else find q xs)
      go true = refl
      go false = refl
