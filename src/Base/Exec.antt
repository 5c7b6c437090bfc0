-- ===== src/Base/Exec.antt =====
-- Code that changes a state and may panic. What was done before a panic stays done.
use mathlib.Core.Path.{◌≡◌, refl}
use mathlib.Core.List.{List, [], ◌∷◌}
use swayr.Base.Panics.{Outcome, ret, panic}

abbrev pub Exec {ℓ} : Type ℓ → Type ℓ → Type ℓ
Exec S A = S → Outcome A × S

module _ {ℓ} {S A : Type ℓ} where
  abbrev pub pure : A → Exec S A
  pure a s = (ret a, s)

  -- Code that only reads, and may panic.
  abbrev pub lift : Outcome A → Exec S A
  lift r s = (r, s)

  abbrev pub gets : (S → A) → Exec S A
  gets f s = (ret (f s), s)

module _ {ℓ} {S A B : Type ℓ} where
  abbrev pub continue : Outcome A → (A → Exec S B) → Exec S B
  continue (ret a) f s = f a s
  continue (panic e) f s = (panic e, s)

  infixl 5 ◌>>=◌ ◌>>◌
  abbrev pub ◌>>=◌ : Exec S A → (A → Exec S B) → Exec S B
  ◌>>=◌ m f s = let (r, s') = m s in continue r f s'

  abbrev pub ◌>>◌ : Exec S A → Exec S B → Exec S B
  m >> n = m >>= λ _. n

abbrev pub modify {ℓ} : {S : Type ℓ} → (S → S) → Exec S Unit
modify f s = (ret tt, f s)

-- `for a in l { body(a) }`.
abbrev pub for_each {ℓ} : {S A : Type ℓ} → List A → (A → Exec S Unit) → Exec S Unit
for_each [] body = pure tt
for_each (a ∷ l) body = body a >> for_each l body

module _ {ℓ} {S A B : Type ℓ} where
  -- What follows code that returns.
  pub bind_ret :
      (m : Exec S A) (f : A → Exec S B) {s s' : S} {a : A}
      → m s ≡ (ret a, s')
      → (m >>= f) s ≡ f a s'
  bind_ret m f e = rw e

  -- Code may be replaced by code that does the same from this state.
  pub bind_left :
      (m m' : Exec S A) (f : A → Exec S B) {s : S} → m s ≡ m' s → (m >>= f) s ≡ (m' >>= f) s
  bind_left m m' f e = rw e refl

  -- What follows may be replaced by code that does the same.
  pub bind_same :
      (m : Exec S A) (f g : A → Exec S B)
      → ((a : A) (s : S) → f a s ≡ g a s)
      → (s : S) → (m >>= f) s ≡ (m >>= g) s
  bind_same m f g h s = go (m s)
    where
      go : (x : Outcome A × S) → continue x.0 f x.1 ≡ continue x.0 g x.1
      go (ret a, s') = h a s'
      go (panic e, s') = refl

module _ {ℓ} {S A B C : Type ℓ} where
  pub bind_assoc :
      (m : Exec S A) (f : A → Exec S B) (g : B → Exec S C) (s : S)
      → ((m >>= f) >>= g) s ≡ (m >>= λ a. f a >>= g) s
  bind_assoc m f g s = go (m s)
    where
      go :
          (x : Outcome A × S)
          → continue (continue x.0 f x.1).0 g (continue x.0 f x.1).1
            ≡ continue x.0 (λ a. f a >>= g) x.1
      go (ret a, s') = refl
      go (panic e, s') = refl

-- Code that returns has come through its first part.
pub bind_inv {ℓ} :
    {S A B : Type ℓ} (m : Exec S A) (f : A → Exec S B) (w : S) {b : B} {w' : S}
    → (m >>= f) w ≡ (ret b, w')
    → (a : A) × (v : S) × (m w ≡ (ret a, v)) × (f a v ≡ (ret b, w'))
bind_inv {S = S} {A = A} {B = B} m f w {b} {w'} e = go (m w) refl e
  where
    go :
        (r : Outcome A × S)
        → m w ≡ r
        → continue (r.0) f (r.1) ≡ (ret b, w')
        → (a : A) × (v : S) × (m w ≡ (ret a, v)) × (f a v ≡ (ret b, w'))
    go (ret a, v) q h = (a, v, q, h)
    go (panic x, v) q h = absurd (cc)
