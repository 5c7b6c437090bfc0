-- ===== src/Base/Sort.antt =====
-- `slice::sort_by` of the standard library: the stable sort by a comparison.
use Prim.Native.Nat.{Ordering}
use mathlib.Core.Path.{◌≡◌}
use mathlib.Core.Bool.{Bool, true, false}
use mathlib.Core.List.{List, [], ◌∷◌, Perm}
use mathlib.Core.List.Perm
use swayr.Base.Tests.{if◌then◌else◌, Bool-cases}
use swayr.Base.Lists.{All}
use mathlib.Core.Logic.{inl, inr}

-- `compare(a, b) != Greater`.
abbrev pub not_greater : Ordering → Bool
not_greater Ordering.gt = false
not_greater _ = true

module _ {ℓ} {A : Type ℓ} where
  insert_sorted : (A → A → Ordering) → A → List A → List A
  insert_sorted cmp x [] = x ∷ []
  insert_sorted cmp x (y ∷ ys) =
      if not_greater (cmp x y) then x ∷ y ∷ ys else y ∷ insert_sorted cmp x ys

  unfoldable pub sort_by : (A → A → Ordering) → List A → List A
  unfolding insert_sorted
  sort_by cmp [] = []
  sort_by cmp (x ∷ xs) = insert_sorted cmp x (sort_by cmp xs)

  insert_sorted-perm :
      (cmp : A → A → Ordering) (x : A) (ys : List A) → Perm (insert_sorted cmp x ys) (x ∷ ys)
  unfolding insert_sorted
  insert_sorted-perm cmp x [] = Perm.rfl
  insert_sorted-perm cmp x (y ∷ ys) = elim (Bool-cases (not_greater (cmp x y))) [
    | inl e ↦ rw e Perm.rfl
    | inr e ↦ rw e (Perm.trans (Perm.cons y (insert_sorted-perm cmp x ys)) (Perm.swap x y ys))
  ]

  -- Sorting rearranges.
  pub sort_by-perm : (cmp : A → A → Ordering) (xs : List A) → Perm (sort_by cmp xs) xs
  unfolding sort_by
  sort_by-perm cmp [] = Perm.rfl
  sort_by-perm cmp (x ∷ xs) =
      Perm.trans (insert_sorted-perm cmp x (sort_by cmp xs)) (Perm.cons x (sort_by-perm cmp xs))

  insert_sorted-All {κ} :
      (P : A → Type κ) (cmp : A → A → Ordering) (x : A) (ys : List A)
      → P x
      → All P ys
      → All P (insert_sorted cmp x ys)
  unfolding insert_sorted
  insert_sorted-All P cmp x [] hx h = (hx, tt)
  insert_sorted-All P cmp x (y ∷ ys) hx h = elim (Bool-cases (not_greater (cmp x y))) [
    | inl e ↦ rw e (hx, h)
    | inr e ↦ rw e (h.0, insert_sorted-All P cmp x ys hx h.1)
  ]

  pub sort_by-All {κ} :
      (P : A → Type κ) (cmp : A → A → Ordering) (xs : List A) → All P xs → All P (sort_by cmp xs)
  unfolding sort_by
  sort_by-All P cmp [] h = h
  sort_by-All P cmp (x ∷ xs) h =
      insert_sorted-All P cmp x (sort_by cmp xs) h.0 (sort_by-All P cmp xs h.1)

  -- Each item stands in the relation to every later one.
  abbrev pub IsOrdered {κ} : (A → A → Type κ) → List A → Type (ℓ ⊔ κ)
  IsOrdered R [] = Unit
  IsOrdered R (x ∷ xs) = All (R x) xs × IsOrdered R xs

  pub All-map {κ κ'} :
      (P : A → Type κ) (Q : A → Type κ') (xs : List A) → ((x : A) → P x → Q x) → All P xs → All Q xs
  All-map P Q [] f h = tt
  All-map P Q (x ∷ xs) f h = (f x h.0, All-map P Q xs f h.1)

module _ {ℓ κ} {A : Type ℓ} (cmp : A → A → Ordering) (R : A → A → Type κ) where
  insert_sorted-IsOrdered :
      ((a b : A) → not_greater (cmp a b) ≡ true → R a b)
      → ((a b : A) → not_greater (cmp a b) ≡ false → R b a)
      → ((a b c : A) → R a b → R b c → R a c)
      → (x : A) (ys : List A) → IsOrdered R ys
      → IsOrdered R (insert_sorted cmp x ys)
  unfolding insert_sorted
  insert_sorted-IsOrdered below above trans x [] h = (tt, tt)
  insert_sorted-IsOrdered below above trans x (y ∷ ys) h =
      elim (Bool-cases (not_greater (cmp x y))) [
        | inl e ↦
            let xy = below x y e in rw e ((xy, All-map (R y) (R x) ys (λ z. trans x y z xy) h.0), h)
        | inr e ↦ rw e (
          insert_sorted-All (R y) cmp x ys (above x y e) h.0,
          insert_sorted-IsOrdered below above trans x ys h.1,
        )
      ]

  -- A comparison that agrees with a transitive relation sorts by it.
  pub sort_by-IsOrdered :
      ((a b : A) → not_greater (cmp a b) ≡ true → R a b)
      → ((a b : A) → not_greater (cmp a b) ≡ false → R b a)
      → ((a b c : A) → R a b → R b c → R a c)
      → (xs : List A) → IsOrdered R (sort_by cmp xs)
  unfolding sort_by
  sort_by-IsOrdered below above trans [] = tt
  sort_by-IsOrdered below above trans (x ∷ xs) =
      insert_sorted-IsOrdered below above trans x (sort_by cmp xs)
        (sort_by-IsOrdered below above trans xs)
