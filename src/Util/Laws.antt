-- ===== src/Util/Laws.antt =====
-- `select_from_menu` of swayr/src/util.rs: what the user picks is the entry that is returned.
use Prim.Native.String.{[], ◌∷◌}
use text.Mathlib.TextLemmas.{nil-append, cons-append}
use swayr.Base.{
  Bool, false, Option, none, some, String, List, ◌++◌, Outcome, ret, ◌≡◌, refl, ap, sym, ◌∙◌, All,
  if◌then◌else◌, string_eq, ◌==◌, beq_refl,
}
use swayr.Base.Dict.{get, insert, get-insert}
use swayr.Base.Texts.{◌<>◌}
use swayr.Util.{typed, has_nul, pop, Selected, chosen, insert_entry, menu_map, selected_by, select}

-- The menu program ends its answer with a newline, which is taken off.
pop-newline : (s : String) → pop (s <> "\n") ≡ s
unfolding pop
pop-newline [] = ap pop (nil-append "\n")
pop-newline (c ∷ []) = ap pop (cons-append c [] "\n" ∙ ap (λ (t : String). c ∷ t) (nil-append "\n"))
pop-newline (c ∷ d ∷ s) =
    ap pop (cons-append c (d ∷ s) "\n" ∙ ap (λ (t : String). c ∷ t) (cons-append d s "\n"))
    ∙ ap (λ (t : String). c ∷ t) (ap pop (sym (cons-append d s "\n")) ∙ pop-newline (d ∷ s))

module _ {A : Type 0} (format : A → Outcome String) (text : A → String) where
  -- The text of an entry, which holds no icon.
  abbrev pub IsPlain : A → Type 0
  IsPlain c = (format c ≡ ret (text c)) × (has_nul (text c) ≡ false)

  -- The last entry with the text.
  last_with : String → List A → Option A → Option A
  last_with k List.[] o = o
  last_with k (List.◌∷◌ c l) o = last_with k l (if text c == k then some c else o)

  insert_entry-plain :
      (c : A) (m : List (String × A)) → IsPlain c → insert_entry (text c) c m ≡ insert (text c) c m
  unfolding insert_entry
  insert_entry-plain c m h = rw h.1 refl

  menu_map-get :
      (l : List A) (m : List (String × A))
      → All IsPlain l
      → (m' : List (String × A)) × (menu_map format l m ≡ ret m')
        × ((k : String) → get k m' ≡ last_with k l (get k m))
  unfolding menu_map last_with
  menu_map-get List.[] m h = (m, refl, λ k. refl)
  menu_map-get (List.◌∷◌ c l) m (p, h) =
      let (m', e, g) = menu_map-get l (insert_entry (text c) c m) h in
      (
        m',
        rw p.0 e,
        λ k.
            g k
            ∙ ap (last_with k l)
                (ap (get k) (insert_entry-plain c m p) ∙ get-insert (text c) k c m),
      )

  last_with-later :
      (k : String) (b : List A) (o : Option A)
      → All (λ d. (text d == k) ≡ false) b
      → last_with k b o ≡ o
  unfolding last_with
  last_with-later k List.[] o h = refl
  last_with-later k (List.◌∷◌ d b) o h = rw h.0 (last_with-later k b o h.1)

  last_with-here :
      (a b : List A) (c : A) (o : Option A)
      → All (λ d. (text d == text c) ≡ false) b
      → last_with (text c) (a ++ List.◌∷◌ c b) o ≡ some c
  unfolding last_with
  last_with-here (List.◌∷◌ d a) b c o h =
      last_with-here a b c (if text d == text c then some d else o) h
  last_with-here List.[] b c o h =
      ap (λ (v : Bool). last_with (text c) b (if v then some c else o)) (beq_refl (text c))
      ∙ last_with-later (text c) b (some c) h

  -- When every entry has a text without an icon, and the menu program prints the text of an entry and
  -- a newline, that entry is returned, provided that no later entry has the same text.
  pub select-chosen :
      (a b : List A) (c : A)
      → All IsPlain (a ++ List.◌∷◌ c b)
      → All (λ d. (text d == text c) ≡ false) b
      → select format (a ++ List.◌∷◌ c b) (text c <> "\n") ≡ ret (chosen c)
  unfolding select selected_by get
  select-chosen a b c h apart =
      let (m, e, g) = menu_map-get (a ++ List.◌∷◌ c b) List.[] h in
      rw (e, pop-newline) (ap found (g (text c) ∙ last_with-here a b c none apart))
    where
      found : Option A → Outcome (Selected A)
      found o = ret (elim o [ some d ↦ chosen d | none ↦ typed (text c) ])
