-- ===== src/Bar/Battery/Laws.antt =====
-- swayrbar/src/module/battery.rs: how the states of the batteries are shown.
use swayr.Base.{
  ◌≡◌, refl, sym, ap, ◌∙◌, ◌||◌, ℕ, suc, Bool, true, false, String, List, [], ◌∷◌, length, contains,
  nat_eq, string_eq, ◌==◌, if◌then◌else◌, Bool-cases, inl, inr, arith, beq→eq,
}
use text.Mathlib.TextLemmas.{append-nil, append_assoc}
use swayr.Base.Texts.{◌<>◌, join}
use swayr.Bar.Battery.{collect_set, comma_sep, join_states}

comma_sep-rest :
    (acc s : String) (l : List String)
    → comma_sep acc false (s ∷ l) ≡ acc <> (", " <> join ", " (s ∷ l))
unfolding comma_sep
comma_sep-rest acc s [] = refl
comma_sep-rest acc s (t ∷ l) =
    comma_sep-rest (acc <> ", " <> s) t l
    ∙ append_assoc acc (", " <> s) (", " <> join ", " (t ∷ l))
    ∙ ap (λ (x : String). acc <> x) (append_assoc ", " s (", " <> join ", " (t ∷ l)))

comma_sep-join : (acc : String) (l : List String) → comma_sep acc true l ≡ acc <> join ", " l
unfolding comma_sep
comma_sep-join acc [] = sym (append-nil acc)
comma_sep-join acc (s ∷ []) = refl
comma_sep-join acc (s ∷ t ∷ l) = comma_sep-rest (acc <> s) t l ∙ append_assoc acc s _

not_one : (n : ℕ) → (suc (suc n) == 1) ≡ false
not_one n = ground arith

-- Each state that some battery has is listed, and no other one.
collect_set-contains : (l : List String) (s : String) → contains (collect_set l) s ≡ contains l s
unfolding collect_set
collect_set-contains [] s = refl
collect_set-contains (t ∷ l) s = elim (Bool-cases (contains (collect_set l) t)) [
  | inr e ↦ rw e (ap (λ (b : Bool). t == s || b) (collect_set-contains l s))
  | inl e ↦ rw e (elim (Bool-cases (t == s)) [
    | inr d ↦ rw d (collect_set-contains l s)
    | inl d ↦ rw d (ap (contains (collect_set l)) (sym (beq→eq t s d)) ∙ e)
  ])
]

-- A battery alone, or several in one state, are shown by that state; otherwise the states stand in
-- brackets, in the order of the set, with commas between them.
join_states-join :
    (l : List String)
    → join_states l ≡ (if length l == 1 then join ", " l else "[" <> (join ", " l <> "]"))
unfolding join_states
join_states-join [] = refl
join_states-join (s ∷ []) = refl
join_states-join (s ∷ t ∷ l) =
    ap (λ (x : String). x <> "]") (comma_sep-join "[" (s ∷ t ∷ l))
    ∙ append_assoc "[" (join ", " (s ∷ t ∷ l)) "]"
    ∙ rw (not_one (length l)) refl
