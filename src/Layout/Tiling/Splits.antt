-- ===== src/Layout/Tiling/Splits.antt =====
-- Which splits `auto_tile` of layout.rs runs, as a description of the windows that get one.
use swayr.Base.{
  ap, ◌∙◌, Bool-cases, inl, inr, suc, ℤ, ◌≡◌, refl, Bool, true, false, ◌&&◌, ◌||◌, not, Option,
  none, some, String, List, [], ◌∷◌, ◌++◌, ret, All, filter, if◌then◌else◌, int_eq, arith,
}
use swayr.Base.Dict.{get}
use swayr.Swayipc.{NodeLayout, Node, info, nodes}
use swayr.Ipc.{Kind, iter, is_scratchpad}
use swayr.Ipc.Kinds.{IsTypedTree, is_kind}
use swayr.Ipc.Preorder.{preorder, iter-preorder}
use swayr.Wire.{Wire}
use swayr.Layout.Tiling.{choose_split, con_command, int_leb, double, auto_tile}
use swayr.Layout.Tiling.Plan.{
  IsOutput, plan_window, plan_windows, plan_containers, plan_output, plan, auto_tile-plan,
}

abbrev pub concat_map : {A B : Type 0} → (A → List B) → List A → List B
concat_map f [] = []
concat_map f (a ∷ l) = f a ++ concat_map f l

-- In a row of windows, one whose half is not wider than the minimum is split into a column; in a column,
-- one whose half is wider is split into a row.
abbrev pub wanted_split : NodeLayout → ℤ → ℤ → Option String
wanted_split NodeLayout.split_h width min_width =
    if int_leb width (double min_width) then some "splitv" else none
wanted_split NodeLayout.split_v width min_width =
    if int_leb width (double min_width) then none else some "splith"
wanted_split _ width min_width = none

abbrev commands_for : Option String → Node → List String
commands_for none win = []
commands_for (some split) win = con_command (info win).id split ∷ []

-- The commands for the windows right below a container.
abbrev pub container_splits : ℤ → Node → List String
container_splits min_width c =
    concat_map (λ win. commands_for (wanted_split (info c).layout (info win).width min_width) win)
      (filter (is_kind Kind.window) (nodes c))

abbrev pub is_tiled_container : Node → Bool
is_tiled_container n =
    (is_kind Kind.workspace n || is_kind Kind.container n) && not (is_scratchpad n)

-- The commands for the workspaces and containers of an output, if a minimum is given for its width.
abbrev pub output_splits : List (ℤ × ℤ) → Node → List String
output_splits widths o = elim (get (info o).width widths) [
  | none ↦ []
  | some min_width ↦
      concat_map (container_splits min_width) (filter is_tiled_container (preorder o))
]

choose_split-wanted :
    (shape : NodeLayout) (width min_width : ℤ)
    → choose_split shape width min_width ≡ wanted_split shape width min_width
unfolding choose_split
choose_split-wanted NodeLayout.split_h width min_width = ground arith
choose_split-wanted NodeLayout.split_v width min_width = ground arith
choose_split-wanted NodeLayout.stacked width min_width = refl
choose_split-wanted NodeLayout.tabbed width min_width = refl
choose_split-wanted NodeLayout.no_layout width min_width = refl
choose_split-wanted (NodeLayout.other n) width min_width = refl

plan_window-wanted :
    (shape : NodeLayout) (min_width : ℤ) (win : Node)
    → plan_window shape min_width win
      ≡ commands_for (wanted_split shape (info win).width min_width) win
plan_window-wanted shape min_width win =
    go (choose_split shape (info win).width min_width)
    ∙ ap (λ (o : Option String). commands_for o win)
        (choose_split-wanted shape (info win).width min_width)
  where
    go :
        (o : Option String)
        → elim o [ some split ↦ con_command (info win).id split ∷ [] | none ↦ [] ]
          ≡ commands_for o win
    go none = refl
    go (some split) = refl

plan_windows-splits :
    (shape : NodeLayout) (min_width : ℤ) (l : List Node)
    → plan_windows shape min_width l
      ≡ concat_map
          (λ win. commands_for (wanted_split shape (info win).width min_width) win)
          (filter (is_kind Kind.window) l)
plan_windows-splits _ min_width [] = refl
plan_windows-splits shape min_width (n ∷ l) = elim (Bool-cases (is_kind Kind.window n)) [
  | inr e ↦ rw e (plan_windows-splits shape min_width l)
  | inl e ↦ rw e (
      ap (λ (x : List String). x ++ plan_windows shape min_width l)
        (plan_window-wanted shape min_width n)
      ∙ ap (λ (x : List String). commands_for (wanted_split shape (info n).width min_width) n ++ x)
          (plan_windows-splits shape min_width l))
]

plan_containers-splits :
    (min_width : ℤ) (l : List Node)
    → plan_containers min_width l
      ≡ concat_map (container_splits min_width) (filter is_tiled_container l)
plan_containers-splits min_width [] = refl
plan_containers-splits min_width (n ∷ l) =
    go (plan_containers-splits min_width l) (is_kind Kind.workspace n || is_kind Kind.container n)
      (is_scratchpad n)
  where
    go :
        (plan_containers min_width l
          ≡ concat_map (container_splits min_width) (filter is_tiled_container l))
        → (b s : Bool)
        → (if b then if s then [] else plan_windows (info n).layout min_width (nodes n) else [])
            ++ plan_containers min_width l
          ≡ concat_map
              (container_splits min_width)
              (if b && not s then n ∷ filter is_tiled_container l else filter is_tiled_container l)
    go ih true true = ih
    go ih true false =
        ap (λ (x : List String). x ++ plan_containers min_width l)
          (plan_windows-splits (info n).layout min_width (nodes n))
        ∙ ap (λ (x : List String). container_splits min_width n ++ x) ih
    go ih false s = ih

plan_output-splits :
    (widths : List (ℤ × ℤ)) (o : Node) → plan_output widths o ≡ output_splits widths o
plan_output-splits widths o = go (get (info o).width widths)
  where
    go :
        (m : Option ℤ)
        → elim m [ some min_width ↦ plan_containers min_width (iter o) | none ↦ [] ] ≡ elim m [
          | none ↦ []
          | some min_width ↦
              concat_map (container_splits min_width) (filter is_tiled_container (preorder o))
        ]
    go none = refl
    go (some min_width) =
        ap (plan_containers min_width) (iter-preorder o)
        ∙ plan_containers-splits min_width (preorder o)

plan-splits :
    (widths : List (ℤ × ℤ)) (l : List Node) → plan widths l ≡ concat_map (output_splits widths) l
plan-splits widths [] = refl
plan-splits widths (o ∷ l) =
    ap (λ (x : List String). x ++ plan widths l) (plan_output-splits widths o)
    ∙ ap (λ (x : List String). output_splits widths o ++ x) (plan-splits widths l)

-- When sway can be reached and answers with a tree below whose root stand outputs only, with nodes of
-- known types, `auto_tile` returns, whatever sway answers to its commands, and has run just these: on each
-- output whose width has a minimum, for each workspace or container that is not the scratchpad, in the
-- depth-first order, and each window right below it, `splitv` if the windows stand side by side and half
-- the width of this one is at most the minimum, `splith` if they stand one above the other and half its
-- width is more than the minimum, and nothing in any other layout.
pub auto_tile-splits :
    (widths : List (ℤ × ℤ)) (w : Wire) (t : Node)
    → (w.sway w.now).connects ≡ true
    → (w.sway (suc w.now)).tree ≡ some t
    → All IsOutput (nodes t)
    → All IsTypedTree (nodes t)
    → (w' : Wire) × (auto_tile widths w ≡ (ret tt, w'))
      × (w'.sent ≡ w.sent ++ concat_map (output_splits widths) (nodes t))
auto_tile-splits widths w t connected answered outs typed =
    let (w', runs, sent) = auto_tile-plan widths w t connected answered outs typed in
    (w', runs, sent ∙ ap (λ (l : List String). w.sent ++ l) (plan-splits widths (nodes t)))
