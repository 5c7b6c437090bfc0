-- ===== src/Layout/Tiling/Plan.antt =====
-- What `auto_tile` of layout.rs does on a tree whose nodes all have a known type, as a plan that is
-- computed from the tree alone.
use swayr.Base.{
  suc, ◌⊎◌, ℤ, ◌≡◌, refl, true, false, ◌||◌, Option, none, some, String, List, [], ◌∷◌, ◌++◌,
  Outcome, ret, panic, All, if◌then◌else◌, ◌==◌, int_eq, arith,
}
use swayr.Base.Exec.{Exec, pure, lift, for_each, ◌>>=◌}
use swayr.Base.Dict.{get}
use swayr.Swayipc.{NodeLayout, Node, info, nodes}
use swayr.Ipc.{Kind, kind_eq, get_type, has_type, iter, is_scratchpad}
use swayr.Ipc.Kinds.{
  IsTypedTree, is_kind, iter-IsTypedTree, nodes-IsTypedTree, has_type-is_kind, IsTypedTree-IsTyped,
}
use swayr.Wire.{Wire, connect, request_tree, run_command}
use swayr.Wire.Sends.{Sends, Sends-pure, Sends-then, Sends-if}
use swayr.Layout.Tiling.{
  choose_split, con_command, run_logged, split_window, is_workspace_or_container, for_windows,
  tile_container, for_containers, is_output_type, tile_output, auto_tile,
}

abbrev pub plan_window : NodeLayout → ℤ → Node → List String
plan_window layout min_width win = elim (choose_split layout (info win).width min_width) [
  | some split ↦ con_command (info win).id split ∷ []
  | none ↦ []
]

abbrev pub plan_windows : NodeLayout → ℤ → List Node → List String
plan_windows _ min_width [] = []
plan_windows layout min_width (n ∷ l) =
    (if is_kind Kind.window n then plan_window layout min_width n else [])
    ++ plan_windows layout min_width l

abbrev pub plan_container : ℤ → Node → List String
plan_container min_width c =
    if is_scratchpad c then [] else plan_windows (info c).layout min_width (nodes c)

abbrev pub plan_containers : ℤ → List Node → List String
plan_containers min_width [] = []
plan_containers min_width (n ∷ l) =
    (if is_kind Kind.workspace n || is_kind Kind.container n
      then plan_container min_width n
      else [])
    ++ plan_containers min_width l

abbrev pub plan_output : List (ℤ × ℤ) → Node → List String
plan_output widths o = elim (get (info o).width widths) [
  | some min_width ↦ plan_containers min_width (iter o)
  | none ↦ []
]

-- The commands for all outputs, from the first to the last.
abbrev pub plan : List (ℤ × ℤ) → List Node → List String
plan widths [] = []
plan widths (o ∷ l) = plan_output widths o ++ plan widths l

run_logged-Sends : (cmd : String) → Sends (run_logged cmd) (cmd ∷ [])
unfolding run_logged
run_logged-Sends cmd = record {
  after = λ w. (run_command cmd w).1;
  runs = λ w. unfold run_command in refl;
  sends = λ w. unfold run_command in refl;
}

split_window-Sends :
    (layout : NodeLayout) (min_width : ℤ) (win : Node)
    → Sends (split_window layout min_width win) (plan_window layout min_width win)
unfolding split_window
split_window-Sends layout min_width win = go (choose_split layout (info win).width min_width)
  where
    go :
        (o : Option String)
        → Sends
            (elim o [ some split ↦ run_logged (con_command (info win).id split) | none ↦ pure tt ])
            (elim o [ some split ↦ con_command (info win).id split ∷ [] | none ↦ [] ])
    go none = Sends-pure
    go (some split) = run_logged-Sends (con_command (info win).id split)

-- A read that returns leaves the code behind it.
lift-Sends :
    {A : Type 0} (r : Outcome A) (f : A → Exec Wire (Unit {0})) {a : A} {cmds : List String}
    → r ≡ ret a
    → Sends (f a) cmds
    → Sends (lift r >>= f) cmds
lift-Sends r f {a} {cmds} e h = rw e h

for_windows-Sends :
    (layout : NodeLayout) (min_width : ℤ) (l : List Node)
    → All IsTypedTree l
    → Sends (for_windows layout min_width l) (plan_windows layout min_width l)
unfolding for_windows
for_windows-Sends _ min_width [] h = Sends-pure
for_windows-Sends layout min_width (n ∷ l) h =
    lift-Sends (has_type Kind.window n) _ (has_type-is_kind Kind.window n h.0) (
      Sends-then
        (Sends-if (is_kind Kind.window n) (split_window-Sends layout min_width n) Sends-pure)
        (for_windows-Sends layout min_width l h.1))

tile_container-Sends :
    (min_width : ℤ) (c : Node)
    → IsTypedTree c
    → Sends (tile_container min_width c) (plan_container min_width c)
unfolding tile_container
tile_container-Sends min_width c h =
    Sends-if (is_scratchpad c) Sends-pure
      (for_windows-Sends (info c).layout min_width (nodes c) (nodes-IsTypedTree c h))

wanted-eq :
    (n : Node)
    → IsTypedTree n
    → is_workspace_or_container n ≡ ret (is_kind Kind.workspace n || is_kind Kind.container n)
wanted-eq n h = go (get_type n) (IsTypedTree-IsTyped n h).1
  where
    go :
        (r : Outcome Kind)
        → r ≡ ret (IsTypedTree-IsTyped n h).0
        → elim r [ ret k ↦ ret (k == Kind.workspace || k == Kind.container) | panic e ↦ panic e ]
          ≡ ret (
              elim r [ ret k ↦ k == Kind.workspace | panic _ ↦ false ]
              || elim r [ ret k ↦ k == Kind.container | panic _ ↦ false ])
    go (ret k) e = refl
    go (panic msg) e = cc

for_containers-Sends :
    (min_width : ℤ) (l : List Node)
    → All IsTypedTree l
    → Sends (for_containers min_width l) (plan_containers min_width l)
unfolding for_containers
for_containers-Sends min_width [] h = Sends-pure
for_containers-Sends min_width (n ∷ l) h =
    lift-Sends (is_workspace_or_container n) _ (wanted-eq n h.0) (
      Sends-then
        (Sends-if (is_kind Kind.workspace n || is_kind Kind.container n)
          (tile_container-Sends min_width n h.0) Sends-pure)
        (for_containers-Sends min_width l h.1))

abbrev pub IsOutput : Node → Type 0
IsOutput o = is_output_type (info o).node_type ≡ true

tile_output-Sends :
    (widths : List (ℤ × ℤ)) (o : Node)
    → IsOutput o
    → IsTypedTree o
    → Sends (tile_output widths o) (plan_output widths o)
unfolding tile_output
tile_output-Sends widths o out h = rw out (go (get (info o).width widths))
  where
    go :
        (r : Option ℤ)
        → Sends
            (elim r [ some min_width ↦ for_containers min_width (iter o) | none ↦ pure tt ])
            (elim r [ some min_width ↦ plan_containers min_width (iter o) | none ↦ [] ])
    go none = Sends-pure
    go (some min_width) = for_containers-Sends min_width (iter o) (iter-IsTypedTree o h)

for_outputs-Sends :
    (widths : List (ℤ × ℤ)) (l : List Node)
    → All IsOutput l
    → All IsTypedTree l
    → Sends (for_each l (tile_output widths)) (plan widths l)
for_outputs-Sends widths [] outs h = Sends-pure
for_outputs-Sends widths (o ∷ l) outs h =
    Sends-then (tile_output-Sends widths o outs.0 h.0) (for_outputs-Sends widths l outs.1 h.1)

pub auto_tile-plan :
    (widths : List (ℤ × ℤ)) (w : Wire) (t : Node)
    → (w.sway w.now).connects ≡ true
    → (w.sway (suc w.now)).tree ≡ some t
    → All IsOutput (nodes t)
    → All IsTypedTree (nodes t)
    → (w' : Wire) × (auto_tile widths w ≡ (ret tt, w'))
      × (w'.sent ≡ w.sent ++ plan widths (nodes t))
unfolding auto_tile connect request_tree
auto_tile-plan widths w t connected answered outs typed =
    let s = for_outputs-Sends widths (nodes t) outs typed in
    let w1 : Wire = record w { now = suc (suc w.now) } in
    (s.after w1, rw (connected, answered) (s.runs w1), s.sends w1)

-- Without a connection or a tree nothing is run.
auto_tile_unreachable :
    (widths : List (ℤ × ℤ)) (w : Wire)
    → ((w.sway w.now).connects ≡ false) ⊎ ((w.sway (suc w.now)).tree ≡ none)
    → ((auto_tile widths w).0 ≡ ret tt) × ((auto_tile widths w).1.sent ≡ w.sent)
unfolding auto_tile connect request_tree
auto_tile_unreachable widths w h = ground arith
