-- ===== src/Cmds/Tiling/Laws.antt =====
-- What the commands that tile or tab the current workspace (swayr/src/cmds.rs) make sway run.
use swayr.Base.{
  Bool, true, false, List, [], ◌∷◌, ◌++◌, String, Option, none, some, ◌≡◌, refl, if◌then◌else◌,
  find, filter, suc, ret,
}
use swayr.Base.Exec.{Exec}
use swayr.Swayipc.{Node, info}
use swayr.Ipc.{Kind, is_current, is_floating, get_root_node}
use swayr.Ipc.Preorder.{preorder}
use swayr.Ipc.Kinds.{IsTypedTree, is_kind}
use swayr.Wire.{Wire}
use swayr.Layout.Tiling.{con_command}
use swayr.Layout.Relayout.Moves.{
  IsAnswering, Obeys, Obeys-run, Obeys-ok, Obeys-then, relayout_commands,
  relayout_current_workspace-runs,
}
use swayr.Cmds.Command.{ConsiderFloating}
use swayr.Cmds.World.{Env}
use swayr.Cmds.Tiling.{
  rev, includes, move_back, logged, focus_one, place_wins, insert_tiled, tile_current_workspace,
  place_tabbed, insert_tabbed, tab_current_workspace,
}

abbrev back_command : Node → String
back_command win = con_command (info win).id "move to workspace current"

abbrev back_commands : Node → List String
back_commands win =
    (if is_floating win then con_command (info win).id "floating disable" ∷ [] else [])
    ++ back_command win ∷ []

abbrev focus_commands : Option Node → List String
focus_commands none = []
focus_commands (some win) = con_command (info win).id "focus" ∷ []

-- What is run for the windows, in this order, with those placed before.
abbrev place_commands : Bool → Env → List Node → List Node → List String
place_commands shuffle env placed [] = []
place_commands shuffle env placed (win ∷ wins) =
    back_commands win
    ++ (if shuffle then focus_commands (env.choose (placed ++ win ∷ [])) else [])
    ++ place_commands shuffle env (placed ++ win ∷ []) wins

abbrev tab_commands : List Node → List String
tab_commands [] = []
tab_commands (win ∷ wins) = back_commands win ++ tab_commands wins

Obeys-if :
    (b : Bool) {m n : Exec Wire _} {a c : List String}
    → Obeys m a
    → Obeys n c
    → Obeys (if b then m else n) (if b then a else c)
Obeys-if true hm hn = hm
Obeys-if false hm hn = hn

move_back-Obeys : (win : Node) → Obeys (move_back win) (back_commands win)
unfolding move_back
move_back-Obeys win =
    Obeys-then (Obeys-if (is_floating win) (Obeys-run _) Obeys-ok) (Obeys-run (back_command win))

place_tabbed-Obeys : (wins : List Node) → Obeys (place_tabbed wins) (tab_commands wins)
unfolding place_tabbed
place_tabbed-Obeys [] = Obeys-ok
place_tabbed-Obeys (win ∷ wins) = Obeys-then (move_back-Obeys win) (place_tabbed-Obeys wins)

insert_tabbed-Obeys :
    (wins : List Node)
    → Obeys (insert_tabbed wins) ("focus parent" ∷ "layout tabbed" ∷ tab_commands (rev wins))
unfolding insert_tabbed
insert_tabbed-Obeys wins =
    Obeys-then (Obeys-then (Obeys-run "focus parent") (Obeys-run "layout tabbed"))
      (place_tabbed-Obeys (rev wins))

focus_one-Obeys : (env : Env) (o : Option Node) → Obeys (focus_one env o) (focus_commands o)
unfolding focus_one
focus_one-Obeys env none = Obeys-ok
focus_one-Obeys env (some win) = Obeys-run _

place_wins-Obeys :
    (env : Env) (shuffle : Bool) (placed wins : List Node)
    → Obeys (place_wins env shuffle placed wins) (place_commands shuffle env placed wins)
unfolding place_wins
place_wins-Obeys env shuffle placed [] = Obeys-ok
place_wins-Obeys env shuffle placed (win ∷ wins) =
    Obeys-then
      (Obeys-then (move_back-Obeys win)
        (Obeys-if shuffle (focus_one-Obeys env (env.choose (placed ++ win ∷ []))) Obeys-ok))
      (place_wins-Obeys env shuffle (placed ++ win ∷ []) wins)

insert_tiled-Obeys :
    (env : Env) (shuffle : Bool) (wins : List Node)
    → Obeys (insert_tiled env shuffle wins) (
        "focus parent"
        ∷ "layout splith"
        ∷ place_commands shuffle env [] (if shuffle then env.shuffle wins else rev wins))
unfolding insert_tiled
insert_tiled-Obeys env shuffle wins =
    Obeys-then (Obeys-then (Obeys-run "focus parent") (Obeys-run "layout splith"))
      (place_wins-Obeys env shuffle [] _)

abbrev pub tab_plan : List Node → List String
tab_plan wins = "focus parent" ∷ "layout tabbed" ∷ tab_commands (rev wins)

abbrev pub tile_plan : Env → Bool → List Node → List String
tile_plan env shuffle wins =
    "focus parent"
    ∷ "layout splith"
    ∷ place_commands shuffle env [] (if shuffle then env.shuffle wins else rev wins)

module _ (w : Wire) (t ws : Node) (floating : ConsiderFloating) (answers : IsAnswering w)
    (answered : (w.sway w.now).tree ≡ some t) (connected : (w.sway (suc w.now)).connects ≡ true)
    (typed : IsTypedTree (get_root_node t false))
    (found : find is_current (filter (is_kind Kind.workspace) (preorder (get_root_node t false)))
      ≡ some ws) where
  -- When sway answers, the nodes have known types and a workspace holds the focus, tabbing returns and
  -- has run the relayout of that workspace, which puts the moved windows back in reverse order,
  -- each floating one made tiled before, behind `focus parent` and `layout tabbed`.
  pub tab_current_workspace-runs :
      (w' : Wire) × (tab_current_workspace floating w ≡ (ret tt, w'))
      × (w'.sent ≡ w.sent ++ relayout_commands (includes floating) tab_plan ws)
  unfolding tab_current_workspace logged
  tab_current_workspace-runs =
      let (w', e, s) =
        relayout_current_workspace-runs (includes floating) insert_tabbed tab_plan
          insert_tabbed-Obeys w t ws answers answered connected typed found in
      (w', rw e refl, s)

  -- When sway answers, the nodes have known types and a workspace holds the focus, tiling returns and
  -- has run the relayout of that workspace, which puts the moved windows back in reverse order behind
  -- `focus parent` and `layout splith`; with `shuffle`, in the shuffled order, and with the focus on
  -- a chosen one of the placed windows behind each.
  pub tile_current_workspace-runs :
      (env : Env) (shuffle : Bool)
      → (w' : Wire) × (tile_current_workspace env floating shuffle w ≡ (ret tt, w'))
        × (w'.sent ≡ w.sent ++ relayout_commands (includes floating) (tile_plan env shuffle) ws)
  unfolding tile_current_workspace logged
  tile_current_workspace-runs env shuffle =
      let (w', e, s) =
        relayout_current_workspace-runs (includes floating) (insert_tiled env shuffle)
          (tile_plan env shuffle) (insert_tiled-Obeys env shuffle) w t ws answers answered connected
          typed found in
      (w', rw e refl, s)
