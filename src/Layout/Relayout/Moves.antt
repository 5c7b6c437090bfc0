-- ===== src/Layout/Relayout/Moves.antt =====
-- What `relayout_current_workspace` of layout.rs runs when sway accepts every command.
use swayr.Base.{
  filter-All, find-All, find, none, some, ℕ, suc, ◌≡◌, refl, sym, ◌∙◌, Bool, true, false, not, ◌&&◌,
  ◌||◌, Option, some, String, List, [], ◌∷◌, ◌++◌, ret, map, filter, All, if◌then◌else◌, Bool-cases,
  inl, inr,
}
use mathlib.Core.List.{append-nil, append_assoc}
use swayr.Base.Exec.{bind_ret, Exec, pure}
use swayr.Base.Texts.{◌<>◌}
use swayr.Swayipc.{Node, info}
use swayr.Ipc.{Kind, has_type, is_floating}
use swayr.Ipc.Preorder.{preorder}
use swayr.Ipc.Kinds.{
  iter-IsTypedTree, preorder-IsTypedTree, nodes_of_type-filter, IsTypedTree, is_kind,
  has_type-is_kind,
}
use swayr.Wire.{request_tree, connect, Wire, Fallible, ok, run_command, ◌>>?◌}
use swayr.Layout.Tiling.{con_command}
use swayr.Layout.Relayout.{
  is_current, finish, get_root_node, ask_root, relayout_of, iter, refocus,
  relayout_current_workspace, swayr_tmp_workspace, move_away, or_fail, Moved, note_focus,
  note_moved, move_windows,
}

-- From now on every command is answered.
abbrev pub IsAnswering : Wire → Type 0
IsAnswering w = (n : ℕ) (cmd : String) → (w.sway n).accepts cmd ≡ true

-- In a session that answers every command the code succeeds and has run these commands.
pub record Obeys (m : Exec Wire (Fallible (Unit {0}))) (cmds : List String) : Type 0 where
  pub after : Wire → Wire
  pub runs : (w : Wire) → IsAnswering w → m w ≡ (ret (ok tt), after w)
  pub sends : (w : Wire) → (after w).sent ≡ w.sent ++ cmds
  pub keeps : (w : Wire) → (after w).sway ≡ w.sway

pub Obeys-run : (cmd : String) → Obeys (run_command cmd) (cmd ∷ [])
unfolding run_command
Obeys-run cmd = record {
  after = λ w. record w { now = suc w.now; sent = w.sent ++ cmd ∷ [] };
  runs = λ w h. rw (h w.now cmd);
  sends = λ w. refl;
  keeps = λ w. refl;
}

pub Obeys-ok : Obeys (pure (ok tt)) []
Obeys-ok = record {
  after = λ w. w;
  runs = λ w h. refl;
  sends = λ w. sym (append-nil w.sent);
  keeps = λ w. refl;
}

pub Obeys-then :
    {m n : Exec Wire (Fallible (Unit {0}))} {a b : List String}
    → Obeys m a
    → Obeys n b
    → Obeys (m >>? n) (a ++ b)
Obeys-then {m} {n} {a} {b} hm hn = record {
  after = λ w. hn.after (hm.after w);
  runs = λ w h. rw (hm.runs w h) (hn.runs (hm.after w) (rw (hm.keeps w) h));
  sends = λ w. rw (hn.sends, hm.sends) (append_assoc w.sent a b);
  keeps = λ w. rw (hn.keeps, hm.keeps) refl;
}

-- The windows among the nodes that are moved away.
abbrev pub is_moved : Bool → Node → Bool
is_moved include_floating n = is_kind Kind.window n && (include_floating || not (is_floating n))

abbrev pub move_away_command : Node → String
move_away_command win = con_command (info win).id ("move to workspace " <> swayr_tmp_workspace)

-- The window that has the focus: the last one, if sway reports several.
abbrev pub last_focused : List Node → Option Node → Option Node
last_focused [] o = o
last_focused (n ∷ l) o =
    last_focused l (if is_kind Kind.window n && (info n).focused then some n else o)

-- The state of the loop behind it, and what it has run.
abbrev moved_by : Bool → List Node → Moved → Moved
moved_by include_floating l m = record {
  moved_wins = m.moved_wins ++ filter (is_moved include_floating) l;
  focused_win = last_focused l m.focused_win;
}

-- A run of the loop from the wire `w`: its end, and the commands that it has run.
abbrev LoopRuns : Bool → List Node → Moved → Wire → Type 0
LoopRuns include_floating l m w =
    (w' : Wire) × (move_windows include_floating l m w
      ≡ (ret (ok (moved_by include_floating l m)), w'))
    × (w'.sent ≡ w.sent ++ map move_away_command (filter (is_moved include_floating) l))
    × (w'.sway ≡ w.sway)

after_move : Node → Wire → Wire
after_move n w = record w { now = suc w.now; sent = w.sent ++ move_away_command n ∷ [] }

move_away-runs :
    (n : Node) (w : Wire) → IsAnswering w → move_away n w ≡ (ret (ok tt), after_move n w)
unfolding move_away run_command after_move
move_away-runs n w h = rw (h w.now (move_away_command n))

module _ (n : Node) (l : List Node) (m : Moved) (w : Wire) where
  -- A window that is moved: the loop goes on behind the command.
  moved_runs :
      (inc : Bool)
      → IsAnswering w
      → has_type Kind.window n ≡ ret true
      → is_kind Kind.window n ≡ true
      → (not inc && is_floating n) ≡ false
      → (inc || not (is_floating n)) ≡ true
      → LoopRuns inc l (note_moved n (note_focus n m)) (after_move n w)
      → LoopRuns inc (n ∷ l) m w
  unfolding move_windows after_move
  moved_runs inc h typed win stays moves (w', runs, sends, keeps) = (
    w',
    rw (typed, stays, win, moves)
        (bind_ret (move_away n)
            (λ r. or_fail r (move_windows inc l (note_moved n (note_focus n m))))
            (move_away-runs n w h)
          ∙ (rw (append_assoc m.moved_wins (n ∷ []) (filter (is_moved inc) l)) at runs)),
    rw (win, moves)
        (rw
          (append_assoc w.sent (move_away_command n ∷ [])
            (map move_away_command (filter (is_moved inc) l)))
          at sends),
    keeps,
  )

  -- A floating window that stays: only its focus is noted.
  kept_runs :
      has_type Kind.window n ≡ ret true
      → is_kind Kind.window n ≡ true
      → is_floating n ≡ true
      → LoopRuns false l (note_focus n m) w
      → LoopRuns false (n ∷ l) m w
  unfolding move_windows
  kept_runs typed win floats (w', runs, sends, keeps) =
      (w', rw (typed, floats, win) runs, rw (win, floats) sends, keeps)

  window_runs :
      (inc fl : Bool)
      → is_floating n ≡ fl
      → IsAnswering w
      → has_type Kind.window n ≡ ret true
      → is_kind Kind.window n ≡ true
      → LoopRuns inc l (note_focus n m) w
      → LoopRuns inc l (note_moved n (note_focus n m)) (after_move n w)
      → LoopRuns inc (n ∷ l) m w
  window_runs true fl e h typed win kept moved = moved_runs true h typed win refl refl moved
  window_runs false true e h typed win kept moved = kept_runs typed win e kept
  window_runs false false e h typed win kept moved = moved_runs false h typed win e (rw e) moved

move_windows-runs :
    (include_floating : Bool) (l : List Node) (m : Moved) (w : Wire)
    → IsAnswering w
    → All IsTypedTree l
    → LoopRuns include_floating l m w
unfolding move_windows
move_windows-runs inc [] m w h typed =
    (w, rw (append-nil m.moved_wins), sym (append-nil w.sent), refl)
move_windows-runs inc (n ∷ l) m w h typed =
    let known = has_type-is_kind Kind.window n typed.0 in
    let kept = move_windows-runs inc l (note_focus n m) w h typed.1 in
    let moved =
      move_windows-runs inc l (note_moved n (note_focus n m)) (after_move n w)
        (unfold after_move in h) typed.1 in
    elim (Bool-cases (is_kind Kind.window n)) [
      | inl win ↦ window_runs n l m w inc (is_floating n) refl h (rw (known, win)) win kept moved
      | inr other ↦ rw (known, other) (move_windows-runs inc l m w h typed.1)
    ]

-- The command that gives the focus back.
abbrev pub refocus_commands : Option Node → List String
refocus_commands none = []
refocus_commands (some win) = con_command (info win).id "focus" ∷ []

refocus-Obeys : (o : Option Node) → Obeys (refocus o) (refocus_commands o)
refocus-Obeys none = Obeys-ok
refocus-Obeys (some win) = Obeys-run (con_command (info win).id "focus")

-- All that is run for the workspace, when `place` are the commands that put the windows back.
abbrev pub relayout_commands : Bool → (List Node → List String) → Node → List String
relayout_commands include_floating place ws =
    let wins = filter (is_moved include_floating) (iter ws) in
    map move_away_command wins ++ (place wins ++ refocus_commands (last_focused (iter ws) none))

module _ (inc : Bool) (insert_win_fn : List Node → Exec Wire (Fallible (Unit {0})))
    (place : List Node → List String)
    (obeys : (l : List Node) → Obeys (insert_win_fn l) (place l)) where
  finish-Obeys :
      (m : Moved)
      → Obeys
          (insert_win_fn m.moved_wins >>? (refocus m.focused_win >>? pure (ok tt)))
          (place m.moved_wins ++ (refocus_commands m.focused_win ++ []))
  finish-Obeys m =
      Obeys-then (obeys m.moved_wins) (Obeys-then (refocus-Obeys m.focused_win) Obeys-ok)

  relayout_of-runs :
      (w : Wire) (ws : Node)
      → IsAnswering w
      → (w.sway w.now).connects ≡ true
      → IsTypedTree ws
      → (w' : Wire) × (relayout_of inc insert_win_fn (some ws) w ≡ (ret (ok tt), w'))
        × (w'.sent ≡ w.sent ++ relayout_commands inc place ws)
  unfolding connect
  relayout_of-runs w ws h connected typed =
      let w1 : Wire = record w { now = suc w.now } in
      let start : Moved = record { moved_wins = []; focused_win = none } in
      let (w2, runs, sends, keeps) =
        move_windows-runs inc (iter ws) start w1 h (iter-IsTypedTree ws typed) in
      let m = moved_by inc (iter ws) start in
      let f = finish-Obeys m in
      let moves = map move_away_command (filter (is_moved inc) (iter ws)) in
      (
        f.after w2,
        rw connected (
            bind_ret (move_windows inc (iter ws) start) (finish insert_win_fn) runs
            ∙ f.runs w2 (rw keeps h)),
        f.sends w2 ∙ rw (sends, append-nil) (append_assoc w.sent moves _),
      )

  -- When sway answers, some workspace of the tree holds the focus and all nodes have known types,
  -- `relayout_current_workspace` succeeds: it moves every window of that workspace to the temporary
  -- one, floating windows only if they are included, then runs the commands that place the moved
  -- windows, and at last gives the focus back to the window that had it.
  pub relayout_current_workspace-runs :
      (w : Wire) (t ws : Node)
      → IsAnswering w
      → (w.sway w.now).tree ≡ some t
      → (w.sway (suc w.now)).connects ≡ true
      → IsTypedTree (get_root_node t false)
      → find is_current (filter (is_kind Kind.workspace) (preorder (get_root_node t false)))
        ≡ some ws
      → (w' : Wire) × (relayout_current_workspace inc insert_win_fn w ≡ (ret (ok tt), w'))
        × (w'.sent ≡ w.sent ++ relayout_commands inc place ws)
  unfolding relayout_current_workspace ask_root request_tree
  relayout_current_workspace-runs w t ws h answered connected typed found =
      let root = get_root_node t false in
      let typed_ws =
        find-All IsTypedTree is_current (filter (is_kind Kind.workspace) (preorder root))
          (filter-All IsTypedTree (is_kind Kind.workspace) (preorder root)
            (preorder-IsTypedTree root typed))
          found in
      rw (answered, nodes_of_type-filter root Kind.workspace typed, found)
        (relayout_of-runs (record w { now = suc w.now }) ws h connected typed_ws)
