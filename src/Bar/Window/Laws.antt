-- ===== src/Bar/Window/Laws.antt =====
-- swayrbar/src/module/window.rs: what the module shows behind an event.
use swayr.Base.{
  ◌≡◌, refl, sym, ap, ◌∙◌, ◌⊎◌, inl, inr, Bool-cases, Bool, true, false, ◌||◌, Option, none, some,
  List, [], ◌∷◌, ◌++◌, Outcome, ret, All, find_m, expect, unwrap_or, string_eq, int_eq, ◌==◌,
  beq_refl, if◌then◌else◌,
}
use mathlib.Core.List.{append-nil}
use swayr.Base.Exec.{Exec, pure, lift, bind_ret, ◌>>=◌}
use swayr.Swayipc.{Node, info}
use swayr.Ipc.{Kind, kind_eq, get_type, get_root_node, get_name, get_app_name, iter}
use swayr.Bar.Config.{ModuleConfig, is_html_escape}
use swayr.Bar.Outside.{Crates, World, tick}
use swayr.Bar.Module.{sway_event, should_refresh, Block, block}
use swayr.Bar.Window.{
  name, initial_pid, unknown_pid, no_window_pid, State, is_focused_window, subst_placeholders,
  show_window, refresh_state, build,
}

-- The node is no window with the focus: it has not the focus, or is of another kind.
abbrev pub IsPassed : Node → Type 0
IsPassed n =
    ((info n).focused ≡ false) ⊎ ((k : Kind) × (get_type n ≡ ret k) × ((k == Kind.window) ≡ false))

passed-false : (n : Node) → IsPassed n → is_focused_window n ≡ ret false
passed-false n (inl e) = rw e refl
passed-false n (inr (k, e, ne)) = elim (Bool-cases (info n).focused) [
  | inl f ↦ rw (f, e, ne) refl
  | inr f ↦ rw f refl
]

abbrev Unfocused : List Node → Type 0
Unfocused l = All IsPassed l

find_m-skips :
    (before rest : List Node)
    → Unfocused before
    → find_m is_focused_window (before ++ rest) ≡ find_m is_focused_window rest
find_m-skips [] rest h = refl
find_m-skips (n ∷ before) rest h = rw (passed-false n h.0) (find_m-skips before rest h.1)

find_m-focused :
    (before after : List Node) (win : Node)
    → Unfocused before
    → (info win).focused ≡ true
    → get_type win ≡ ret Kind.window
    → find_m is_focused_window (before ++ win ∷ after) ≡ ret (some win)
find_m-focused before after win h f t = find_m-skips before (win ∷ after) h ∙ rw (f, t) refl

-- The first window of a list that has the focus, or that there is none: nodes of other kinds may have it.
abbrev pub IsFocus : List Node → Option Node → Type 0
IsFocus l none = Unfocused l
IsFocus l (some win) =
    (before : List Node) × (after : List Node) × (l ≡ before ++ win ∷ after)
    × Unfocused before
    × ((info win).focused ≡ true)
    × (get_type win ≡ ret Kind.window)

IsFocus-found : (l : List Node) (o : Option Node) → IsFocus l o → find_m is_focused_window l ≡ ret o
IsFocus-found l none h = ap (find_m is_focused_window) (sym (append-nil l)) ∙ find_m-skips l [] h
IsFocus-found l (some win) (before, after, e, h, f, t) =
    ap (find_m is_focused_window) e ∙ find_m-focused before after win h f t

or_true : (b : Bool) → (b || true) ≡ true
or_true true = refl
or_true false = refl

module _ (c : Crates) (cfg : ModuleConfig) where
  -- The title, application and process of the window in focus, in the format; or nothing.
  abbrev pub describes : Option Node → State → State
  describes none state = record { name = ""; app_name = ""; pid = no_window_pid; cached_text = "" }
  describes (some win) state =
      let new = record state {
        name = get_name win;
        app_name = get_app_name win;
        pid = unwrap_or (info win).pid unknown_pid;
      } in
      record new { cached_text = subst_placeholders c cfg.format (is_html_escape cfg) new }

  show_window-describes :
      (o : Option Node) (state : State)
      → show_window c o state cfg.format (is_html_escape cfg) ≡ describes o state
  unfolding show_window
  show_window-describes none state = refl
  show_window-describes (some win) state = refl

  refresh_state-describes :
      (state : State) (w : World c) (t : Node) (o : Option Node)
      → (w.outside w.now).tree ≡ some t
      → IsFocus (iter (get_root_node t false)) o
      → refresh_state state cfg.format (is_html_escape cfg) w ≡ (ret (describes o state), tick w)
  unfolding refresh_state
  refresh_state-describes state w t o e h =
      ap
        (λ (a : Option Node).
          (lift (expect a "Couldn't get tree") >>= λ reported.
          lift (find_m is_focused_window (iter (get_root_node reported false))) >>= λ win.
          pure (show_window c win state cfg.format (is_html_escape cfg)))
            (tick w))
        e
      ∙ ap
          (λ (r : Outcome (Option Node)).
            (lift r >>= λ win. pure (show_window c win state cfg.format (is_html_escape cfg)))
              (tick w))
          (IsFocus-found (iter (get_root_node t false)) o h)
      ∙ ap (λ (s : State). (ret s, tick w)) (show_window-describes o state)

  abbrev with_block : State → Exec (World c) (State × Block)
  with_block s = pure (s, block name cfg s.cached_text)

  should_refresh-named :
      should_refresh cfg (some (cfg.name, cfg.instance_name, sway_event)) false (sway_event ∷ [])
      ≡ true
  unfolding should_refresh
  should_refresh-named = rw (beq_refl cfg.name, beq_refl cfg.instance_name) refl

  -- When an event of sway names the module, and sway answers, the module shows the window that has the
  -- focus, on the screen as well as in its state; where none has it, also where it is on a workspace or a
  -- container, all is cleared.
  pub build-describes :
      (state : State) (w : World c) (t : Node) (o : Option Node)
      → (w.outside w.now).tree ≡ some t
      → IsFocus (iter (get_root_node t false)) o
      → build cfg state (some (cfg.name, cfg.instance_name, sway_event)) w
        ≡ (ret (describes o state, block name cfg (describes o state).cached_text), tick w)
  unfolding build
  build-describes state w t o e h =
      let refresh = refresh_state state cfg.format (is_html_escape cfg) in
      ap
        (λ (b : Bool).
          ((if state.pid == initial_pid || b then refresh else pure state) >>= with_block) w)
        should_refresh-named
      ∙ ap (λ (b : Bool). ((if b then refresh else pure state) >>= with_block) w)
          (or_true (state.pid == initial_pid))
      ∙ bind_ret refresh with_block {s = w} (refresh_state-describes state w t o e h)
