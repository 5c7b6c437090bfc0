-- ===== src/Daemon/Events/Laws.antt =====
-- daemon.rs: what the event handlers do to the focus data.
use mathlib.Core.List.{append-nil}
use swayr.Base.{
  true, Option, none, is_some, unwrap_or, List, [], ◌∷◌, ◌++◌, ap, sym, ◌∙◌, if◌then◌else◌, int_eq,
  ◌==◌, beq→eq, Bool-cases, inl, inr, ℕ, ℤ, ◌≡◌, refl, Bool, some, ret, arith,
}
use swayr.Swayipc.{Node, info}
use swayr.Focus.Laws.{
  tick, tick-send_event, tick-ensure_id, tick-remove, focus_chan-send, focus_chan-ensure_id,
  focus_chan-remove,
}
use swayr.Focus.{FocusMessage, FocusData, focus_event, send, ensure_id, remove_focus_data}
use swayr.Config.Defaults.{Config}
use swayr.Daemon.Events.{
  Shared, WindowChange, WindowEvent, WorkspaceChange, on_change, on_workspace_change,
  handle_window_event, handle_workspace_event,
}

-- The focus data behind a window event.
abbrev pub window_effect : WindowChange → ℤ → ℕ → FocusData → FocusData
window_effect WindowChange.focus id focus_val f =
    (send (focus_event (record { node_id = id; ev_focus_ctr = focus_val })) f).1
window_effect WindowChange.new id focus_val f = ensure_id f id
window_effect WindowChange.close id focus_val f = remove_focus_data f id
window_effect _ id focus_val f = f

on_change-effect :
    (ch : WindowChange) (id : ℤ) (config : Config) (focus_val : ℕ) (s : Shared) {b : Bool}
    → (on_change ch id config focus_val s).0 ≡ ret b
    → (on_change ch id config focus_val s).1.fdata ≡ window_effect ch id focus_val s.fdata
unfolding on_change
on_change-effect WindowChange.focus id config focus_val s h = ground arith
on_change-effect WindowChange.new id config focus_val s h = ground arith
on_change-effect WindowChange.close id config focus_val s h = ground arith
on_change-effect WindowChange.move id config focus_val s h = ground arith
on_change-effect WindowChange.floating id config focus_val s h = ground arith
on_change-effect WindowChange.other id config focus_val s h = refl

-- Tiling does not touch the focus data.
pub handle_window_event-effect :
    (ev : WindowEvent) (config : Config) (focus_val : ℕ) (s : Shared) {b : Bool}
    → (handle_window_event ev config focus_val s).0 ≡ ret b
    → (handle_window_event ev config focus_val s).1.fdata
      ≡ window_effect ev.change (info ev.container).id focus_val s.fdata
unfolding handle_window_event
handle_window_event-effect ev config focus_val s h =
    on_change-effect ev.change (info ev.container).id config focus_val s h

-- The same for a workspace that sway reports as the current one.
abbrev pub workspace_effect : WorkspaceChange → ℤ → ℕ → FocusData → FocusData
workspace_effect WorkspaceChange.empty id focus_val f = remove_focus_data f id
workspace_effect WorkspaceChange.other id focus_val f = f
workspace_effect _ id focus_val f =
    (send (focus_event (record { node_id = id; ev_focus_ctr = focus_val })) f).1

on_workspace_change-effect :
    (ch : WorkspaceChange) (ws : Node) (focus_val : ℕ) (s : Shared)
    → (on_workspace_change ch (some ws) focus_val s).1.fdata
      ≡ workspace_effect ch (info ws).id focus_val s.fdata
unfolding on_workspace_change
on_workspace_change-effect WorkspaceChange.init ws focus_val s = ground arith
on_workspace_change-effect WorkspaceChange.focus ws focus_val s = ground arith
on_workspace_change-effect WorkspaceChange.empty ws focus_val s = ground arith
on_workspace_change-effect WorkspaceChange.other ws focus_val s = refl

pub handle_workspace_event-effect :
    (ch : WorkspaceChange) (ws : Node) (focus_val : ℕ) (s : Shared)
    → (handle_workspace_event (record { change = ch; current = some ws }) focus_val s).1.fdata
      ≡ workspace_effect ch (info ws).id focus_val s.fdata
unfolding handle_workspace_event
handle_workspace_event-effect = on_workspace_change-effect

-- The entry of the id `j` behind a window event about `id`, from the entry before.
abbrev pub tick_behind : WindowChange → ℤ → ℤ → Option ℕ → Option ℕ
tick_behind WindowChange.focus id j old = if id == j then some (unwrap_or old 0) else old
tick_behind WindowChange.new id j old = if id == j then some (unwrap_or old 0) else old
tick_behind WindowChange.close id j old = if id == j then none else old
tick_behind _ id j old = old

-- What a window event reports to the lock-in thread.
abbrev pub reported : WindowChange → ℤ → ℕ → List FocusMessage
reported WindowChange.focus id n = focus_event (record { node_id = id; ev_focus_ctr = n }) ∷ []
reported _ id n = []

entry-kept :
    (f : FocusData) (id j : ℤ)
    → (if id == j then (if is_some (tick f id) then tick f id else some 0) else tick f j)
      ≡ (if id == j then some (unwrap_or (tick f j) 0) else tick f j)
entry-kept f id j = elim (Bool-cases (id == j)) [
  | inr e ↦ rw e refl
  | inl e ↦ rw (e, beq→eq id j e) (known (tick f j))
]
  where
    known : (o : Option ℕ) → (if is_some o then o else some 0) ≡ some (unwrap_or o 0)
    known none = refl
    known (some t) = refl

window_effect-ticks :
    (ch : WindowChange) (id j : ℤ) (n : ℕ) (f : FocusData)
    → tick (window_effect ch id n f) j ≡ tick_behind ch id j (tick f j)
window_effect-ticks WindowChange.focus id j n f =
    tick-send_event (record { node_id = id; ev_focus_ctr = n }) f j ∙ entry-kept f id j
window_effect-ticks WindowChange.new id j n f = tick-ensure_id f id j ∙ entry-kept f id j
window_effect-ticks WindowChange.close id j n f = tick-remove f id j
window_effect-ticks WindowChange.move id j n f = refl
window_effect-ticks WindowChange.floating id j n f = refl
window_effect-ticks WindowChange.other id j n f = refl

window_effect-chan :
    (ch : WindowChange) (id : ℤ) (n : ℕ) (f : FocusData)
    → f.receiving ≡ true
    → (window_effect ch id n f).focus_chan ≡ f.focus_chan ++ reported ch id n
window_effect-chan WindowChange.focus id n f r =
    focus_chan-send (focus_event (record { node_id = id; ev_focus_ctr = n })) f ∙ rw r refl
window_effect-chan WindowChange.new id n f r =
    focus_chan-ensure_id f id ∙ sym (append-nil f.focus_chan)
window_effect-chan WindowChange.close id n f r =
    focus_chan-remove f id ∙ sym (append-nil f.focus_chan)
window_effect-chan WindowChange.move id n f r = sym (append-nil f.focus_chan)
window_effect-chan WindowChange.floating id n f r = sym (append-nil f.focus_chan)
window_effect-chan WindowChange.other id n f r = sym (append-nil f.focus_chan)

-- While the lock-in thread runs, a window event that is handled without a panic changes the entry of its
-- own window at most: a window that gets the focus or is new keeps its tick, and has the tick 0 if it was
-- not known; a closed one is not known any more; moving and floating change nothing. A window that gets
-- the focus is reported as the last message of the channel, with the number of the event; no other event
-- reports anything. Tiling, which comes with most events, touches neither.
pub handle_window_event-ticks :
    (ev : WindowEvent) (config : Config) (n : ℕ) (s : Shared) {b : Bool} (j : ℤ)
    → s.fdata.receiving ≡ true
    → (handle_window_event ev config n s).0 ≡ ret b
    → let f = (handle_window_event ev config n s).1.fdata in
      (tick f j ≡ tick_behind ev.change (info ev.container).id j (tick s.fdata j))
      × (f.focus_chan ≡ s.fdata.focus_chan ++ reported ev.change (info ev.container).id n)
handle_window_event-ticks ev config n s j r h =
    let e = handle_window_event-effect ev config n s h in
    let id : ℤ = (info ev.container).id in
    (
      ap (λ (f : FocusData). tick f j) e ∙ window_effect-ticks ev.change id j n s.fdata,
      ap (λ (f : FocusData). f.focus_chan) e ∙ window_effect-chan ev.change id n s.fdata r,
    )
