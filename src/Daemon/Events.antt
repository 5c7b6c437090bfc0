-- ===== src/Daemon/Events.antt =====
-- swayr/src/daemon.rs: `handle_window_event` and `handle_workspace_event`. Of the state that threads
-- share they use the focus data and sway's socket.
pub mod Laws
use swayr.Base.{ℕ, ℤ, Bool, true, false, Option, none, some, ret, expect}
use swayr.Base.Exec.{Exec, pure, lift, ◌>>=◌, ◌>>◌}
use swayr.Swayipc.{Node, info}
use swayr.Wire.{Wire}
use swayr.Focus.{FocusData, FocusMessage, focus_event, send, ensure_id, remove_focus_data}
use swayr.Config.Defaults.{Config}
use swayr.Layout.Tiling.{maybe_auto_tile}

pub record Shared : Type 0 where
  pub fdata : FocusData
  pub wire : Wire

abbrev pub on_focus : {A : Type 0} → Exec FocusData A → Exec Shared A
on_focus m s = let (r, f) = m s.fdata in (r, record s { fdata = f })

abbrev pub on_wire : {A : Type 0} → Exec Wire A → Exec Shared A
on_wire m s = let (r, w) = m s.wire in (r, record s { wire = w })

abbrev change_focus : (FocusData → FocusData) → Exec Shared (Unit {0})
change_focus g s = (ret tt, record s { fdata = g s.fdata })

-- `swayipc::WindowChange`; `other` is every change that the program does not name.
pub data WindowChange : Type 0 where
  focus new close move floating other : WindowChange

pub record WindowEvent : Type 0 where
  pub change : WindowChange
  pub container : Node

-- `swayipc::WorkspaceChange`.
pub data WorkspaceChange : Type 0 where
  init focus empty other : WorkspaceChange

pub record WorkspaceEvent : Type 0 where
  pub change : WorkspaceChange
  pub current : Option Node

on_change : WindowChange → ℤ → Config → ℕ → Exec Shared Bool
unfolding maybe_auto_tile send ensure_id remove_focus_data
on_change WindowChange.focus id config focus_val = do
  on_wire (maybe_auto_tile config)
  on_focus (send (focus_event (record { node_id = id; ev_focus_ctr = focus_val })))
  pure true
on_change WindowChange.new id config focus_val = do
  on_wire (maybe_auto_tile config)
  change_focus (λ f. ensure_id f id)
  pure true
on_change WindowChange.close id config focus_val = do
  change_focus (λ f. remove_focus_data f id)
  on_wire (maybe_auto_tile config)
  pure true
on_change WindowChange.move id config focus_val = do on_wire (maybe_auto_tile config); pure false
on_change WindowChange.floating id config focus_val = do
  on_wire (maybe_auto_tile config)
  pure false
on_change WindowChange.other id config focus_val = pure false

unfoldable pub handle_window_event : WindowEvent → Config → ℕ → Exec Shared Bool
unfolding on_change
handle_window_event ev config focus_val =
    on_change ev.change (info ev.container).id config focus_val

on_workspace_change : WorkspaceChange → Option Node → ℕ → Exec Shared Bool
unfolding send remove_focus_data
on_workspace_change WorkspaceChange.empty current focus_val = do
  ws ← lift (expect current "No current in Empty workspace event")
  change_focus (λ f. remove_focus_data f (info ws).id)
  pure true
on_workspace_change WorkspaceChange.other current focus_val = pure false
on_workspace_change _ current focus_val = do
  ws ← lift (expect current "No current in Init or Focus workspace event")
  on_focus (send (focus_event (record { node_id = (info ws).id; ev_focus_ctr = focus_val })))
  pure true

unfoldable pub handle_workspace_event : WorkspaceEvent → ℕ → Exec Shared Bool
unfolding on_workspace_change
handle_workspace_event ev focus_val = on_workspace_change ev.change ev.current focus_val
