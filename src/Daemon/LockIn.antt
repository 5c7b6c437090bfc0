-- ===== src/Daemon/LockIn.antt =====
-- swayr/src/daemon.rs: `InhibitState` and `focus_lock_in_handler`, which locks a focus event in once
-- the focus has stayed for the delay. The two nested loops are a state machine: a state says in which
-- loop the thread waits, and a step is what one return of `recv` or `recv_timeout` leads to.
pub mod Laws
use swayr.Base.{Bool, true, false, not, Option, none, some, if◌then◌else◌}
use swayr.Focus.{
  FocusData, FocusEvent, FocusMessage, tick_update_inhibit, tick_update_activate, focus_event,
  update_last_focus_tick,
}

pub data InhibitState : Type 0 where
  focus_inhibit focus_active : InhibitState

unfoldable pub set : InhibitState → InhibitState
set InhibitState.focus_active = InhibitState.focus_inhibit
set InhibitState.focus_inhibit = InhibitState.focus_inhibit

unfoldable pub clear : InhibitState → InhibitState
clear InhibitState.focus_inhibit = InhibitState.focus_active
clear InhibitState.focus_active = InhibitState.focus_active

-- Where the thread waits: in the outer loop, in the inner loop with the event `fev` that waits for
-- the delay to expire, or nowhere any more.
pub data Loop : Type 0 where
  outer : Loop
  inner : FocusEvent → Loop
  returned : Loop

pub record Handler : Type 0 where
  pub loop : Loop
  pub pending_fev : Option FocusEvent
  pub inhibit : InhibitState

abbrev pub start : Handler
start = record { loop = Loop.outer; pending_fev = none; inhibit = InhibitState.focus_active }

-- What the wait on the channel ends with.
pub data Received : Type 0 where
  message : FocusMessage → Received
  timeout disconnected : Received

unfoldable pub update_focus : Option FocusEvent → FocusData → FocusData
unfolding update_last_focus_tick
update_focus none f = f
update_focus (some fev) f = update_last_focus_tick f fev.node_id fev.ev_focus_ctr

-- A focus event in the outer loop.
begin_wait : InhibitState → FocusEvent → Handler → Handler
begin_wait InhibitState.focus_inhibit fev h = record h { pending_fev = some fev }
begin_wait InhibitState.focus_active fev h = record h { loop = Loop.inner fev }

outer_message : Bool → FocusMessage → Handler × FocusData → Handler × FocusData
unfolding set clear update_focus begin_wait
outer_message seq_inhibit tick_update_inhibit (h, f) =
    if not seq_inhibit then (h, f) else (record h { inhibit = set h.inhibit }, f)
outer_message seq_inhibit tick_update_activate (h, f) =
    if not seq_inhibit
    then (h, f)
    else (record h { inhibit = clear h.inhibit; pending_fev = none }, update_focus h.pending_fev f)
outer_message seq_inhibit (focus_event fev) (h, f) = (begin_wait h.inhibit fev h, f)

inner_message : Bool → FocusEvent → FocusMessage → Handler × FocusData → Handler × FocusData
unfolding set clear update_focus
inner_message seq_inhibit fev tick_update_inhibit (h, f) =
    if not seq_inhibit
    then (h, f)
    else (record h { loop = Loop.outer; inhibit = set h.inhibit; pending_fev = some fev }, f)
inner_message seq_inhibit fev tick_update_activate (h, f) =
    if not seq_inhibit
    then (h, f)
    else (record h { loop = Loop.outer; inhibit = clear h.inhibit }, update_focus (some fev) f)
inner_message seq_inhibit fev (focus_event new_fev) (h, f) =
    (record h { loop = Loop.inner new_fev }, f)

-- `recv` of the outer loop does not time out.
outer_step : Bool → Received → Handler × FocusData → Handler × FocusData
unfolding outer_message
outer_step seq_inhibit (message msg) s = outer_message seq_inhibit msg s
outer_step seq_inhibit timeout s = s
outer_step seq_inhibit disconnected (h, f) = (record h { loop = Loop.returned }, f)

inner_step : Bool → FocusEvent → Received → Handler × FocusData → Handler × FocusData
unfolding inner_message update_focus
inner_step seq_inhibit fev (message msg) s = inner_message seq_inhibit fev msg s
inner_step seq_inhibit fev timeout (h, f) =
    (record h { loop = Loop.outer }, update_focus (some fev) f)
inner_step seq_inhibit fev disconnected (h, f) = (record h { loop = Loop.returned }, f)

dispatch : Bool → Loop → Received → Handler × FocusData → Handler × FocusData
unfolding outer_step inner_step
dispatch seq_inhibit Loop.outer r s = outer_step seq_inhibit r s
dispatch seq_inhibit (Loop.inner fev) r s = inner_step seq_inhibit fev r s
dispatch seq_inhibit Loop.returned r s = s

unfoldable pub step : Bool → Handler × FocusData → Received → Handler × FocusData
unfolding dispatch
step seq_inhibit s r = dispatch seq_inhibit s.0.loop r s
