-- ===== src/Focus/Laws.antt =====
-- What the operations of focus.rs do to the tick of every id.
use swayr.Base.{
  ◌∙◌, ℕ, ℤ, ◌≡◌, Option, none, some, arith, ◌==◌, if◌then◌else◌, int_beq_iff, int_eq, is_some,
  ◌++◌, refl, [], ◌∷◌,
}
use swayr.Base.Dict.{get, get-insert, get-remove}
use swayr.Focus.{
  FocusMessage, before_send, focus_event, FocusEvent, send, FocusData, update_last_focus_tick,
  remove_focus_data, ensure_id, tick_update_inhibit, tick_update_activate,
}

-- The entry of an id, `none` when the node is not known.
abbrev pub tick : FocusData → ℤ → Option ℕ
tick f id = get id f.focus_tick_by_id

-- Locking a focus event in sets the tick of its node if that node is known, and changes nothing
-- else: a node that has been closed is not entered again.
pub tick-update :
    (f : FocusData) (id j : ℤ) (n : ℕ)
    → tick (update_last_focus_tick f id n) j
      ≡ (if id == j then (if is_some (tick f id) then some n else none) else tick f j)
unfolding update_last_focus_tick
tick-update f id j n = ground (arith, get-insert id j n f.focus_tick_by_id, int_beq_iff id j)

pub tick-remove :
    (f : FocusData) (id j : ℤ)
    → tick (remove_focus_data f id) j ≡ (if id == j then none else tick f j)
unfolding remove_focus_data
tick-remove f id j = get-remove id j f.focus_tick_by_id

-- `ensure_id` enters an unknown node with the tick 0, and keeps every tick that is there.
pub tick-ensure_id :
    (f : FocusData) (id j : ℤ)
    → tick (ensure_id f id) j
      ≡ (if id == j then (if is_some (tick f id) then tick f id else some 0) else tick f j)
unfolding ensure_id
tick-ensure_id f id j = ground (arith, get-insert id j 0 f.focus_tick_by_id, int_beq_iff id j)

-- A node that was closed stays unknown whatever focus event is locked in afterwards.
update-remove :
    (f : FocusData) (id j : ℤ) (n : ℕ)
    → tick (update_last_focus_tick (remove_focus_data f id) j n) id ≡ none
update-remove f id j n = ground (
  arith,
  tick-update (remove_focus_data f id) j id n,
  tick-remove f id id,
  tick-remove f id j,
  int_beq_iff id id,
  int_beq_iff j id,
)

-- What a message does to the ticks before it is sent.
pub tick-send :
    (msg : FocusMessage) (f : FocusData) (j : ℤ)
    → tick (send msg f).1 j ≡ tick (before_send f msg) j
unfolding send
tick-send msg f j = ground arith

-- The message is the last one of the channel, if somebody receives.
pub focus_chan-send :
    (msg : FocusMessage) (f : FocusData)
    → (send msg f).1.focus_chan ≡ (if f.receiving then f.focus_chan ++ msg ∷ [] else f.focus_chan)
unfolding send before_send ensure_id
focus_chan-send tick_update_inhibit f = ground arith
focus_chan-send tick_update_activate f = ground arith
focus_chan-send (focus_event ev) f = ground arith

-- A focus event enters its node, and leaves the tick of a known node.
pub tick-send_event :
    (ev : FocusEvent) (f : FocusData) (j : ℤ)
    → tick (send (focus_event ev) f).1 j ≡ (
        if ev.node_id == j
        then (if is_some (tick f ev.node_id) then tick f ev.node_id else some 0)
        else tick f j)
tick-send_event ev f j =
    tick-send (focus_event ev) f j ∙ unfold before_send in tick-ensure_id f ev.node_id j

pub focus_chan-ensure_id : (f : FocusData) (id : ℤ) → (ensure_id f id).focus_chan ≡ f.focus_chan
unfolding ensure_id
focus_chan-ensure_id f id = ground arith

pub focus_chan-remove :
    (f : FocusData) (id : ℤ) → (remove_focus_data f id).focus_chan ≡ f.focus_chan
unfolding remove_focus_data
focus_chan-remove f id = refl

pub focus_chan-update :
    (f : FocusData) (id : ℤ) (n : ℕ) → (update_last_focus_tick f id n).focus_chan ≡ f.focus_chan
unfolding update_last_focus_tick
focus_chan-update f id n = ground arith
