-- ===== src/Focus.antt =====
-- swayr/src/focus.rs: the focus ticks of windows and workspaces, which the threads of swayrd share
-- behind a lock, and the channel to the thread that locks focus events in. The channel is the list
-- of the messages in it, oldest first; `receiving` says that its receiver still exists.
pub mod Laws
use swayr.Base.{
  ℕ, ℤ, Bool, true, false, Option, none, some, String, List, [], ◌∷◌, ◌++◌, Outcome, ret, panic,
  unwrap_or, if◌then◌else◌, int_eq,
}
use swayr.Base.Exec.{Exec}
use swayr.Base.Dict.{get, insert, remove}

pub record FocusEvent : Type 0 where
  pub node_id : ℤ
  pub ev_focus_ctr : ℕ

pub data FocusMessage : Type 0 where
  tick_update_inhibit tick_update_activate : FocusMessage
  focus_event : FocusEvent → FocusMessage

pub record FocusData : Type 0 where
  pub focus_tick_by_id : List (ℤ × ℕ)
  pub focus_chan : List FocusMessage
  pub receiving : Bool

unfoldable pub last_focus_tick : FocusData → ℤ → ℕ
unfolding get
last_focus_tick f id = unwrap_or (get id f.focus_tick_by_id) 0

unfoldable pub update_last_focus_tick : FocusData → ℤ → ℕ → FocusData
unfolding get insert
update_last_focus_tick f id focus_val = elim (get id f.focus_tick_by_id) [
  | some tick ↦ record f { focus_tick_by_id = insert id focus_val f.focus_tick_by_id }
  | none ↦ f
]

unfoldable pub remove_focus_data : FocusData → ℤ → FocusData
unfolding remove
remove_focus_data f id = record f { focus_tick_by_id = remove id f.focus_tick_by_id }

unfoldable pub ensure_id : FocusData → ℤ → FocusData
unfolding get insert
ensure_id f id = elim (get id f.focus_tick_by_id) [
  | none ↦ record f { focus_tick_by_id = insert id 0 f.focus_tick_by_id }
  | some tick ↦ f
]

-- What `send` does before it uses the channel.
unfoldable pub before_send : FocusData → FocusMessage → FocusData
unfolding ensure_id
before_send f (focus_event ev) = ensure_id f ev.node_id
before_send f _ = f

unfoldable pub send : FocusMessage → Exec FocusData (Unit {0})
unfolding before_send
send msg f =
    let f' = before_send f msg in
    if f'.receiving
    then (ret tt, record f' { focus_chan = f'.focus_chan ++ msg ∷ [] })
    else (panic "Failed to send focus event over channel", f')
