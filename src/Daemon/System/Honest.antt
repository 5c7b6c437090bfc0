-- ===== src/Daemon/System/Honest.antt =====
-- swayrd as a whole: every focus tick is the number of an event about that very node.
use swayr.Daemon.Events.Laws.{window_effect, workspace_effect}
use swayr.Daemon.Events.{WindowChange, WorkspaceChange}
use swayr.Base.{
  sym, ◌∙◌, ◌++◌, All-append, ℕ, ◌≤◌, ℤ, Option, none, some, ◌≡◌, ◌⊎◌, All, arith, int_eq,
  int_beq_iff, suc, if◌then◌else◌, true, false, Bool, [], ◌∷◌, List,
}
use swayr.Focus.{
  FocusData, FocusEvent, FocusMessage, focus_event, update_last_focus_tick, tick_update_inhibit,
  tick_update_activate, ensure_id, remove_focus_data, send, before_send,
}
use swayr.Focus.Laws.{
  focus_chan-ensure_id, focus_chan-remove, focus_chan-send, tick-send, tick-send_event, tick,
  tick-update, tick-ensure_id, tick-remove,
}
use swayr.Daemon.LockIn.{Loop}
use swayr.Daemon.System.{System}

module _ (node_of : ℕ → ℤ) where
  -- A focus event that carries the number of an event about its node.
  abbrev pub IsTrue : ℕ → FocusEvent → Type 0
  IsTrue c ev = (node_of ev.ev_focus_ctr ≡ ev.node_id) × (ev.ev_focus_ctr ≤ c)

  abbrev pub TrueMessage : ℕ → FocusMessage → Type 0
  TrueMessage c (focus_event ev) = IsTrue c ev
  TrueMessage c _ = Unit

  abbrev pub TrueOption : ℕ → Option FocusEvent → Type 0
  TrueOption c none = Unit
  TrueOption c (some ev) = IsTrue c ev

  abbrev pub TrueLoop : ℕ → Loop → Type 0
  TrueLoop c (Loop.inner ev) = IsTrue c ev
  TrueLoop c _ = Unit

  abbrev pub TrueTick : ℕ → ℤ → ℕ → Type 0
  TrueTick c id t = (t ≡ 0) ⊎ ((node_of t ≡ id) × (t ≤ c))

  abbrev pub TrueTicks : ℕ → FocusData → Type 0
  TrueTicks c f = (id : ℤ) (t : ℕ) → tick f id ≡ some t → TrueTick c id t

  pub record IsHonest (s : System) : Type 0 where
    pub ticks : TrueTicks s.counter s.fdata
    pub chan : All (TrueMessage s.counter) s.fdata.focus_chan
    pub pending : TrueOption s.counter s.handler.pending_fev
    pub delayed : TrueLoop s.counter s.handler.loop

  pub update-TrueTicks :
      (c : ℕ) (f : FocusData) (ev : FocusEvent)
      → IsTrue c ev
      → TrueTicks c f
      → TrueTicks c (update_last_focus_tick f ev.node_id ev.ev_focus_ctr)
  update-TrueTicks c f ev h ts id t e =
      ground
        (arith, tick-update f ev.node_id id ev.ev_focus_ctr, int_beq_iff ev.node_id id, ts id t)

  ensure-TrueTicks : (c : ℕ) (f : FocusData) (k : ℤ) → TrueTicks c f → TrueTicks c (ensure_id f k)
  ensure-TrueTicks c f k ts id t e =
      ground (arith, tick-ensure_id f k id, int_beq_iff k id, ts id t)

  remove-TrueTicks :
      (c : ℕ) (f : FocusData) (k : ℤ) → TrueTicks c f → TrueTicks c (remove_focus_data f k)
  remove-TrueTicks c f k ts id t e = ground (arith, tick-remove f k id, ts id t)

  pub send-TrueTicks :
      (c : ℕ) (f : FocusData) (msg : FocusMessage) → TrueTicks c f → TrueTicks c (send msg f).1
  unfolding before_send
  send-TrueTicks c f tick_update_inhibit ts id t e =
      ts id t (sym (tick-send tick_update_inhibit f id) ∙ e)
  send-TrueTicks c f tick_update_activate ts id t e =
      ts id t (sym (tick-send tick_update_activate f id) ∙ e)
  send-TrueTicks c f (focus_event ev) ts id t e =
      ground (arith, tick-send_event ev f id, int_beq_iff ev.node_id id, ts id t)

  pub send-TrueChan :
      (c : ℕ) (f : FocusData) (msg : FocusMessage)
      → TrueMessage c msg
      → All (TrueMessage c) f.focus_chan
      → All (TrueMessage c) (send msg f).1.focus_chan
  send-TrueChan c f msg h hs = rw focus_chan-send (go f.receiving)
    where
      go : (b : Bool) → All (TrueMessage c) (if b then f.focus_chan ++ msg ∷ [] else f.focus_chan)
      go true = All-append (TrueMessage c) f.focus_chan (msg ∷ []) hs (h, tt)
      go false = hs

  -- What is true stays true when more events have been counted.
  later_tick : (c : ℕ) (f : FocusData) → TrueTicks c f → TrueTicks (suc c) f
  later_tick c f ts id t e = ground (arith, ts id t e)

  later_message : (c : ℕ) (msg : FocusMessage) → TrueMessage c msg → TrueMessage (suc c) msg
  later_message c tick_update_inhibit h = tt
  later_message c tick_update_activate h = tt
  later_message c (focus_event ev) h = (h.0, omega arith)

  later_chan : (c : ℕ) (l : List FocusMessage) → All (TrueMessage c) l → All (TrueMessage (suc c)) l
  later_chan c [] h = tt
  later_chan c (msg ∷ l) h = (later_message c msg h.0, later_chan c l h.1)

  later_option : (c : ℕ) (o : Option FocusEvent) → TrueOption c o → TrueOption (suc c) o
  later_option c none h = tt
  later_option c (some ev) h = (h.0, omega arith)

  later_loop : (c : ℕ) (l : Loop) → TrueLoop c l → TrueLoop (suc c) l
  later_loop c Loop.outer h = tt
  later_loop c (Loop.inner ev) h = (h.0, omega arith)
  later_loop c Loop.returned h = tt

  -- One event more, with the focus data that its handler leaves.
  counted :
      (s : System) (f : FocusData)
      → IsHonest s
      → (TrueTicks (suc s.counter) s.fdata → TrueTicks (suc s.counter) f)
      → (All (TrueMessage (suc s.counter)) s.fdata.focus_chan
          → All (TrueMessage (suc s.counter)) f.focus_chan)
      → IsHonest (record s { fdata = f; counter = suc s.counter })
  counted s f h ht hc = record {
    ticks = ht (later_tick s.counter s.fdata h.ticks);
    chan = hc (later_chan s.counter s.fdata.focus_chan h.chan);
    pending = later_option s.counter s.handler.pending_fev h.pending;
    delayed = later_loop s.counter s.handler.loop h.delayed;
  }

  pub window_effect-IsHonest :
      (s : System) (ch : WindowChange) (id : ℤ)
      → IsHonest s
      → node_of (suc s.counter) ≡ id
      → IsHonest (record s {
        fdata = window_effect ch id (suc s.counter) s.fdata;
        counter = suc s.counter;
      })
  window_effect-IsHonest s WindowChange.focus id h e =
      counted s _ h (send-TrueTicks _ s.fdata _) (send-TrueChan _ s.fdata _ (e, omega arith))
  window_effect-IsHonest s WindowChange.new id h e =
      counted s _ h (ensure-TrueTicks _ s.fdata id) (λ c. rw focus_chan-ensure_id c)
  window_effect-IsHonest s WindowChange.close id h e =
      counted s _ h (remove-TrueTicks _ s.fdata id) (λ c. rw focus_chan-remove c)
  window_effect-IsHonest s _ id h e = counted s s.fdata h (λ t. t) (λ c. c)

  pub workspace_effect-IsHonest :
      (s : System) (ch : WorkspaceChange) (id : ℤ)
      → IsHonest s
      → node_of (suc s.counter) ≡ id
      → IsHonest (record s {
        fdata = workspace_effect ch id (suc s.counter) s.fdata;
        counter = suc s.counter;
      })
  workspace_effect-IsHonest s WorkspaceChange.empty id h e =
      counted s _ h (remove-TrueTicks _ s.fdata id) (λ c. rw focus_chan-remove c)
  workspace_effect-IsHonest s WorkspaceChange.other id h e = counted s s.fdata h (λ t. t) (λ c. c)
  workspace_effect-IsHonest s _ id h e =
      counted s _ h (send-TrueTicks _ s.fdata _) (send-TrueChan _ s.fdata _ (e, omega arith))
