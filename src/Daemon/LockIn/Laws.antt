-- ===== src/Daemon/LockIn/Laws.antt =====
-- The focus lock-in of daemon.rs over whole sequences of messages.
use swayr.Base.{
  ap, ◌∙◌, arith, Bool, true, false, Option, some, List, [], ◌∷◌, ◌++◌, ◌≡◌, refl, All, none,
}
use swayr.Focus.{FocusData, FocusEvent, tick_update_inhibit, tick_update_activate, focus_event}
use swayr.Focus.Laws.{focus_chan-update}
use swayr.Daemon.LockIn.{
  InhibitState, Loop, Handler, Received, message, timeout, disconnected, start, update_focus, step,
}

abbrev pub run : Bool → Handler × FocusData → List Received → Handler × FocusData
run seq_inhibit s [] = s
run seq_inhibit s (r ∷ l) = run seq_inhibit (step seq_inhibit s r) l

-- What may stand together: where the thread waits, whether it is inhibited, and what is pending.
abbrev pub Coherent : Loop → InhibitState → Option FocusEvent → Type 0
Coherent (Loop.inner fev) InhibitState.focus_inhibit p = ⊥
Coherent l InhibitState.focus_active (some fev) = ⊥
Coherent l i p = Unit

abbrev pub IsCoherent : Handler → Type 0
IsCoherent h = Coherent h.loop h.inhibit h.pending_fev

step_at :
    (seq_inhibit : Bool) (l : Loop) (i : InhibitState) (p : Option FocusEvent) (f : FocusData)
    (r : Received)
    → Coherent l i p
    → IsCoherent (step seq_inhibit (record { loop = l; inhibit = i; pending_fev = p }, f) r).0
unfolding step
step_at s (Loop.inner fev) InhibitState.focus_inhibit p f r c = elim c [ ]
step_at s (Loop.inner fev) InhibitState.focus_active (some e) f r c = elim c [ ]
step_at s Loop.outer InhibitState.focus_active (some e) f r c = elim c [ ]
step_at s Loop.returned i p f r c = c
step_at true l i p f (message tick_update_inhibit) c = tt
step_at false l i p f (message tick_update_inhibit) c = tt
step_at true l i p f (message tick_update_activate) c = tt
step_at false l i p f (message tick_update_activate) c = tt
step_at s l i p f (message (focus_event ev)) c = tt
step_at s l i p f timeout c = tt
step_at s l i p f disconnected c = tt

-- Whatever the thread receives, nothing is pending while updates are active, and the thread waits
-- for the delay only while they are: an event is never both pending and waiting for the delay.
step-IsCoherent :
    (seq_inhibit : Bool) (h : Handler) (f : FocusData) (r : Received)
    → IsCoherent h
    → IsCoherent (step seq_inhibit (h, f) r).0
step-IsCoherent s h f r c = step_at s h.loop h.inhibit h.pending_fev f r c

run-IsCoherent :
    (seq_inhibit : Bool) (h : Handler) (f : FocusData) (l : List Received)
    → IsCoherent h
    → IsCoherent (run seq_inhibit (h, f) l).0
run-IsCoherent s h f [] c = c
run-IsCoherent s h f (r ∷ l) c =
    run-IsCoherent s (step s (h, f) r).0 (step s (h, f) r).1 l (step-IsCoherent s h f r c)

-- The states of the thread that the theorems below start from.
abbrev pub waiting : Handler
waiting = start

abbrev pub in_delay : FocusEvent → Handler
in_delay fev = record start { loop = Loop.inner fev }

abbrev pub in_sequence : Option FocusEvent → Handler
in_sequence p = record { loop = Loop.outer; pending_fev = p; inhibit = InhibitState.focus_inhibit }

-- The messages of a burst of focus changes.
abbrev pub focus_messages : List FocusEvent → List Received
focus_messages [] = []
focus_messages (ev ∷ l) = message (focus_event ev) ∷ focus_messages l

abbrev pub last_of : FocusEvent → List FocusEvent → FocusEvent
last_of ev [] = ev
last_of ev (next ∷ l) = last_of next l

delay_runs :
    (seq_inhibit : Bool) (ev : FocusEvent) (l : List FocusEvent) (f : FocusData)
    → run seq_inhibit (in_delay ev, f) (focus_messages l ++ timeout ∷ [])
      ≡ (waiting, update_focus (some (last_of ev l)) f)
unfolding step
delay_runs s ev [] f = refl
delay_runs s ev (next ∷ l) f = delay_runs s next l f

-- Focus changes that reach the idle thread one after the other within the delay count as one: only the
-- last of them is locked in, when the delay has expired, and the thread then waits as before.
pub burst_locks_last :
    (seq_inhibit : Bool) (ev : FocusEvent) (l : List FocusEvent) (f : FocusData)
    → run seq_inhibit (waiting, f) (message (focus_event ev) ∷ (focus_messages l ++ timeout ∷ []))
      ≡ (waiting, update_focus (some (last_of ev l)) f)
burst_locks_last s ev l f = unfold step in delay_runs s ev l f

-- What can arrive while a sequence of window cycling commands goes on: all but `disconnected` and
-- the message that activates updates again.
abbrev pub StaysInhibited : Received → Type 0
StaysInhibited (message tick_update_activate) = ⊥
StaysInhibited disconnected = ⊥
StaysInhibited _ = Unit

-- The newest focus event among what arrives.
abbrev pub newest : List Received → Option FocusEvent → Option FocusEvent
newest [] p = p
newest (message (focus_event ev) ∷ l) p = newest l (some ev)
newest (_ ∷ l) p = newest l p

-- In a sequence of window cycling commands, with `seq_inhibit` on, no tick changes, and the newest
-- focus event is kept as the pending one.
sequence_keeps :
    (l : List Received) (p : Option FocusEvent) (f : FocusData)
    → All StaysInhibited l
    → run true (in_sequence p, f) l ≡ (in_sequence (newest l p), f)
unfolding step
sequence_keeps [] p f h = refl
sequence_keeps (message tick_update_inhibit ∷ l) p f h = sequence_keeps l p f h.1
sequence_keeps (message tick_update_activate ∷ l) p f h = absurd h.0
sequence_keeps (message (focus_event ev) ∷ l) p f h = sequence_keeps l (some ev) f h.1
sequence_keeps (timeout ∷ l) p f h = sequence_keeps l p f h.1
sequence_keeps (disconnected ∷ l) p f h = absurd h.0

run-append :
    (s : Bool) (st : Handler × FocusData) (l r : List Received)
    → run s st (l ++ r) ≡ run s (run s st l) r
run-append s st [] r = refl
run-append s st (x ∷ l) r = run-append s (step s st x) l r

-- The states in which updates are active: the thread is idle, or an event waits for the delay.
abbrev pub active : Option FocusEvent → Handler
active none = waiting
active (some ev) = in_delay ev

-- The first message of a sequence inhibits updates, and what waits for the delay becomes pending.
sequence_starts :
    (o : Option FocusEvent) (f : FocusData)
    → step true (active o, f) (message tick_update_inhibit) ≡ (in_sequence o, f)
unfolding step
sequence_starts none f = refl
sequence_starts (some ev) f = refl

sequence_ends :
    (p : Option FocusEvent) (f : FocusData)
    → step true (in_sequence p, f) (message tick_update_activate) ≡ (waiting, update_focus p f)
unfolding step
sequence_ends p f = refl

-- With `seq_inhibit` on, whether the thread was idle or waited for the delay of an event when the sequence
-- began, the command that ends it, the first one to activate updates again, locks in the window that was
-- focused last, and only that one, so that the windows that were only passed on the way keep their places
-- in the order. Where no window was focused since the last lock-in, nothing is. The thread is then idle.
pub sequence_locks_last :
    (o : Option FocusEvent) (l : List Received) (f : FocusData)
    → All StaysInhibited l
    → run true
        (active o, f)
        (message tick_update_inhibit ∷ (l ++ message tick_update_activate ∷ []))
      ≡ (waiting, update_focus (newest l o) f)
sequence_locks_last o l f h =
    let ending = message tick_update_activate in
    ap (λ (s : Handler × FocusData). run true s (l ++ ending ∷ [])) (sequence_starts o f)
    ∙ run-append true (in_sequence o, f) l (ending ∷ [])
    ∙ ap (λ (s : Handler × FocusData). step true s ending) (sequence_keeps l o f h)
    ∙ sequence_ends (newest l o) f

-- A message about sequences.
abbrev pub is_focus : Received → Bool
is_focus (message tick_update_inhibit) = false
is_focus (message tick_update_activate) = false
is_focus _ = true

focus_chan-update_focus :
    (o : Option FocusEvent) (f : FocusData) → (update_focus o f).focus_chan ≡ f.focus_chan
unfolding update_focus
focus_chan-update_focus none f = refl
focus_chan-update_focus (some ev) f = focus_chan-update f ev.node_id ev.ev_focus_ctr

focus_chan-step_at :
    (b : Bool) (k : Loop) (i : InhibitState) (p : Option FocusEvent) (f : FocusData) (r : Received)
    → (step b (record { loop = k; inhibit = i; pending_fev = p }, f) r).1.focus_chan ≡ f.focus_chan
unfolding step
focus_chan-step_at b Loop.outer i p f r = ground (arith, focus_chan-update_focus p f)
focus_chan-step_at b (Loop.inner fev) i p f r = ground (arith, focus_chan-update_focus (some fev) f)
focus_chan-step_at b Loop.returned i p f r = refl

-- A step of the thread leaves the channel to the threads that send.
pub focus_chan-step :
    (b : Bool) (h : Handler) (f : FocusData) (r : Received)
    → (step b (h, f) r).1.focus_chan ≡ f.focus_chan
focus_chan-step b h f r = focus_chan-step_at b h.loop h.inhibit h.pending_fev f r
