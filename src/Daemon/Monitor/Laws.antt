-- ===== src/Daemon/Monitor/Laws.antt =====
-- When `monitor_sway_events` of daemon.rs ends.
use native.Mathlib.Nat.{zero-add}
use swayr.Base.{
  true, false, Outcome, panic, ap, sym, ◌∙◌, Bool, ◌++◌, refl, ℕ, ◌+◌, ◌≤◌, ◌≡◌, ret, List, [], ◌∷◌,
  leb, All, length, if◌then◌else◌, arith,
}
use swayr.Config.Defaults.{Config}
use swayr.Base.Exec.{Exec, pure, continue, bind_inv, bind_ret, ◌>>=◌}
use swayr.Daemon.Events.{Shared, handle_window_event, handle_workspace_event}
use swayr.Daemon.Monitor.{
  monitor_sway_events, Attempt, unreachable, stream, Counters, Exit, shut_down, running, gave_up,
  max_resets, reset_loop, run_stream, run_attempt, count_reset, Item, window, workspace, shutdown,
  other, error, bump, keep,
}

-- An attempt that yields no item.
abbrev pub IsBarren : Attempt → Type 0
IsBarren unreachable = Unit
IsBarren (stream []) = Unit
IsBarren (stream (i ∷ l)) = ⊥

abbrev after_barren : Counters → ℕ → Counters
after_barren c n = record c {
  resets = if leb max_resets (c.resets + n) then max_resets else c.resets + n;
}

reset_loop_barren :
    (config : Config) (l : List Attempt) (c : Counters) (s : Shared)
    → All IsBarren l
    → c.resets ≤ max_resets
    → reset_loop config l c s ≡ (
      ret (
        (if leb max_resets (c.resets + length l) then gave_up else running),
        after_barren c (length l),
      ),
      s,
    )
unfolding reset_loop run_stream
reset_loop_barren config [] c s h le = ground arith
reset_loop_barren config (unreachable ∷ l) c s h le =
    ground (arith, reset_loop_barren config l (record c { resets = c.resets + 1 }) s h.1)
reset_loop_barren config (stream [] ∷ l) c s h le =
    ground (arith, reset_loop_barren config l (record c { resets = c.resets + 1 }) s h.1)
reset_loop_barren config (stream (i ∷ items) ∷ l) c s h le = absurd h.0

-- A round of the loop that does not end it.
record Round (config : Config) (a : Attempt) (l : List Attempt) (c c' : Counters) (s s' : Shared)
    : Type 0 where
  counters : Counters
  shared : Shared
  open_count : leb max_resets c.resets ≡ false
  ran : run_attempt config a (count_reset c) s ≡ (ret (counters, false), shared)
  rest : reset_loop config l counters shared ≡ (ret (running, c'), s')

-- What a round does behind its attempt, and by the count.
abbrev behind : Config → List Attempt → Counters × Bool → Exec Shared (Exit × Counters)
behind config l r = elim r.1 [ true ↦ pure (shut_down, r.0) | false ↦ reset_loop config l r.0 ]

abbrev round : Config → Attempt → List Attempt → Counters → Bool → Exec Shared (Exit × Counters)
round config a l c b = elim b [
  | true ↦ pure (gave_up, c)
  | false ↦ run_attempt config a (count_reset c) >>= behind config l
]

reset_loop_inv :
    (config : Config) (a : Attempt) (l : List Attempt) (c c' : Counters) (s s' : Shared)
    → reset_loop config (a ∷ l) c s ≡ (ret (running, c'), s')
    → Round config a l c c' s s'
unfolding reset_loop
reset_loop_inv config a l c c' s s' = at_count (leb max_resets c.resets) refl
  where
    at_attempt :
        leb max_resets c.resets ≡ false
        → (x : Outcome (Counters × Bool) × Shared) → run_attempt config a (count_reset c) s ≡ x
        → continue x.0 (behind config l) x.1 ≡ (ret (running, c'), s')
        → Round config a l c c' s s'
    at_attempt o (ret (k, true), v) q e = absurd (cc)
    at_attempt o (ret (k, false), v) q e = record {
      counters = k;
      shared = v;
      open_count = o;
      ran = q;
      rest = e;
    }
    at_attempt o (panic m, v) q e = absurd (cc)

    at_count :
        (b : Bool)
        → leb max_resets c.resets ≡ b
        → round config a l c b s ≡ (ret (running, c'), s')
        → Round config a l c c' s s'
    at_count true o e = absurd (cc)
    at_count false o e = at_attempt o (run_attempt config a (count_reset c) s) refl e

reset_loop_step :
    (config : Config) (a : Attempt) (l : List Attempt) (c k : Counters) (s v : Shared)
    → leb max_resets c.resets ≡ false
    → run_attempt config a (count_reset c) s ≡ (ret (k, false), v)
    → reset_loop config (a ∷ l) c s ≡ reset_loop config l k v
unfolding reset_loop
reset_loop_step config a l c k s v o q =
    ap (λ (b : Bool). round config a l c b s) o
    ∙ bind_ret (run_attempt config a (count_reset c)) (behind config l) q

-- The loop goes on behind a list of attempts as it goes on there.
reset_loop-append :
    (config : Config) (l r : List Attempt) (c c' : Counters) (s s' : Shared)
    → reset_loop config l c s ≡ (ret (running, c'), s')
    → reset_loop config (l ++ r) c s ≡ reset_loop config r c' s'
unfolding reset_loop
reset_loop-append config [] r c c' s s' e =
    let same : c ≡ c' = cc in let same' : s ≡ s' = cc in rw (same, same') refl
reset_loop-append config (a ∷ l) r c c' s s' e =
    let h = reset_loop_inv config a l c c' s s' e in
    reset_loop_step config a (l ++ r) c h.counters s h.shared h.open_count h.ran
    ∙ (reset_loop-append config l r h.counters c' h.shared s' h.rest)

-- A stream with an item resets the count, and so does every item.
abbrev Fresh : List Item → Counters → Type 0
Fresh [] c = c.resets ≡ 0
Fresh (i ∷ l) c = Unit

fresh : (l : List Item) (c : Counters) → c.resets ≡ 0 → Fresh l c
fresh [] c h = h
fresh (i ∷ l) c h = tt

run_stream-resets :
    (config : Config) (items : List Item) (c c' : Counters) (s s' : Shared) (b : Bool)
    → Fresh items c
    → run_stream config items c s ≡ (ret (c', b), s')
    → c'.resets ≡ 0
unfolding run_stream
run_stream-resets config [] c c' s s' b z e = cc
run_stream-resets config (window ev ∷ l) c c' s s' b z e =
    let (u, v, q, r) = bind_inv (handle_window_event ev config (bump c).focus_counter) _ s e in
    run_stream-resets config l (bump c) c' v s' b (fresh l (bump c) refl) r
run_stream-resets config (workspace ev ∷ l) c c' s s' b z e =
    let (u, v, q, r) = bind_inv (handle_workspace_event ev (bump c).focus_counter) _ s e in
    run_stream-resets config l (bump c) c' v s' b (fresh l (bump c) refl) r
run_stream-resets config (shutdown ∷ l) c c' s s' b z e =
    let same : keep c ≡ c' = cc in sym (ap (λ (k : Counters). k.resets) same)
run_stream-resets config (other ∷ l) c c' s s' b z e =
    run_stream-resets config l (keep c) c' s s' b (fresh l (keep c) refl) e
run_stream-resets config (error ∷ l) c c' s s' b z e =
    run_stream-resets config l (keep c) c' s s' b (fresh l (keep c) refl) e

-- The last attempt, if there is one, has yielded an item.
abbrev pub EndsAlive : List Attempt → Type 0
EndsAlive [] = Unit
EndsAlive (unreachable ∷ []) = ⊥
EndsAlive (stream [] ∷ []) = ⊥
EndsAlive (stream (i ∷ items) ∷ []) = Unit
EndsAlive (a ∷ b ∷ l) = EndsAlive (b ∷ l)

reset_loop-resets :
    (config : Config) (l : List Attempt) (c c' : Counters) (s s' : Shared)
    → ((l ≡ []) → c.resets ≡ 0)
    → EndsAlive l
    → reset_loop config l c s ≡ (ret (running, c'), s')
    → c'.resets ≡ 0
unfolding reset_loop run_attempt
reset_loop-resets config [] c c' s s' z h e =
    let same : c ≡ c' = cc in ap (λ (k : Counters). k.resets) (sym same) ∙ z refl
reset_loop-resets config (unreachable ∷ []) c c' s s' z h e = absurd h
reset_loop-resets config (stream [] ∷ []) c c' s s' z h e = absurd h
reset_loop-resets config (stream (i ∷ items) ∷ []) c c' s s' z h e =
    let r = reset_loop_inv config (stream (i ∷ items)) [] c c' s s' e in
    reset_loop-resets config [] r.counters c' r.shared s'
      (λ _.
        run_stream-resets config (i ∷ items) (count_reset c) r.counters s r.shared false tt r.ran)
      tt r.rest
reset_loop-resets config (a ∷ b ∷ l) c c' s s' z h e =
    let r = reset_loop_inv config a (b ∷ l) c c' s s' e in
    reset_loop-resets config (b ∷ l) r.counters c' r.shared s' (λ q. absurd (cc)) h r.rest

-- However many attempts there were before, of which the last, if there was one, has yielded an item,
-- where the monitor still runs behind them: it gives up when ten further attempts have yielded none, and
-- goes on as long as there are fewer; and it handles nothing in them.
pub monitor_sway_events-gives_up :
    (config : Config) (before l : List Attempt) (c : Counters) (s s' : Shared)
    → EndsAlive before
    → monitor_sway_events config before s ≡ (ret (running, c), s')
    → All IsBarren l
    → monitor_sway_events config (before ++ l) s ≡ (
      ret (
        (if leb 10 (length l) then gave_up else running),
        record c { resets = if leb 10 (length l) then 10 else length l },
      ),
      s',
    )
unfolding monitor_sway_events
monitor_sway_events-gives_up config before l c s s' alive e barren =
    let c₀ : Counters = record { focus_counter = 0; resets = 0 } in
    let none_yet = reset_loop-resets config before c₀ c s s' (λ _. refl) alive e in
    reset_loop-append config before l c₀ c s s' e
    ∙ reset_loop_barren config l c s' barren (rw none_yet (omega arith))
    ∙ rw (none_yet, zero-add) refl
