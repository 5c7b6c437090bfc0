-- ===== src/Bar/Events/Laws.antt =====
-- swayrbar/src/bar.rs: which events `handle_sway_events` sends.
use swayr.Base.{
  ◌≡◌, ◌≢◌, refl, sym, ap, ◌∙◌, ℕ, Bool, true, false, ◌||◌, String, List, [], ◌∷◌, ◌++◌, map,
  filter, any, All, if◌then◌else◌,
}
use mathlib.Core.List.{append-nil, append_assoc}
use swayr.Bar.Module.{NameInstanceAndReason}
use swayr.Bar.Events.{
  Item, window, workspace, shutdown, other, error, stream, Exit, running, shut_down, notices, Loop,
  run_stream, go_on, reset_loop, handle_sway_events,
}

abbrev pub is_shutdown : Item → Bool
is_shutdown shutdown = true
is_shutdown _ = false

abbrev pub is_window_or_workspace : Item → Bool
is_window_or_workspace window = true
is_window_or_workspace workspace = true
is_window_or_workspace _ = false

-- The items before sway shuts down.
abbrev pub before_shutdown : List Item → List Item
before_shutdown [] = []
before_shutdown (x ∷ l) = if is_shutdown x then [] else x ∷ before_shutdown l

-- A copy of a list for each item.
abbrev pub repeat : List Item → List NameInstanceAndReason → List NameInstanceAndReason
repeat [] evs = []
repeat (x ∷ l) evs = evs ++ repeat l evs

-- What the bar is to be told of a stretch of the stream.
abbrev pub told : List (String × String) → List Item → List NameInstanceAndReason
told mods items = repeat (filter is_window_or_workspace (before_shutdown items)) (notices mods)

abbrev pub joined : List (List Item) → List Item
joined [] = []
joined (x ∷ l) = x ++ joined l

module _ (mods : List (String × String)) where
  told-append :
      (xs ys : List Item)
      → told mods (xs ++ ys) ≡ told mods xs ++ (if any is_shutdown xs then [] else told mods ys)
  told-append [] ys = refl
  told-append (window ∷ xs) ys =
      rw (told-append xs ys) (sym (append_assoc (notices mods) (told mods xs) _))
  told-append (workspace ∷ xs) ys =
      rw (told-append xs ys) (sym (append_assoc (notices mods) (told mods xs) _))
  told-append (shutdown ∷ xs) ys = refl
  told-append (other ∷ xs) ys = told-append xs ys
  told-append (error ∷ xs) ys = told-append xs ys

  -- Items of a stream, where the last one has just been heard.
  run_stream-told :
      (items : List Item) (x : List NameInstanceAndReason)
      → run_stream mods items (record { resets = 0; sent = x })
        ≡ (record { resets = 0; sent = x ++ told mods items }, any is_shutdown items)
  unfolding run_stream
  run_stream-told [] x = rw (append-nil x) refl
  run_stream-told (window ∷ l) x = rw (run_stream-told l (x ++ notices mods), append_assoc) refl
  run_stream-told (workspace ∷ l) x = rw (run_stream-told l (x ++ notices mods), append_assoc) refl
  run_stream-told (shutdown ∷ l) x = rw (append-nil x) refl
  run_stream-told (other ∷ l) x = run_stream-told l x
  run_stream-told (error ∷ l) x = run_stream-told l x

  -- A stream with an item forgets the attempts before it.
  run_stream-hears :
      (items : List Item) (n : ℕ) (x : List NameInstanceAndReason)
      → items ≢ []
      → run_stream mods items (record { resets = n; sent = x })
        ≡ (record { resets = 0; sent = x ++ told mods items }, any is_shutdown items)
  unfolding run_stream
  run_stream-hears [] n x h = absurd (h refl)
  run_stream-hears (window ∷ l) n x h = run_stream-told (window ∷ l) x
  run_stream-hears (workspace ∷ l) n x h = run_stream-told (workspace ∷ l) x
  run_stream-hears (shutdown ∷ l) n x h = run_stream-told (shutdown ∷ l) x
  run_stream-hears (other ∷ l) n x h = run_stream-told (other ∷ l) x
  run_stream-hears (error ∷ l) n x h = run_stream-told (error ∷ l) x

  any-joined :
      (xs ys : List Item) → any is_shutdown (xs ++ ys) ≡ (any is_shutdown xs || any is_shutdown ys)
  any-joined [] ys = refl
  any-joined (window ∷ xs) ys = any-joined xs ys
  any-joined (workspace ∷ xs) ys = any-joined xs ys
  any-joined (shutdown ∷ xs) ys = refl
  any-joined (other ∷ xs) ys = any-joined xs ys
  any-joined (error ∷ xs) ys = any-joined xs ys

  abbrev outcome : List NameInstanceAndReason → List Item → Exit × Loop
  outcome x items = (
    (if any is_shutdown items then shut_down else running),
    record { resets = 0; sent = x ++ told mods items },
  )

  -- What the end of a stream means for the rest of the loop.
  go_on-outcome :
      (b : Bool) (x y : List NameInstanceAndReason) (l : List Item) (rest : Loop → Exit × Loop)
      → rest (record { resets = 0; sent = x ++ y }) ≡ outcome (x ++ y) l
      → go_on (record { resets = 0; sent = x ++ y }, b) rest ≡ (
        (if b || any is_shutdown l then shut_down else running),
        record { resets = 0; sent = x ++ (y ++ (if b then [] else told mods l)) },
      )
  go_on-outcome true x y l rest h = rw (append-nil y) refl
  go_on-outcome false x y l rest h =
      h
      ∙ ap
          (λ (s : List NameInstanceAndReason). (
            (if any is_shutdown l then shut_down else running),
            let r : Loop = record { resets = 0; sent = s } in r,
          ))
          (append_assoc x y (told mods l))

  reset_loop-told :
      (streams : List (List Item)) (x : List NameInstanceAndReason)
      → All (λ s. s ≢ []) streams
      → reset_loop mods (map stream streams) (record { resets = 0; sent = x })
        ≡ outcome x (joined streams)
  unfolding reset_loop
  reset_loop-told [] x h = rw (append-nil x) refl
  reset_loop-told (s ∷ l) x h =
      rw (told-append s (joined l), any-joined s (joined l))
        (ap (λ (p : Loop × Bool). go_on p (reset_loop mods (map stream l)))
            (run_stream-hears s 1 x h.0)
          ∙ go_on-outcome (any is_shutdown s) x (told mods s) (joined l)
              (reset_loop mods (map stream l)) (reset_loop-told l (x ++ told mods s) h.1))

  -- While every attempt to subscribe gives a stream with an item, the window modules are told of each
  -- window and workspace event that comes before sway shuts down, all of them each time, in the order
  -- of the events, and of nothing else. The loop ends exactly if sway shuts down.
  pub handle_sway_events-told :
      (streams : List (List Item))
      → All (λ s. s ≢ []) streams
      → handle_sway_events mods (map stream streams) ≡ (
        (if any is_shutdown (joined streams) then shut_down else running),
        record { resets = 0; sent = told mods (joined streams) },
      )
  unfolding handle_sway_events
  handle_sway_events-told streams h = reset_loop-told streams [] h
