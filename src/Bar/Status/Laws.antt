-- ===== src/Bar/Status/Laws.antt =====
-- swayrbar/src/bar.rs: which modules a status refreshes, and what it shows of each.
use swayr.Base.{
  ◌≡◌, ◌≢◌, refl, ◌∙◌, Bool, true, false, ◌&&◌, some, String, List, [], ◌∷◌, ◌++◌, map, any, ret,
  All, int_eq, ℤ, string_eq, ◌==◌, beq→eq, Bool-cases, inl, inr,
}
use swayr.Base.Exec.{pure, bind_ret, bind_left, bind_same, bind_assoc, ◌>>=◌, ◌>>◌}
use swayr.Bar.Config.{ModuleConfig}
use swayr.Bar.Module.{
  RefreshReason, click_event, sway_event, reason_eq, Block, block, should_refresh,
}
use swayr.Bar.Outside.{Crates, World, status}
use swayr.Bar.Status.{
  BarModule, window, sysinfo, battery, date, pactl, nmcli, get_config, build, build_all, print,
  generate_status_1,
}
use swayr.Bar.Window

-- The block of a module, from its configuration and the text that it has cached.
abbrev pub shown : {c : Crates} → BarModule c → Block
shown (window cfg state) = block "window" cfg state.cached_text
shown (sysinfo cfg sys state) = block "sysinfo" cfg state.cached_text
shown (battery cfg state) = block "battery" cfg state.cached_text
shown (date cfg state) = block "date" cfg state.cached_text
shown (pactl cfg state) = block "pactl" cfg state.cached_text
shown (nmcli cfg state) = block "nmcli" cfg state.cached_text

-- A window module has looked at the tree before.
abbrev IsStarted : {c : Crates} → BarModule c → Type 0
IsStarted (window cfg state) = state.pid ≢ Window.initial_pid
IsStarted _ = Unit {0}

-- The module has another name or another instance, and does not wait for its first refresh.
abbrev pub Ignores : {c : Crates} → String → String → BarModule c → Type 0
Ignores n i m = ((n ≡ (get_config m).name) × (i ≡ (get_config m).instance_name) → ⊥) × IsStarted m

not_equal : (a b : ℤ) → a ≢ b → (a == b) ≡ false
not_equal a b h = elim (Bool-cases (a == b)) [ inl e ↦ absurd (h (beq→eq a b e)) | inr e ↦ e ]

names_differ :
    (n i a b : String) → ((n ≡ a) × (i ≡ b) → ⊥) → (r : Bool) → (n == a && (i == b && r)) ≡ false
names_differ n i a b h r = elim (Bool-cases (n == a)) [
  | inr e ↦ rw e refl
  | inl e ↦ elim (Bool-cases (i == b)) [
    | inr e' ↦ rw (e, e') refl
    | inl e' ↦ absurd (h (beq→eq n a e, beq→eq i b e'))
  ]
]

should_refresh-other :
    (cfg : ModuleConfig) (n i : String) (r : RefreshReason) (periodic : Bool)
    (reasons : List RefreshReason)
    → ((n ≡ cfg.name) × (i ≡ cfg.instance_name) → ⊥)
    → should_refresh cfg (some (n, i, r)) periodic reasons ≡ false
unfolding should_refresh
should_refresh-other cfg n i r periodic reasons h =
    names_differ n i cfg.name cfg.instance_name h (any (λ x. x == r) reasons)

build-other :
    {c : Crates} (m : BarModule c) (n i : String) (r : RefreshReason) (w : World c)
    → Ignores n i m
    → build m (some (n, i, r)) w ≡ (ret (m, shown m), w)
unfolding build
build-other (window cfg state) n i r w h =
    rw
      (
        not_equal state.pid Window.initial_pid h.1,
        should_refresh-other cfg n i r false (sway_event ∷ []) h.0,
      )
      refl
build-other (sysinfo cfg sys state) n i r w h = rw (should_refresh-other cfg n i r true [] h.0) refl
build-other (battery cfg state) n i r w h = rw (should_refresh-other cfg n i r true [] h.0) refl
build-other (date cfg state) n i r w h = rw (should_refresh-other cfg n i r true [] h.0) refl
build-other (pactl cfg state) n i r w h =
    rw (should_refresh-other cfg n i r true (click_event ∷ []) h.0) refl
build-other (nmcli cfg state) n i r w h =
    rw (should_refresh-other cfg n i r true (click_event ∷ []) h.0) refl

build_all-other :
    {c : Crates} (mods : List (BarModule c)) (n i : String) (r : RefreshReason) (w : World c)
    → All (Ignores n i) mods
    → build_all mods (some (n, i, r)) w ≡ (ret (mods, map shown mods), w)
unfolding build_all
build_all-other [] n i r w h = refl
build_all-other (m ∷ mods) n i r w h =
    bind_ret (build m (some (n, i, r))) _ (build-other m n i r w h.0)
    ∙ bind_ret (build_all mods (some (n, i, r))) _ (build_all-other mods n i r w h.1)

abbrev around :
    {c : Crates}
    → List (BarModule c)
    → List (BarModule c)
    → BarModule c × Block
    → List (BarModule c) × List Block
around before after x = (before ++ x.0 ∷ after, map shown before ++ x.1 ∷ map shown after)

build_all-named :
    {c : Crates} (before after : List (BarModule c)) (m : BarModule c) (n i : String)
    (r : RefreshReason) (w : World c)
    → All (Ignores n i) before
    → All (Ignores n i) after
    → build_all (before ++ m ∷ after) (some (n, i, r)) w
      ≡ (build m (some (n, i, r)) >>= λ x. pure (around before after x)) w
unfolding build_all
build_all-named [] after m n i r w hb ha =
    bind_same (build m (some (n, i, r))) _ _
      (λ x s. bind_ret (build_all after (some (n, i, r))) _ (build_all-other after n i r s ha)) w
build_all-named (b ∷ before) after m n i r w hb ha =
    bind_ret (build b (some (n, i, r))) _ (build-other b n i r w hb.0)
    ∙ bind_left (build_all (before ++ m ∷ after) (some (n, i, r)))
        (build m (some (n, i, r)) >>= λ x. pure (around before after x)) _
        (build_all-named before after m n i r w hb.1 ha)
    ∙ bind_assoc (build m (some (n, i, r))) (λ x. pure (around before after x))
        (λ rest. pure (b ∷ rest.0, shown b ∷ rest.1)) w

-- An event that names a module leaves all others alone: they keep their state, nothing outside is asked
-- for them, and the status shows what they have cached. Only the module itself is built anew. Window
-- modules that have not looked at the tree yet are excepted, since their first refresh is still due.
pub generate_status_1-named :
    {c : Crates} (before after : List (BarModule c)) (m : BarModule c) (n i : String)
    (r : RefreshReason) (w : World c)
    → All (Ignores n i) before
    → All (Ignores n i) after
    → generate_status_1 (before ++ m ∷ after) (some (n, i, r)) w
      ≡ (build m (some (n, i, r)) >>= λ x.
            print (status (map shown before ++ x.1 ∷ map shown after))
            >> pure (before ++ x.0 ∷ after))
          w
unfolding generate_status_1
generate_status_1-named before after m n i r w hb ha =
    bind_left (build_all (before ++ m ∷ after) (some (n, i, r)))
      (build m (some (n, i, r)) >>= λ x. pure (around before after x)) _
      (build_all-named before after m n i r w hb ha)
    ∙ bind_assoc (build m (some (n, i, r))) (λ x. pure (around before after x))
        (λ x. print (status x.1) >> pure x.0) w
