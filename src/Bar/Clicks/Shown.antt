-- ===== src/Bar/Clicks/Shown.antt =====
-- swayrbar/src/bar.rs: a click on the module for the volume is followed by a status with the new volume.
use swayr.Base.{
  ℕ, suc, ◌≡◌, refl, ap, ◌∙◌, Bool, true, false, Option, none, some, String, List, [], ◌∷◌, ◌++◌,
  map, ret, All, string_eq, ◌==◌, beq_refl, if◌then◌else◌,
}
use swayr.Base.Exec.{Exec, pure, bind_left, bind_assoc, bind_ret, ◌>>=◌}
use swayr.Bar.Config.{ModuleConfig, is_html_escape}
use swayr.Bar.Module.{NameInstanceAndReason, click_event, Block, block, should_refresh}
use swayr.Fmt.{contains_text}
use swayr.Bar.Outside.{Crates, World, tick, status}
use swayr.Bar.Status.{BarModule, pactl, build, generate_status_1}
use swayr.Bar.Status.Laws.{shown, Ignores, generate_status_1-named}
use swayr.Bar.Pactl
use swayr.Bar.Clicks.{subst_args, handle_click}
use swayr.Bar.Clicks.Laws.{IsBound, IsUnbound, click, handle_click-first}

should_refresh-own :
    (cfg : ModuleConfig)
    → should_refresh cfg (some (cfg.name, cfg.instance_name, click_event)) true (click_event ∷ [])
      ≡ true
unfolding should_refresh
should_refresh-own cfg = rw (beq_refl cfg.name, beq_refl cfg.instance_name) refl

module _ {c : Crates} (cfg : ModuleConfig) (state : Pactl.State) where
  -- What the module does for a click on it.
  abbrev refreshed : Exec (World c) (BarModule c × Block)
  refreshed = do
    s ← Pactl.refresh_state state cfg.format (is_html_escape cfg)
    pure (pactl cfg s, block "pactl" cfg s.cached_text)

  build-own :
      (w : World c)
      → build (pactl cfg state) (some (cfg.name, cfg.instance_name, click_event)) w ≡ refreshed w
  unfolding build Pactl.build
  build-own w = rw (should_refresh-own cfg) (
      bind_assoc (Pactl.refresh_state state cfg.format (is_html_escape cfg))
        (λ s. pure (s, block "pactl" cfg s.cached_text)) (λ r. pure (pactl cfg r.0, r.1)) w)

-- What `pactl` prints about the default sink, at the time `t`.
abbrev pub printed_by_pactl : {c : Crates} → World c → ℕ → String → String
printed_by_pactl v t what =
    Pactl.output_text ((v.outside t).command "pactl" (what ∷ "@DEFAULT_SINK@" ∷ []))

-- The state with this volume, and the text of the configuration for it.
abbrev pub heard : Crates → ModuleConfig → ℕ → Bool → Pactl.State
heard c cfg n m =
    let new : Pactl.State = record { volume = n; muted = m; cached_text = "" } in
    record new { cached_text = Pactl.subst_placeholders c cfg.format (is_html_escape cfg) new }

module _ {c : Crates} (cfg : ModuleConfig) where
  refresh_state-heard :
      (state : Pactl.State) (v : World c) (n : ℕ)
      → Pactl.volume_of c (printed_by_pactl v v.now "get-sink-volume") ≡ ret n
      → Pactl.refresh_state state cfg.format (is_html_escape cfg) v ≡ (
        ret (heard c cfg n (contains_text (printed_by_pactl v (suc v.now) "get-sink-mute") "yes")),
        tick (tick v),
      )
  unfolding Pactl.refresh_state Pactl.get_volume Pactl.get_mute_state Pactl.run_pactl
      Pactl.subst_placeholders
  refresh_state-heard state v n e = rw e refl

  refreshed-heard :
      (state : Pactl.State) (v : World c) (n : ℕ)
      → Pactl.volume_of c (printed_by_pactl v v.now "get-sink-volume") ≡ ret n
      → let s =
          heard c cfg n (contains_text (printed_by_pactl v (suc v.now) "get-sink-mute") "yes") in
        refreshed cfg state v ≡ (ret (pactl cfg s, block "pactl" cfg s.cached_text), tick (tick v))
  refreshed-heard state v n e =
      bind_ret (Pactl.refresh_state state cfg.format (is_html_escape cfg)) _
        (refresh_state-heard state v n e)

-- A click on the module for the volume that no module before it has a command for runs the module's own
-- command and sends an event. At whatever time the main thread takes that event up: if `pactl` then prints
-- a volume that can be read, the module holds that volume, and whether `pactl` prints `yes` about the mute
-- state, in place of what it held; and the status shows the text of the configuration for these two,
-- between what the other modules, which have another name or instance and are no window modules that have
-- yet to look at the tree, have cached.
pub click-shown :
    {c : Crates} (before after : List (BarModule c)) (cfg : ModuleConfig) (state : Pactl.State)
    (button prog : String) (cmd args : List String) (w w' v : World c) (n : ℕ)
    → (cfg.name == "window") ≡ false
    → All (IsUnbound cfg.name cfg.instance_name button) before
    → IsBound cfg cfg.name cfg.instance_name button cmd
    → subst_args (pactl cfg state) cmd w ≡ (ret (prog ∷ args), w')
    → All (Ignores cfg.name cfg.instance_name) before
    → All (Ignores cfg.name cfg.instance_name) after
    → Pactl.volume_of c (printed_by_pactl v v.now "get-sink-volume") ≡ ret n
    → let mods = before ++ pactl cfg state ∷ after in
      let event : Option NameInstanceAndReason = some (cfg.name, cfg.instance_name, click_event) in
      let s =
        heard c cfg n (contains_text (printed_by_pactl v (suc v.now) "get-sink-mute") "yes") in
      (handle_click (click cfg.name cfg.instance_name button) mods w
        ≡ (ret event, record w' { ran = w'.ran ++ (prog ∷ args) ∷ [] }))
      × (generate_status_1 mods event v ≡ (
        ret (before ++ pactl cfg s ∷ after),
        record (tick (tick v)) {
          output =
              v.output
              ++ status (map shown before ++ block "pactl" cfg s.cached_text ∷ map shown after)
                ∷ [];
        },
      ))
click-shown before after cfg state button prog cmd args w w' v n other unbound bound filled ib ia
      e =
    let event : Option NameInstanceAndReason = some (cfg.name, cfg.instance_name, click_event) in
    (
      handle_click-first cfg.name cfg.instance_name button before after (pactl cfg state) cmd prog
            args w w' unbound bound filled
          ∙ ap
              (λ (b : Bool).
                (ret (if b then none else event), record w' { ran = w'.ran ++ (prog ∷ args) ∷ [] }))
              other,
      generate_status_1-named before after (pactl cfg state) cfg.name cfg.instance_name click_event
            v ib ia
          ∙ bind_left (build (pactl cfg state) event) (refreshed cfg state) _
              (build-own cfg state v)
          ∙ bind_ret (refreshed cfg state) _ (refreshed-heard cfg state v n e),
    )
