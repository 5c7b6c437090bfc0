-- ===== src/Bar/Clicks/Laws.antt =====
-- swayrbar/src/bar.rs: which command a click runs, and which refresh it asks for.
use swayr.Base.{
  ◌≡◌, refl, sym, ap, ◌∙◌, Option, none, some, String, List, [], ◌∷◌, ◌++◌, ret, All, string_eq,
  ◌==◌, beq_refl, beq→eq, Bool-cases, Option-cases, inl, inr, arith, if◌then◌else◌,
}
use mathlib.Core.List.{append-nil}
use swayr.Base.Dict.{get}
use swayr.Base.Exec.{bind_ret}
use swayr.Bar.Config.{ModuleConfig}
use swayr.Bar.Module.{click_event, get_on_click_map}
use swayr.Bar.Outside.{Crates, World}
use swayr.Bar.Status.{BarModule, get_config}
use swayr.Bar.Clicks.{
  Click, subst_args, get_command, on_click_command, on_command, click_on, handle_click,
}

-- The configuration has this command for the button on this module.
pub record IsBound (cfg : ModuleConfig) (n i button : String) (cmd : List String) : Type 0 where
  pub on_click : List (String × List String)
  pub is_name : n ≡ cfg.name
  pub is_instance : i ≡ cfg.instance_name
  pub has_map : cfg.on_click ≡ some on_click
  pub has_command : get button on_click ≡ some cmd

get_on_click_map_self :
    (cfg : ModuleConfig) → get_on_click_map cfg cfg.name cfg.instance_name ≡ cfg.on_click
unfolding get_on_click_map
get_on_click_map_self cfg = rw (beq_refl cfg.name, beq_refl cfg.instance_name) refl

IsBound-command :
    (cfg : ModuleConfig) (n i button : String) (cmd : List String)
    → IsBound cfg n i button cmd
    → on_click_command cfg n i button ≡ some cmd
unfolding on_click_command
IsBound-command cfg n i button cmd h =
    ap (λ (s : String). get_command button (get_on_click_map cfg s i)) h.is_name
    ∙ ap (λ (s : String). get_command button (get_on_click_map cfg cfg.name s)) h.is_instance
    ∙ ap (get_command button) (get_on_click_map_self cfg ∙ h.has_map)
    ∙ h.has_command

get_on_click_map-some :
    (cfg : ModuleConfig) (n i : String) {m : List (String × List String)}
    → get_on_click_map cfg n i ≡ some m
    → (n ≡ cfg.name) × (i ≡ cfg.instance_name) × (cfg.on_click ≡ some m)
unfolding get_on_click_map
get_on_click_map-some cfg n i h = elim (Bool-cases (n == cfg.name)) [
  | inr e ↦ absurd (ground (arith, e, h))
  | inl e ↦ elim (Bool-cases (i == cfg.instance_name)) [
    | inr e' ↦ absurd (ground (arith, e, e', h))
    | inl e' ↦ (beq→eq n cfg.name e, beq→eq i cfg.instance_name e', ground (arith, e, e', h))
  ]
]

command-IsBound :
    (cfg : ModuleConfig) (n i button : String) (cmd : List String)
    → on_click_command cfg n i button ≡ some cmd
    → IsBound cfg n i button cmd
unfolding on_click_command
command-IsBound cfg n i button cmd h =
    go (get_on_click_map cfg n i) (λ m. get_on_click_map-some cfg n i) h
  where
    go :
        (o : Option (List (String × List String)))
        → ((m : List (String × List String))
            → o ≡ some m
            → (n ≡ cfg.name) × (i ≡ cfg.instance_name) × (cfg.on_click ≡ some m))
        → get_command button o ≡ some cmd
        → IsBound cfg n i button cmd
    go none inv e = absurd (cc)
    go (some m) inv e = record {
      on_click = m;
      is_name = (inv m refl).0;
      is_instance = (inv m refl).1;
      has_map = (inv m refl).2;
      has_command = e;
    }

abbrev pub click : String → String → String → Click
click n i button = record { name = some n; instance_name = some i; button = button }

module _ {c : Crates} (n i button : String) where
  -- No command of the configuration is for the click.
  abbrev pub IsUnbound : BarModule c → Type 0
  IsUnbound m = (cmd : List String) → IsBound (get_config m) n i button cmd → ⊥

  unbound_command :
      (m : BarModule c) → IsUnbound m → on_click_command (get_config m) n i button ≡ none
  unbound_command m h = elim (Option-cases (on_click_command (get_config m) n i button)) [
    | inl e ↦ e
    | inr (cmd, e) ↦ absurd (h cmd (command-IsBound (get_config m) n i button cmd e))
  ]

  click_on-skips :
      (before rest : List (BarModule c)) (w : World c)
      → All IsUnbound before
      → click_on (before ++ rest) n i button w ≡ click_on rest n i button w
  unfolding click_on
  click_on-skips [] rest w h = refl
  click_on-skips (m ∷ before) rest w h =
      ap (λ (o : Option (List String)). on_command o m (click_on (before ++ rest) n i button) w)
        (unbound_command m h.0)
      ∙ click_on-skips before rest w h.1

  -- A click that no module has a command for does nothing.
  handle_click-unbound :
      (mods : List (BarModule c)) (w : World c)
      → All IsUnbound mods
      → handle_click (click n i button) mods w ≡ (ret none, w)
  unfolding handle_click
  handle_click-unbound mods w h =
      ap (λ (l : List (BarModule c)). click_on l n i button w) (sym (append-nil mods))
      ∙ click_on-skips mods [] w h

  -- A click runs the command of the first module that has one for it, with the placeholders filled in,
  -- and asks for a refresh of just that module, except that a window module is not refreshed.
  pub handle_click-first :
      (before after : List (BarModule c)) (m : BarModule c) (cmd : List String) (prog : String)
      (args : List String) (w w' : World c)
      → All IsUnbound before
      → IsBound (get_config m) n i button cmd
      → subst_args m cmd w ≡ (ret (prog ∷ args), w')
      → handle_click (click n i button) (before ++ m ∷ after) w ≡ (
        ret (if n == "window" then none else some (n, i, click_event)),
        record w' { ran = w'.ran ++ (prog ∷ args) ∷ [] },
      )
  unfolding handle_click
  handle_click-first before after m cmd prog args w w' hb h e =
      click_on-skips before (m ∷ after) w hb
      ∙ ap (λ (o : Option (List String)). on_command o m (click_on after n i button) w)
          (IsBound-command (get_config m) n i button cmd h)
      ∙ bind_ret (subst_args m cmd) _ e
      ∙ rw (h.is_name, h.is_instance) refl
