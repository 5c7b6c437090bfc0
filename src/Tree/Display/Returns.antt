-- ===== src/Tree/Display/Returns.antt =====
-- `format_for_display` of swayr/src/tree.rs returns a text.
use Prim.Native.String.{[], ◌∷◌}
use swayr.Base.{
  refl, ℕ, zero, suc, ◌-◌, Bool, true, false, Option, none, some, String, List, Outcome, ret, panic,
  ◌>>=◌, string_eq, if◌then◌else◌,
}
use swayr.Base.Exec.{Exec, pure, lift, continue}
use swayr.Base.Exec as States
use swayr.Base.Texts.{◌<>◌}
use swayr.Swayipc.{info}
use swayr.Ipc.{Kind, get_type}
use swayr.Config.Defaults.{Config}
use swayr.Config.Getters.Returns.{Returns, then-Returns, getters_return}
use swayr.Fmt.{FmtArg}
use swayr.Fmt.Placeholders.{Captures, captures_at, replacement}
use swayr.Util.Icons.{Files, IconMap, get_icon}
use swayr.Tree.Build.{get_parent_node_of_type}
use swayr.Tree.Arms.{Printing, replace_from, args}
use swayr.Tree.Listing.{DisplayNode, get_indent_level}
use swayr.Tree.Display.{first_icon, format_of, format_for_display}

-- The code returns from every state.
record Goes {ℓ} {S A : Type ℓ} (m : Exec S A) : Type ℓ where
  goes : (s : S) → Returns (m s).0

module _ {S A : Type 0} where
  pure-Goes : (a : A) → Goes (pure {S = S} a)
  pure-Goes a = record { goes = λ s. (a, refl) }

  lift-Goes : (r : Outcome A) → Returns r → Goes (lift {S = S} r)
  lift-Goes r h = record { goes = λ s. h }

module _ {S A B : Type 0} where
  bind-Goes :
      (m : Exec S A) {f : A → Exec S B} → Goes m → ((a : A) → Goes (f a)) → Goes (States.◌>>=◌ m f)
  bind-Goes m {f} hm hf = record { goes = λ s. go (m s) (hm.goes s) }
    where
      go : (x : Outcome A × S) → Returns x.0 → Returns (continue x.0 f x.1).0
      go (ret a, s) h = (hf a).goes s
      go (panic e, s) (a, h) = absurd (cc)

format_of-Returns : (p : Printing) (cfg : Config) (k : Kind) → Returns (format_of p cfg k)
format_of-Returns p cfg Kind.root = ("Cannot format Root", refl)
format_of-Returns p cfg Kind.output = (getters_return cfg "").2
format_of-Returns p cfg Kind.workspace = (getters_return cfg "").3
format_of-Returns p cfg Kind.container = (getters_return cfg "").4
format_of-Returns p cfg Kind.window = (getters_return cfg "").5

get_icon-Goes :
    (fs : Files) (name : String) (icon_dirs : List String) → Goes (get_icon fs name icon_dirs)
unfolding get_icon
get_icon-Goes fs name icon_dirs = record { goes = λ s. (_, refl) }

first_icon-Goes :
    (p : Printing) (fs : Files) (icon_dirs names : List String)
    → Goes (first_icon p fs icon_dirs names)
unfolding first_icon
first_icon-Goes p fs icon_dirs List.[] = pure-Goes none
first_icon-Goes p fs icon_dirs (List.◌∷◌ name l) =
    bind-Goes (get_icon fs name icon_dirs) (get_icon-Goes fs name icon_dirs)
      (go (first_icon-Goes p fs icon_dirs l))
  where
    go :
        Goes (first_icon p fs icon_dirs l)
        → (icon : Option String)
        → Goes (elim icon [ some i ↦ pure (some i) | none ↦ first_icon p fs icon_dirs l ])
    go h none = h
    go h (some i) = pure-Goes (some i)

module _ (p : Printing) (f : String → Outcome (Option (FmtArg p.floats)))
    (found : (key : String) → Returns (f key)) where
  replace_from-Returns :
      (html_escape : Bool) (n : ℕ) (s : String) → Returns (replace_from p f html_escape n s)
  unfolding replace_from
  replace_from-Returns html_escape n [] = ("", refl)
  replace_from-Returns html_escape (suc n) (c ∷ s) = replace_from-Returns html_escape n s
  replace_from-Returns html_escape zero (c ∷ s) =
      go (λ n. replace_from-Returns html_escape n s) (captures_at (c ∷ s))
    where
      go :
          ((n : ℕ) → Returns (replace_from p f html_escape n s))
          → (o : Option Captures)
          → Returns (elim o [
            | none ↦ (replace_from p f html_escape 0 s >>= λ rest. ret (c ∷ rest))
            | some caps ↦
                (f caps.name >>= λ val. replace_from p f html_escape (caps.length - 1) s >>= λ rest.
                ret (replacement p.format html_escape val caps (c ∷ s) <> rest))
          ])
      go h none = then-Returns _ _ (h 0) λ rest. (c ∷ rest, refl)
      go h (some caps) = then-Returns (f caps.name) _ (found caps.name) λ val.
          then-Returns _ _ (h (caps.length - 1))
            λ rest. (replacement p.format html_escape val caps (c ∷ s) <> rest, refl)

if-Returns :
    {A : Type 0} (b : Bool) (x y : Outcome A) → Returns x → Returns y → Returns (if b then x else y)
if-Returns true x y h k = h
if-Returns false x y h k = k

ret-Returns : {A : Type 0} (a : A) → Returns (ret a)
ret-Returns a = (a, refl)

module _ (p : Printing) (d : DisplayNode)
    (output : Returns (get_parent_node_of_type d.tree (info d.shown).id Kind.output))
    (workspace : Returns (get_parent_node_of_type d.tree (info d.shown).id Kind.workspace)) where
  args-Returns : (key : String) → Returns (args p d key)
  unfolding args
  args-Returns key = search (if-Returns, ret-Returns, then-Returns, output, workspace) depth 20

-- A text is shown for every entry whose type, indentation, output and workspace are found, whatever the
-- configuration, the templates, the files and the cache of icons are.
pub format_for_display-Returns :
    (p : Printing) (cfg : Config) (home : String) (fs : Files) (d : DisplayNode)
    (icons : Option IconMap)
    → Returns (get_type d.shown)
    → Returns (get_indent_level d)
    → Returns (get_parent_node_of_type d.tree (info d.shown).id Kind.output)
    → Returns (get_parent_node_of_type d.tree (info d.shown).id Kind.workspace)
    → Returns (format_for_display p cfg (some home) fs d icons).0
unfolding format_for_display
format_for_display-Returns p cfg home fs d icons kind level output workspace =
    let getters = getters_return cfg home in
    let fills = replace_from-Returns p (args p d) (args-Returns p d output workspace) in
    let m : Goes (format_for_display p cfg (some home) fs d) =
      search
        (
          bind-Goes, lift-Goes, first_icon-Goes, format_of-Returns, fills, getters.6, getters.7,
          getters.8, getters.9, getters.10,
        )
        depth 20 in
    m.goes icons
