-- ===== src/Tree/Arms.antt =====
-- swayr/src/tree.rs: the placeholders of `format_for_display` and what they stand for.
use Prim.Native.String.{[], ◌∷◌}
use swayr.Base.{
  ℕ, zero, suc, ◌-◌, ◌||◌, Bool, Option, none, some, String, List, Outcome, ret, ◌>>=◌, string_eq,
  ◌==◌, is_empty, if◌then◌else◌,
}
use swayr.Base.Texts.{◌<>◌, join}
use swayr.Swayipc.{Node, NodeLayout, info}
use swayr.Ipc.{Kind, get_name, get_app_name}
use swayr.Fmt.{Floats, FmtArg, i64, string}
use swayr.Fmt.Placeholders.{captures_at, replacement}
use swayr.Tree.Build.{get_parent_node_of_type}
use swayr.Tree.Listing.{DisplayNode}

unfoldable pub format_marks : List String → String
format_marks marks = if is_empty marks then "" else "[" <> join ", " marks <> "]"

-- What is not the program's: the `Debug` form of a layout, lower case, and the formatting crate.
pub record Printing : Type 1 where
  pub floats : Floats
  pub format : String → FmtArg floats → Option String
  pub debug_layout : NodeLayout → String
  pub to_lowercase : String → String

-- `subst_placeholders!` with arms that may panic. An arm is run only for a placeholder with its name.
module _ (p : Printing) where
  unfoldable pub replace_from :
      (String → Outcome (Option (FmtArg p.floats))) → Bool → ℕ → String → Outcome String
  unfolding captures_at replacement
  replace_from args html_escape n [] = ret ""
  replace_from args html_escape (suc n) (c ∷ s) = replace_from args html_escape n s
  replace_from args html_escape zero (c ∷ s) = elim (captures_at (c ∷ s)) [
    | none ↦ (do rest ← replace_from args html_escape 0 s; ret (c ∷ rest))
    | some caps ↦ (do
      val ← args caps.name
      rest ← replace_from args html_escape (caps.length - 1) s
      ret (replacement p.format html_escape val caps (c ∷ s) <> rest))
  ]

  abbrev name_or : String → Option Node → String
  name_or default none = default
  name_or default (some n) = get_name n

  -- The arms of the substitution.
  unfoldable pub args : DisplayNode → String → Outcome (Option (FmtArg p.floats))
  unfolding get_name get_app_name get_parent_node_of_type format_marks
  args d key =
      let n = info d.shown in
      if key == "id"
      then ret (some (i64 n.id))
      else if key == "app_name"
      then ret (some (string (get_app_name d.shown)))
      else if key == "layout"
      then ret (some (string (p.debug_layout n.layout)))
      else if key == "name" || key == "title"
      then ret (some (string (get_name d.shown)))
      else if key == "output_name"
      then (do
        o ← get_parent_node_of_type d.tree n.id Kind.output
        ret (some (string (name_or "<no_output>" o))))
      else if key == "workspace_name"
      then (do
        w ← get_parent_node_of_type d.tree n.id Kind.workspace
        ret (some (string (name_or "<no_workspace>" w))))
      else if key == "marks"
      then ret (some (string (format_marks n.marks)))
      else ret none
