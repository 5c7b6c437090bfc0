-- ===== src/Tree/Display.antt =====
-- swayr/src/tree.rs: `format_for_display`, the text that a menu entry is shown as.
pub mod Returns
use Prim.Native.Char.{code, Char}
use Prim.Native.String.{[], ◌∷◌}
use swayr.Base.{
  ℕ, zero, suc, ◌-◌, ◌||◌, ◌&&◌, leb, Bool, Option, none, some, String, List, Outcome, ret, or_else,
  unwrap_or, string_eq, nat_beq, if◌then◌else◌,
}
use swayr.Base.Exec.{Exec, pure, lift, ◌>>=◌}
use swayr.Base.Texts.{◌<>◌}
use swayr.Swayipc.{Node, info}
use swayr.Ipc.{Kind, get_type, get_app_name}
use swayr.Config.Defaults.{Config}
use swayr.Config.Getters.{
  get_format_indent, get_format_html_escape, get_format_urgency_start, get_format_urgency_end,
  get_format_icon_dirs, get_format_fallback_icon, get_format_output_format,
  get_format_workspace_format, get_format_container_format, get_format_window_format,
}
use swayr.Fmt.{count}
use swayr.Util.Icons.{Files, IconMap, get_icon, strip_prefix}
use swayr.Tree.Arms.{Printing, replace_from, args}
use swayr.Tree.Listing.{DisplayNode, get_indent_level}

-- `str::repeat`.
unfoldable pub repeat : String → ℕ → String
repeat s zero = ""
repeat s (suc n) = s <> repeat s n

-- `str::replace` of a text that is not empty. The number is that of the characters of a match that are
-- still to be passed over.
unfoldable pub replace_text : String → String → ℕ → String → String
unfolding strip_prefix
replace_text p t n [] = ""
replace_text p t (suc n) (c ∷ s) = replace_text p t n s
replace_text p t zero (c ∷ s) = elim (strip_prefix p (c ∷ s)) [
  | none ↦ c ∷ replace_text p t 0 s
  | some rest ↦ t <> replace_text p t (count p - 1) s
]

-- `[0-9.]`.
abbrev is_version_code : ℕ → Bool
is_version_code c = (leb b'0' c && leb c b'9') || nat_beq c b'.'

unfoldable pub drop_version : String → String
drop_version [] = []
drop_version (c ∷ s) = let rest = drop_version s in if is_version_code (code c) then rest else c ∷ s

-- `-[0-9.]+` at the front, and what is left.
unfoldable pub version_at : String → Option String
unfolding drop_version
version_at [] = none
version_at (c ∷ []) = none
version_at (c ∷ d ∷ s) =
    if nat_beq (code c) b'-' && is_version_code (code d) then some (drop_version s) else none

abbrev cons_front : Char → Option String → Option String
cons_front c none = none
cons_front c (some s) = some (c ∷ s)

-- `(.+)(-[0-9.]+)` from a place on, with the match replaced by its first group. That takes as much as it
-- can, but does not go past the end of a line.
unfoldable pub cut_version : String → Option String
unfolding version_at
cut_version [] = none
cut_version (c ∷ s) =
    let cut = or_else (cons_front c (cut_version s)) (cons_front c (version_at s)) in
    if nat_beq (code c) b'\n' then none else cut

-- `APP_NAME_AND_VERSION_RX.replace(_, "$1")`, at the leftmost match.
unfoldable pub without_version : String → String
unfolding cut_version
without_version [] = []
without_version (c ∷ s) =
    let rest = c ∷ without_version s in elim (cut_version (c ∷ s)) [ some t ↦ t | none ↦ rest ]

module _ (p : Printing) where
  abbrev format_of : Config → Kind → Outcome String
  format_of cfg Kind.root = ret "Cannot format Root"
  format_of cfg Kind.output = get_format_output_format cfg
  format_of cfg Kind.workspace = get_format_workspace_format cfg
  format_of cfg Kind.container = get_format_container_format cfg
  format_of cfg Kind.window = get_format_window_format cfg

  -- The first icon that one of the names has, with the cache as it is then.
  unfoldable pub first_icon :
      Files → List String → List String → Exec (Option IconMap) (Option String)
  unfolding get_icon
  first_icon fs icon_dirs List.[] = pure none
  first_icon fs icon_dirs (List.◌∷◌ name l) = do
    icon ← get_icon fs name icon_dirs
    elim icon [ some i ↦ pure (some i) | none ↦ first_icon fs icon_dirs l ]

  -- The names that are tried, in their order.
  abbrev app_names : Node → List String
  app_names n =
      let app_name = get_app_name n in
      let plain = without_version app_name in
      List.◌∷◌ app_name (List.◌∷◌ plain (List.◌∷◌ (p.to_lowercase plain) List.[]))

  -- `home` is `$HOME`, and `fs` the files, which matter only to the first search for an icon.
  unfoldable pub format_for_display :
      Config → Option String → Files → DisplayNode → Exec (Option IconMap) String
  unfolding get_format_indent get_format_html_escape get_format_urgency_start get_format_urgency_end
      get_format_icon_dirs get_format_fallback_icon get_format_output_format
      get_format_workspace_format get_format_container_format get_format_window_format
      without_version get_type get_app_name get_indent_level first_icon repeat replace_text
      replace_from args
  format_for_display cfg home fs d = do
    indent ← lift (get_format_indent cfg)
    html_escape ← lift (get_format_html_escape cfg)
    urgency_start ← lift (get_format_urgency_start cfg)
    urgency_end ← lift (get_format_urgency_end cfg)
    icon_dirs ← lift (get_format_icon_dirs cfg home)
    k ← lift (get_type d.shown)
    fmt ← lift (format_of cfg k)
    level ← lift (get_indent_level d)
    icon ← first_icon fs icon_dirs (app_names d.shown)
    let urgent = (info d.shown).urgent
    let with_indent = replace_text "{indent}" (repeat indent level) 0 fmt
    let with_start =
        replace_text "{urgency_start}" (if urgent then urgency_start else "") 0 with_indent
    let with_end = replace_text "{urgency_end}" (if urgent then urgency_end else "") 0 with_start
    let with_icon =
        replace_text "{app_icon}" (unwrap_or (or_else icon (get_format_fallback_icon cfg)) "") 0
          with_end
    lift (replace_from p (args p d) html_escape 0 with_icon)
