-- ===== src/Config/Getters/Returns.antt =====
-- The getters of config.rs never panic: the defaults cover every setting that is wanted.
use swayr.Base.{
  Option, none, some, String, List, [], ◌∷◌, Outcome, ret, ◌>>=◌, expect, or_else, ◌≡◌, refl,
  Bool-cases, inl, inr, int_eq,
}
use swayr.Base.Texts.{◌<>◌}
use swayr.Config.Defaults.{
  Config, default_menu, default_format, default_layout, default_focus, default_misc,
}
use swayr.Config.Getters.{
  setting, getter, expand_one, starts_with_tilde, behind_first, tilde_expand_file_names,
  get_menu_executable, get_menu_args, get_format_output_format, get_format_workspace_format,
  get_format_container_format, get_format_window_format, get_format_indent,
  get_format_urgency_start, get_format_urgency_end, get_format_html_escape, get_format_icon_dirs,
  is_layout_auto_tile, get_focus_lockin_delay, get_misc_seq_inhibit, min_widths, min_widths_of,
}

-- The code returns, and does not panic.
abbrev pub Returns {ℓ} : {A : Type ℓ} → Outcome A → Type ℓ
Returns {A = A} r = (a : A) × (r ≡ ret a)

expect-Returns {ℓ} :
    {A : Type ℓ} (o d : Option A) (msg : String) {a : A}
    → d ≡ some a
    → Returns (expect (or_else o d) msg)
expect-Returns none d msg {a} e = (a, rw e)
expect-Returns (some b) d msg e = (b, refl)

getter-Returns {ℓ κ} :
    {S : Type ℓ} {A : Type κ} (section : Option S) (field : S → Option A) (default : S)
    (msg : String) {a : A}
    → field default ≡ some a
    → Returns (getter section field default msg)
getter-Returns section field default msg h =
    expect-Returns (setting section field) (field default) msg h

expand_one-Returns : (h file_name : String) → Returns (expand_one (some h) file_name)
unfolding expand_one
expand_one-Returns h file_name = elim (Bool-cases (starts_with_tilde file_name)) [
  | inl e ↦ (h <> behind_first file_name, rw e)
  | inr e ↦ (file_name, rw e)
]

tilde_expand-Returns : (h : String) (l : List String) → Returns (tilde_expand_file_names (some h) l)
unfolding tilde_expand_file_names
tilde_expand-Returns h [] = ([], refl)
tilde_expand-Returns h (file_name ∷ l) =
    let (path, e) = expand_one-Returns h file_name in
    let (rest, e') = tilde_expand-Returns h l in (path ∷ rest, rw (e, e'))

pub then-Returns {ℓ κ} :
    {A : Type ℓ} {B : Type κ} (r : Outcome A) (f : A → Outcome B)
    → Returns r
    → ((a : A) → Returns (f a))
    → Returns (r >>= f)
then-Returns r f (a, e) h = rw e (h a)

-- With the home directory known, every getter of the configuration returns a value for every
-- configuration, however many sections and settings the file leaves out.
pub getters_return :
    (c : Config) (home : String)
    → Returns (get_menu_executable c)
      × Returns (get_menu_args c)
      × Returns (get_format_output_format c)
      × Returns (get_format_workspace_format c)
      × Returns (get_format_container_format c)
      × Returns (get_format_window_format c)
      × Returns (get_format_indent c)
      × Returns (get_format_urgency_start c)
      × Returns (get_format_urgency_end c)
      × Returns (get_format_html_escape c)
      × Returns (get_format_icon_dirs c (some home))
      × Returns (is_layout_auto_tile c)
      × Returns (min_widths c)
      × Returns (get_focus_lockin_delay c)
      × Returns (get_misc_seq_inhibit c)
unfolding get_menu_executable get_menu_args get_format_output_format get_format_workspace_format
    get_format_container_format get_format_window_format get_format_indent get_format_urgency_start
    get_format_urgency_end get_format_html_escape get_format_icon_dirs is_layout_auto_tile
    min_widths get_focus_lockin_delay get_misc_seq_inhibit
getters_return c home = (
  getter-Returns c.menu _ default_menu _ refl,
  getter-Returns c.menu _ default_menu _ refl,
  getter-Returns c.format _ default_format _ refl,
  getter-Returns c.format _ default_format _ refl,
  getter-Returns c.format _ default_format _ refl,
  getter-Returns c.format _ default_format _ refl,
  getter-Returns c.format _ default_format _ refl,
  getter-Returns c.format _ default_format _ refl,
  getter-Returns c.format _ default_format _ refl,
  getter-Returns c.format _ default_format _ refl,
  then-Returns _ _ (getter-Returns c.format _ default_format _ refl) (tilde_expand-Returns home),
  getter-Returns c.layout _ default_layout _ refl,
  getter-Returns c.layout min_widths_of default_layout _ refl,
  getter-Returns c.focus _ default_focus _ refl,
  getter-Returns c.misc _ default_misc _ refl,
)
