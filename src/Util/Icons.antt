-- ===== src/Util/Icons.antt =====
-- swayr/src/util.rs: the search for icons, `get_icon`. The file system and the environment are the
-- parameter `Files`.
pub mod Laws
use Prim.Native.Char.{code}
use Prim.Native.String as Text
use Prim.Native.Nat.{Ordering}
use swayr.Base.{
  ℕ, leb, Bool, true, false, ◌&&◌, ◌||◌, not, Option, none, some, String, List, [], ◌∷◌, ◌++◌, map,
  filter, all, is_some, or_else, string_eq, ◌==◌, nat_beq, if◌then◌else◌, ret,
}
use swayr.Base.Texts.{◌<>◌, split}
use swayr.Base.Dict.{get, insert}
use swayr.Base.Sort.{sort_by}
use swayr.Base.Exec.{Exec}
use swayr.Util.Paths.{push, extension, file_stem, path_beq, path_lt}

-- `read_dir` is the names in a directory, without those that cannot be read; `read_lines` the lines of a
-- file, `none` for one that cannot be read. The environment variables count only if they are UTF-8.
pub record Files : Type 0 where
  pub data_local_dir : Option String
  pub xdg_data_dirs : Option String
  pub read_dir : String → Option (List String)
  pub is_file : String → Bool
  pub read_lines : String → Option (List (Option String))

-- A file that was found: its directory and its name.
pub record Entry : Type 0 where
  pub dir : String
  pub file_name : String

abbrev pub path_of : Entry → String
path_of e = push e.dir e.file_name

abbrev applications : List String → List String
applications l = map (λ d. push d "applications/") l

abbrev pub compare_paths : String → String → Ordering
compare_paths p q =
    if path_lt p q then Ordering.lt else if path_beq p q then Ordering.eq else Ordering.gt

-- `Vec::dedup`, behind an item that was kept.
dedup_behind : String → List String → List String
dedup_behind p [] = []
dedup_behind p (q ∷ l) =
    let kept = dedup_behind q l in
    let dropped = dedup_behind p l in if path_beq p q then dropped else q ∷ kept

unfoldable pub dedup : List String → List String
unfolding dedup_behind
dedup [] = []
dedup (p ∷ l) = p ∷ dedup_behind p l

abbrev option_list : Option String → List String
option_list none = []
option_list (some s) = s ∷ []

abbrev data_dirs : Option String → List String
data_dirs none = []
data_dirs (some s) = split b':' s

module _ (fs : Files) where
  unfoldable pub desktop_entry_folders : List String
  unfolding push sort_by dedup split path_beq path_lt
  desktop_entry_folders = dedup (
      sort_by compare_paths (
        applications (option_list fs.data_local_dir)
        ++ (("/usr/local/share/applications/" ∷ "/usr/share/applications/" ∷ [])
            ++ applications (data_dirs fs.xdg_data_dirs))))

  abbrev pub is_desktop_entry : Entry → Bool
  is_desktop_entry e =
      fs.is_file (path_of e)
      && (elim (extension e.file_name) [ some ext ↦ ext == "desktop" | none ↦ false ])

  unfoldable pub entries_of : List String → List Entry
  unfolding extension push
  entries_of [] = []
  entries_of (dir ∷ l) = elim (fs.read_dir dir) [
    | some names ↦
        filter is_desktop_entry (map (λ n. record { dir = dir; file_name = n }) names)
        ++ entries_of l
    | none ↦ entries_of l
  ]

  unfoldable pub desktop_entries : List Entry
  unfolding desktop_entry_folders entries_of
  desktop_entries = entries_of desktop_entry_folders

  -- The inner loop of `find_icon`, over the extensions.
  unfoldable pub icon_in : String → String → List String → Option String
  unfolding push
  icon_in dir icon_name [] = none
  icon_in dir icon_name (ext ∷ l) =
      let p = push dir (icon_name <> "." <> ext) in
      if fs.is_file p then some p else icon_in dir icon_name l

  unfoldable pub icon_in_dirs : String → List String → Option String
  unfolding icon_in
  icon_in_dirs icon_name [] = none
  icon_in_dirs icon_name (dir ∷ l) =
      or_else (icon_in dir icon_name ("png" ∷ "svg" ∷ [])) (icon_in_dirs icon_name l)

  unfoldable pub find_icon : String → List String → Option String
  unfolding icon_in_dirs
  find_icon icon_name icon_dirs =
      if fs.is_file icon_name then some icon_name else icon_in_dirs icon_name icon_dirs

-- The text behind a given one at the front.
unfoldable pub strip_prefix : String → String → Option String
strip_prefix Text.[] s = some s
strip_prefix (Text.◌∷◌ c p) Text.[] = none
strip_prefix (Text.◌∷◌ c p) (Text.◌∷◌ d s) =
    if nat_beq (code c) (code d) then strip_prefix p s else none

-- A key and the value behind its `=`, `(.+)`.
abbrev keyed : String → Option String → Option (String × String)
keyed key none = none
keyed key (some s) = if s == "" then none else some (key, s)

-- `WM_CLASS_OR_ICON_RX` on a line: the groups of the leftmost match.
unfoldable pub wm_class_or_icon_rx : String → Option (String × String)
unfolding strip_prefix
wm_class_or_icon_rx Text.[] = none
wm_class_or_icon_rx (Text.◌∷◌ c s) =
    or_else (keyed "StartupWMClass" (strip_prefix "StartupWMClass=" (Text.◌∷◌ c s)))
      (or_else (keyed "Icon" (strip_prefix "Icon=" (Text.◌∷◌ c s))) (wm_class_or_icon_rx s))

abbrev is_label_code : ℕ → Bool
is_label_code c =
    (leb b'a' c && leb c b'z')
    || ((leb b'A' c && leb c b'Z') || ((leb b'0' c && leb c b'9') || nat_beq c b'-'))

abbrev all_label : String → Bool
all_label Text.[] = true
all_label (Text.◌∷◌ c s) = is_label_code (code c) && all_label s

-- `[a-zA-Z0-9-]+`, the whole of a text.
abbrev is_label : String → Bool
is_label s = not (s == "") && all_label s

abbrev last_label : List String → Option String
last_label [] = none
last_label (s ∷ []) = none
last_label (s ∷ t ∷ []) = some t
last_label (s ∷ t ∷ u ∷ l) = last_label (t ∷ u ∷ l)

-- `REV_DOMAIN_NAME_RX`, group 1.
unfoldable pub rev_domain_name_rx : String → Option String
unfolding split
rev_domain_name_rx s = if all is_label (split b'.' s) then last_label (split b'.' s) else none

-- The variables of the loop over the lines.
pub record Found : Type 0 where
  pub wm_class : Option String
  pub icon : Option String

-- What a match changes.
unfoldable pub note : Files → List String → Option (String × String) → Found → Found
unfolding find_icon
note fs icon_dirs none f = f
note fs icon_dirs (some (key, value)) f =
    if key == "StartupWMClass"
    then record f { wm_class = some value }
    else record f { icon = or_else (find_icon fs value icon_dirs) f.icon }

-- The `for` loop over the lines.
unfoldable pub scan_lines : Files → List String → List (Option String) → Found → Found
unfolding note wm_class_or_icon_rx
scan_lines fs icon_dirs [] f = f
scan_lines fs icon_dirs (none ∷ l) f =
    let rest = scan_lines fs icon_dirs l f in
    if is_some f.wm_class && is_some f.icon then f else rest
scan_lines fs icon_dirs (some line ∷ l) f =
    let rest = scan_lines fs icon_dirs l (note fs icon_dirs (wm_class_or_icon_rx line) f) in
    if is_some f.wm_class && is_some f.icon then f else rest

abbrev pub IconMap : Type 0
IconMap = List (String × String)

abbrev pub insert_some : Option String → String → IconMap → IconMap
insert_some none icon m = m
insert_some (some k) icon m = insert k icon m

-- The names under which the icon of a desktop file is entered.
unfoldable pub enter_names : Option String → String → String → IconMap → IconMap
unfolding insert rev_domain_name_rx
enter_names wm_class stem icon m =
    insert stem icon (insert_some (rev_domain_name_rx stem) icon (insert_some wm_class icon m))

abbrev pub enter_icon : Entry → Option String → Option String → IconMap → IconMap
enter_icon e wm_class none m = m
enter_icon e wm_class (some icon) m = enter_names wm_class (file_stem e.file_name) icon m

unfoldable pub enter_found : Entry → Found → IconMap → IconMap
unfolding enter_names file_stem
enter_found e f m = enter_icon e f.wm_class f.icon m

-- What the lines of a desktop file, if it can be opened, enter.
abbrev pub enter_file :
    Files → List String → Entry → Option (List (Option String)) → IconMap → IconMap
enter_file fs icon_dirs e none m = m
enter_file fs icon_dirs e (some lines) m =
    enter_found e (scan_lines fs icon_dirs lines (record { wm_class = none; icon = none })) m

-- The `for` loop over the desktop files.
unfoldable pub enter_all : Files → List String → List Entry → IconMap → IconMap
unfolding enter_found scan_lines
enter_all fs icon_dirs [] m = m
enter_all fs icon_dirs (e ∷ l) m =
    enter_all fs icon_dirs l (enter_file fs icon_dirs e (fs.read_lines (path_of e)) m)

unfoldable pub get_app_id_to_icon_map : Files → List String → IconMap
unfolding enter_all desktop_entries
get_app_id_to_icon_map fs icon_dirs = enter_all fs icon_dirs (desktop_entries fs) []

-- `APP_ID_TO_ICON_MAP`: filled at the first call.
abbrev filled : Files → List String → Option IconMap → IconMap
filled fs icon_dirs none = get_app_id_to_icon_map fs icon_dirs
filled fs icon_dirs (some m) = m

unfoldable pub get_icon : Files → String → List String → Exec (Option IconMap) (Option String)
unfolding get_app_id_to_icon_map get
get_icon fs app_id icon_dirs cache =
    let m = filled fs icon_dirs cache in (ret (get app_id m), some m)
