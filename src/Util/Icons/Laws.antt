-- ===== src/Util/Icons/Laws.antt =====
-- util.rs: the icons that are found are files, and are searched for only once.
use swayr.Base.{
  ◌≡◌, refl, Bool, true, false, Option, none, some, String, List, [], ◌∷◌, All, or_else, ret,
  string_eq, ◌==◌, if◌then◌else◌, Bool-cases, inl, inr,
}
use swayr.Base.Dict.{get, insert}
use swayr.Util.Paths.{file_stem}
use swayr.Util.Icons.{
  Files, Entry, path_of, icon_in, icon_in_dirs, find_icon, Found, note, wm_class_or_icon_rx,
  scan_lines, IconMap, insert_some, enter_names, enter_icon, enter_file, rev_domain_name_rx,
  enter_found, enter_all, desktop_entries, get_app_id_to_icon_map, get_icon,
}

module _ (fs : Files) where
  -- A path, if there is one, is that of a file.
  abbrev pub IsIcon : Option String → Type 0
  IsIcon none = Unit
  IsIcon (some p) = fs.is_file p ≡ true

  abbrev AllFiles : IconMap → Type 0
  AllFiles m = All (λ e. fs.is_file e.1 ≡ true) m

  or_else-IsIcon : (o o' : Option String) → IsIcon o → IsIcon o' → IsIcon (or_else o o')
  or_else-IsIcon none o' h h' = h'
  or_else-IsIcon (some p) o' h h' = h

  tested-IsIcon :
      (p : String) (o : Option String) → IsIcon o → IsIcon (if fs.is_file p then some p else o)
  tested-IsIcon p o h = elim (Bool-cases (fs.is_file p)) [ inl e ↦ rw e e | inr e ↦ rw e h ]

  icon_in-IsIcon : (dir name : String) (exts : List String) → IsIcon (icon_in fs dir name exts)
  unfolding icon_in
  icon_in-IsIcon dir name [] = tt
  icon_in-IsIcon dir name (ext ∷ l) = tested-IsIcon _ _ (icon_in-IsIcon dir name l)

  icon_in_dirs-IsIcon : (name : String) (dirs : List String) → IsIcon (icon_in_dirs fs name dirs)
  unfolding icon_in_dirs
  icon_in_dirs-IsIcon name [] = tt
  icon_in_dirs-IsIcon name (dir ∷ l) =
      or_else-IsIcon _ _ (icon_in-IsIcon dir name ("png" ∷ "svg" ∷ [])) (icon_in_dirs-IsIcon name l)

  find_icon-IsIcon : (name : String) (dirs : List String) → IsIcon (find_icon fs name dirs)
  unfolding find_icon
  find_icon-IsIcon name dirs = tested-IsIcon _ _ (icon_in_dirs-IsIcon name dirs)

  note-IsIcon :
      (dirs : List String) (m : Option (String × String)) (f : Found)
      → IsIcon f.icon
      → IsIcon (note fs dirs m f).icon
  unfolding note
  note-IsIcon dirs none f h = h
  note-IsIcon dirs (some (key, value)) f h = elim (Bool-cases (key == "StartupWMClass")) [
    | inl e ↦ rw e h
    | inr e ↦ rw e (or_else-IsIcon _ _ (find_icon-IsIcon value dirs) h)
  ]

  if-IsIcon :
      (b : Bool) (f g : Found) → IsIcon f.icon → IsIcon g.icon → IsIcon (if b then f else g).icon
  if-IsIcon true f g hf hg = hf
  if-IsIcon false f g hf hg = hg

  scan_lines-IsIcon :
      (dirs : List String) (l : List (Option String)) (f : Found)
      → IsIcon f.icon
      → IsIcon (scan_lines fs dirs l f).icon
  unfolding scan_lines
  scan_lines-IsIcon dirs [] f h = h
  scan_lines-IsIcon dirs (none ∷ l) f h = if-IsIcon _ f _ h (scan_lines-IsIcon dirs l f h)
  scan_lines-IsIcon dirs (some line ∷ l) f h = if-IsIcon _ f _ h (
      scan_lines-IsIcon dirs l (note fs dirs (wm_class_or_icon_rx line) f)
        (note-IsIcon dirs (wm_class_or_icon_rx line) f h))

  insert-AllFiles :
      (k p : String) (m : IconMap) → fs.is_file p ≡ true → AllFiles m → AllFiles (insert k p m)
  unfolding insert
  insert-AllFiles k p [] h hm = (h, tt)
  insert-AllFiles k p ((j, q) ∷ m) h hm = elim (Bool-cases (j == k)) [
    | inl e ↦ rw e (h, hm.1)
    | inr e ↦ rw e (hm.0, insert-AllFiles k p m h hm.1)
  ]

  insert_some-AllFiles :
      (k : Option String) (p : String) (m : IconMap)
      → fs.is_file p ≡ true
      → AllFiles m
      → AllFiles (insert_some k p m)
  insert_some-AllFiles none p m h hm = hm
  insert_some-AllFiles (some k) p m h hm = insert-AllFiles k p m h hm

  enter_found-AllFiles :
      (e : Entry) (f : Found) (m : IconMap)
      → IsIcon f.icon
      → AllFiles m
      → AllFiles (enter_found e f m)
  unfolding enter_found enter_names
  enter_found-AllFiles e f m h hm = go f.icon h
    where
      go : (o : Option String) → IsIcon o → AllFiles (enter_icon e f.wm_class o m)
      go none p = hm
      go (some icon) p = insert-AllFiles (file_stem e.file_name) icon _ p (
          insert_some-AllFiles (rev_domain_name_rx (file_stem e.file_name)) icon _ p
            (insert_some-AllFiles f.wm_class icon m p hm))

  enter_all-AllFiles :
      (dirs : List String) (l : List Entry) (m : IconMap)
      → AllFiles m
      → AllFiles (enter_all fs dirs l m)
  unfolding enter_all
  enter_all-AllFiles dirs [] m h = h
  enter_all-AllFiles dirs (e ∷ l) m h = enter_all-AllFiles dirs l _ (go (fs.read_lines (path_of e)))
    where
      go : (o : Option (List (Option String))) → AllFiles (enter_file fs dirs e o m)
      go none = h
      go (some lines) = enter_found-AllFiles e _ m (scan_lines-IsIcon dirs lines _ tt) h

  get-IsIcon : (k : String) (m : IconMap) → AllFiles m → IsIcon (get k m)
  unfolding get
  get-IsIcon k [] h = tt
  get-IsIcon k ((j, q) ∷ m) h = elim (Bool-cases (j == k)) [
    | inl e ↦ rw e (h.0)
    | inr e ↦ rw e (get-IsIcon k m h.1)
  ]

  -- After the first call of `get_icon`, whatever the application, every later answer comes from the map
  -- that the first call made, whatever directories are asked for then; and an icon that is returned is
  -- the path of a file of the time of the first call.
  pub get_icon-later :
      (fs' : Files) (a b : String) (dirs dirs' : List String)
      → let c = (get_icon fs a dirs none).1 in
        (get_icon fs' b dirs' c ≡ (ret (get b (get_app_id_to_icon_map fs dirs)), c))
        × IsIcon (get b (get_app_id_to_icon_map fs dirs))
  unfolding get_icon
  get_icon-later fs' a b dirs dirs' =
      (refl, get-IsIcon b _ (enter_all-AllFiles dirs (desktop_entries fs) [] tt))
