-- ===== src/Util/Paths.antt =====
-- `std::path` and `std::env` on Unix, as far as swayr/src/util.rs uses them: paths are texts, compared by
-- their components.
use Prim.Native.Char.{code}
use Prim.Native.String.{[], ◌∷◌}
use swayr.Base.{
  ℕ, Bool, true, false, ◌&&◌, ◌||◌, not, Option, none, some, String, List, nat_beq, ltb, string_eq,
  ◌==◌, if◌then◌else◌, filter, map, unwrap_or,
}
use swayr.Base.Texts.{◌<>◌, split}

abbrev pub begins : ℕ → String → Bool
begins k [] = false
begins k (c ∷ s) = nat_beq (code c) k

abbrev pub ends : ℕ → String → Bool
ends k [] = false
ends k (c ∷ []) = nat_beq (code c) k
ends k (c ∷ d ∷ s) = ends k (d ∷ s)

-- `PathBuf::push`.
unfoldable pub push : String → String → String
push base path =
    if begins b'/' path
    then path
    else if base == "" || ends b'/' base
    then base <> path
    else base <> "/" <> path

-- The text before the last dot and that behind it.
unfoldable pub rsplit_dot : String → Option (String × String)
rsplit_dot [] = none
rsplit_dot (c ∷ s) = elim (rsplit_dot s) [
  | some (front, back) ↦ some (c ∷ front, back)
  | none ↦ if nat_beq (code c) b'.' then some ("", s) else none
]

-- `Path::extension` of a file name: a dot at its start does not count.
unfoldable pub extension : String → Option String
unfolding rsplit_dot
extension file_name = elim (rsplit_dot file_name) [
  | none ↦ none
  | some (front, back) ↦ if front == "" || file_name == ".." then none else some back
]

-- The file name behind `with_extension("")`.
unfoldable pub file_stem : String → String
unfolding rsplit_dot
file_stem file_name = elim (rsplit_dot file_name) [
  | none ↦ file_name
  | some (front, back) ↦ if front == "" || file_name == ".." then file_name else front
]

-- `Ord` of texts: by code points, as of their bytes.
unfoldable pub text_lt : String → String → Bool
text_lt s [] = false
text_lt [] (d ∷ t) = true
text_lt (c ∷ s) (d ∷ t) = ltb (code c) (code d) || (nat_beq (code c) (code d) && text_lt s t)

-- A component as a text that stands where the component stands in their order: the root directory, then
-- the parent directory, then names.
abbrev component : String → String
component s = if s == ".." then "\0" else s

abbrev is_name : String → Bool
is_name s = not (s == "" || s == ".")

-- `Path::components`; a leading `.` is dropped, since the program gives none.
unfoldable pub components : String → List String
unfolding split
components s =
    let names = map component (filter is_name (split b'/' s)) in
    if begins b'/' s then List.◌∷◌ "" names else names

unfoldable pub components_beq : List String → List String → Bool
components_beq List.[] List.[] = true
components_beq (List.◌∷◌ s l) (List.◌∷◌ t m) = s == t && components_beq l m
components_beq _ _ = false

unfoldable pub components_lt : List String → List String → Bool
unfolding text_lt
components_lt l List.[] = false
components_lt List.[] (List.◌∷◌ t m) = true
components_lt (List.◌∷◌ s l) (List.◌∷◌ t m) = text_lt s t || (s == t && components_lt l m)

-- `PartialEq` and `Ord` of paths.
unfoldable pub path_beq : String → String → Bool
unfolding components components_beq
path_beq p q = components_beq (components p) (components q)

unfoldable pub path_lt : String → String → Bool
unfolding components components_lt
path_lt p q = components_lt (components p) (components q)

-- The environment variables, as far as they can be read.
unfoldable pub get_swayr_socket_path : Option String → Option String → String
get_swayr_socket_path xdg_runtime_dir wayland_display =
    unwrap_or xdg_runtime_dir "/tmp" <> "/swayr-" <> unwrap_or wayland_display "unknown" <> ".sock"
