-- ===== src/Cfg.antt =====
-- swayr/src/shared/cfg.rs: where the configuration file is, and how it is made and read. The crates
-- `directories` and `toml` and the file system's permissions are the parameter `Platform`.
pub mod Laws
use swayr.Base.{
  Bool, true, false, not, ◌||◌, Option, none, some, String, List, [], ◌∷◌, ◌++◌, contains, Outcome,
  ret, panic, expect, is_some, unwrap_or, string_eq, ◌==◌, if◌then◌else◌,
}
use swayr.Base.Exec.{Exec, pure, lift, gets, modify, ◌>>=◌, ◌>>◌}
use swayr.Base.Texts.{◌<>◌}
use swayr.Base.Dict.{get, insert}

-- `ran` are the commands that were started, oldest first.
pub record Disk : Type 0 where
  pub files : List (String × String)
  pub dirs : List String
  pub ran : List (List String)

-- `config_dir` is `ProjectDirs::config_dir`; `write` what a file holds behind `write_all`, from what it
-- held, if that is allowed; `read` the content as a text, if it can be read as one. The last three are
-- serde's and `Default`'s functions for the type of the configuration.
pub record Platform (T : Type 0) : Type 0 where
  pub config_dir : String → Option String
  pub creates_dir : String → Bool
  pub write : String → Option String → Option String
  pub read : String → Option String
  pub to_toml : T → Option String
  pub from_toml : String → Option T
  pub default : T

-- `Path::exists`.
unfoldable pub exists : Disk → String → Bool
unfolding get
exists d path = is_some (get path d.files) || contains d.dirs path

-- `create(user_config_dir).unwrap()`.
unfoldable pub create_dir : {T : Type 0} → Platform T → String → Exec Disk (Unit {0})
create_dir p dir =
    if p.creates_dir dir
    then modify (λ d. record d { dirs = dir ∷ d.dirs })
    else lift (panic "called `Result::unwrap()` on an `Err` value")

abbrev pub sys_path_of : String → String
sys_path_of project = "/etc/xdg/" <> project <> "/config.toml"

abbrev pub user_path_of : String → String
user_path_of dir = dir <> "/config.toml"

-- Behind the look for the user's directory: whether it exists, and whether the system's file does.
abbrev pub choose_path :
    {T : Type 0} → Platform T → String → String → Bool → Bool → Exec Disk String
choose_path p project dir true sys = pure (user_path_of dir)
choose_path p project dir false true = pure (sys_path_of project)
choose_path p project dir false false = do create_dir p dir; pure (user_path_of dir)

unfoldable pub get_config_file_path : {T : Type 0} → Platform T → String → Exec Disk String
unfolding exists create_dir
get_config_file_path p project = do
  dir ← lift (expect (p.config_dir project) "")
  has_dir ← gets (λ d. exists d dir)
  has_sys ← gets (λ d. exists d (sys_path_of project))
  choose_path p project dir has_dir has_sys

abbrev pub store_file : String → Option String → Exec Disk (Unit {0})
store_file path none = lift (panic "called `Result::unwrap()` on an `Err` value")
store_file path (some content) = modify (λ d. record d { files = insert path content d.files })

unfoldable pub save_config : {T : Type 0} → Platform T → String → T → Exec Disk (Unit {0})
unfolding get_config_file_path get insert
save_config p project cfg = do
  path ← get_config_file_path p project
  content ← lift (expect (p.to_toml cfg) "Cannot serialize config.")
  old ← gets (λ d. get path d.files)
  store_file path (p.write content old)

abbrev pub parsed : {T : Type 0} → Platform T → String → T
parsed p buf = unwrap_or (p.from_toml buf) p.default

unfoldable pub load_config_file : {T : Type 0} → Platform T → String → Exec Disk T
unfolding get
load_config_file p path = do
  file ← gets (λ d. get path d.files)
  content ← lift (expect file ("Config file " <> path <> " does not exist."))
  buf ← lift (expect (p.read content) "called `Result::unwrap()` on an `Err` value")
  pure (parsed p buf)

abbrev pub welcome : String → String → String
welcome project path =
    if project == "swayr"
    then "Welcome to swayr! I've created a fresh config for use with wofi for you in " <> path
      <> ". Adapt it to your needs."
    else "Welcome to swayrbar! I've created a fresh config for for you in " <> path
      <> ". Adapt it to your needs."

abbrev pub swaynag : String → String → List String
swaynag project path =
    "swaynag"
    ∷ "--background"
    ∷ "00FF44"
    ∷ "--text"
    ∷ "0000CC"
    ∷ "--message"
    ∷ welcome project path
    ∷ "--type"
    ∷ "warning"
    ∷ "--dismiss-button"
    ∷ "Thanks!"
    ∷ []

-- The part of `load_config` for a file that is not there.
unfoldable pub create_config : {T : Type 0} → Platform T → String → String → Exec Disk (Unit {0})
unfolding save_config
create_config p project path = do
  save_config p project p.default
  modify (λ d. record d { ran = d.ran ++ swaynag project path ∷ [] })

-- Behind the look for the file: whether it exists.
abbrev pub load_checked : {T : Type 0} → Platform T → String → String → Bool → Exec Disk T
load_checked p project path there = do
  if there then pure tt else create_config p project path
  load_config_file p path

abbrev pub load_from : {T : Type 0} → Platform T → String → String → Exec Disk T
load_from p project path = do there ← gets (λ d. exists d path); load_checked p project path there

unfoldable pub load_config : {T : Type 0} → Platform T → String → Exec Disk T
unfolding create_config load_config_file exists get_config_file_path
load_config p project = do path ← get_config_file_path p project; load_from p project path
