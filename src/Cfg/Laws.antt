-- ===== src/Cfg/Laws.antt =====
-- shared/cfg.rs: a configuration that is made is the one that is read, and one that is there is kept.
use swayr.Base.{
  ◌≡◌, refl, ap, ◌∙◌, Bool, true, false, ◌||◌, Option, none, some, String, List, [], ◌∷◌, ◌++◌,
  contains, ret, expect, is_some, unwrap_or, string_eq, ◌==◌, beq_refl, beq→eq, Bool-cases, inl,
  inr, ◌+◌, arith,
}
use swayr.Base.Dict.{get, insert, get-insert}
use swayr.Base.Exec.{pure, lift, gets, bind_ret, ◌>>=◌}
use swayr.Base.Texts.{◌<>◌}
use swayr.Fmt.{count}
use swayr.Fmt.Laws.{count-append}
use swayr.Cfg.{
  Disk, Platform, exists, create_dir, sys_path_of, user_path_of, choose_path, get_config_file_path,
  store_file, save_config, parsed, load_config_file, swaynag, create_config, load_checked,
  load_from, load_config,
}

is_some-none : {A : Type 0} (o : Option A) → is_some o ≡ false → o ≡ none
is_some-none none h = refl
is_some-none (some a) h = absurd (cc)

or_true : (b : Bool) → (b || true) ≡ true
or_true true = refl
or_true false = refl

or_false : (a b : Bool) → (a || b) ≡ false → (a ≡ false) × (b ≡ false)
or_false true b h = absurd (cc)
or_false false b h = (refl, h)

-- The file has another path than its directory.
user_path-ne : (dir : String) → (dir == user_path_of dir) ≡ false
user_path-ne dir = elim (Bool-cases (dir == user_path_of dir)) [
  | inr e ↦ e
  | inl e ↦
      let same : count dir ≡ count dir + 12 =
        ap count (beq→eq dir (user_path_of dir) e) ∙ count-append dir "/config.toml" in
      absurd (omega (arith, same))
]

module _ {T : Type 0} (p : Platform T) (project : String) {dir : String}
    (has_dir : p.config_dir project ≡ some dir) where
  path-chosen :
      (d : Disk)
      → get_config_file_path p project d
        ≡ choose_path p project dir (exists d dir) (exists d (sys_path_of project)) d
  unfolding get_config_file_path
  path-chosen d =
      ap
        (λ (o : Option String).
          (lift (expect o "") >>= λ dir'. gets (λ d. exists d dir') >>= λ b.
          gets (λ d. exists d (sys_path_of project)) >>= λ b'. choose_path p project dir' b b')
            d)
        has_dir

  path-user :
      (d : Disk)
      → exists d dir ≡ true
      → get_config_file_path p project d ≡ (ret (user_path_of dir), d)
  path-user d h =
      path-chosen d
      ∙ ap (λ (b : Bool). choose_path p project dir b (exists d (sys_path_of project)) d) h

  file-loaded :
      (d : Disk) (path : String) {content buf : String}
      → get path d.files ≡ some content
      → p.read content ≡ some buf
      → load_config_file p path d ≡ (ret (parsed p buf), d)
  unfolding load_config_file
  file-loaded d path {content} {buf} hf hr =
      ap
        (λ (o : Option String).
          (lift (expect o ("Config file " <> path <> " does not exist.")) >>= λ c.
          lift (expect (p.read c) "called `Result::unwrap()` on an `Err` value") >>= λ b.
          pure (parsed p b))
            d)
        hf
      ∙ ap
          (λ (o : Option String).
            (lift (expect o "called `Result::unwrap()` on an `Err` value") >>= λ b.
            pure (parsed p b))
              d)
          hr

  exists_file :
      (d : Disk) (path : String) {content : String}
      → get path d.files ≡ some content
      → exists d path ≡ true
  unfolding exists
  exists_file d path h = ap (λ (o : Option String). is_some o || contains d.dirs path) h

  -- A file that is there is read as it is, and nothing is written or started; what is not a valid
  -- configuration counts as the default one.
  load_config-present :
      (d : Disk) (content buf : String)
      → exists d dir ≡ true
      → get (user_path_of dir) d.files ≡ some content
      → p.read content ≡ some buf
      → load_config p project d ≡ (ret (parsed p buf), d)
  unfolding load_config
  load_config-present d content buf hd hf hr =
      bind_ret (get_config_file_path p project) (load_from p project) {s = d} (path-user d hd)
      ∙ ap (λ (b : Bool). load_checked p project (user_path_of dir) b d)
          (exists_file d (user_path_of dir) hf)
      ∙ file-loaded d (user_path_of dir) hf hr

  -- What a first start finds and what the crates do with the default configuration: they write it, and
  -- read back what they wrote.
  pub record IsFirst (d : Disk) (text : String) : Type 0 where
    pub no_dir : exists d dir ≡ false
    pub no_sys : exists d (sys_path_of project) ≡ false
    pub no_file : exists d (user_path_of dir) ≡ false
    pub may_create : p.creates_dir dir ≡ true
    pub serialized : p.to_toml p.default ≡ some text
    pub written : p.write text none ≡ some text
    pub readable : p.read text ≡ some text
    pub parses : p.from_toml text ≡ some p.default

  -- The disk behind a first start.
  abbrev pub made : Disk → String → Disk
  made d text = record {
    files = insert (user_path_of dir) text d.files;
    dirs = dir ∷ d.dirs;
    ran = d.ran ++ swaynag project (user_path_of dir) ∷ [];
  }

  abbrev with_dir : Disk → Disk
  with_dir d = record d { dirs = dir ∷ d.dirs }

  exists_listed : (d : Disk) (l : List String) → exists (record d { dirs = dir ∷ l }) dir ≡ true
  unfolding exists
  exists_listed d l = rw (beq_refl dir) (or_true (is_some (get dir d.files)))

  exists_file-with_dir :
      (d : Disk)
      → exists d (user_path_of dir) ≡ false
      → exists (with_dir d) (user_path_of dir) ≡ false
  unfolding exists
  exists_file-with_dir d h = rw (user_path-ne dir) h

  no_content : (d : Disk) (path : String) → exists d path ≡ false → get path d.files ≡ none
  unfolding exists
  no_content d path h =
      is_some-none (get path d.files) (or_false (is_some (get path d.files)) _ h).0

  created : (d : Disk) → p.creates_dir dir ≡ true → create_dir p dir d ≡ (ret tt, with_dir d)
  unfolding create_dir
  created d h = rw h refl

  path-created :
      (d : Disk) (text : String)
      → IsFirst d text
      → get_config_file_path p project d ≡ (ret (user_path_of dir), with_dir d)
  path-created d text h =
      path-chosen d
      ∙ ap (λ (b : Bool). choose_path p project dir b (exists d (sys_path_of project)) d) h.no_dir
      ∙ ap (λ (b : Bool). choose_path p project dir false b d) h.no_sys
      ∙ bind_ret (create_dir p dir) (λ _. pure (user_path_of dir)) {s = d} (created d h.may_create)

  saved :
      (d : Disk) (text : String)
      → IsFirst d text
      → save_config p project p.default (with_dir d)
        ≡ (ret tt, record (with_dir d) { files = insert (user_path_of dir) text d.files })
  unfolding save_config
  saved d text h =
      bind_ret (get_config_file_path p project) _ {s = with_dir d}
        (path-user (with_dir d) (exists_listed d d.dirs))
      ∙ ap
          (λ (o : Option String).
            (lift (expect o "Cannot serialize config.") >>= λ content.
            gets (λ d'. get (user_path_of dir) d'.files) >>= λ old.
            store_file (user_path_of dir) (p.write content old))
              (with_dir d))
          h.serialized
      ∙ ap (λ (o : Option String). store_file (user_path_of dir) (p.write text o) (with_dir d))
          (no_content d (user_path_of dir) h.no_file)
      ∙ ap (λ (o : Option String). store_file (user_path_of dir) o (with_dir d)) h.written

  config-created :
      (d : Disk) (text : String)
      → IsFirst d text
      → create_config p project (user_path_of dir) (with_dir d) ≡ (ret tt, made d text)
  unfolding create_config
  config-created d text h =
      bind_ret (save_config p project p.default) _ {s = with_dir d} (saved d text h)

  content-made : (d : Disk) (text : String) → get (user_path_of dir) (made d text).files ≡ some text
  content-made d text =
      get-insert (user_path_of dir) (user_path_of dir) text d.files
      ∙ rw (beq_refl (user_path_of dir)) refl

  parsed-default : (d : Disk) (text : String) → IsFirst d text → parsed p text ≡ p.default
  parsed-default d text h = ap (λ (o : Option T). unwrap_or o p.default) h.parses

  -- On a first start the default configuration is written to the user's new directory, the user is told
  -- so, and the default configuration is what is loaded; every later start loads it from that file, and
  -- writes and starts nothing.
  pub load_config-first :
      (d : Disk) (text : String)
      → IsFirst d text
      → (load_config p project d ≡ (ret p.default, made d text))
        × (load_config p project (made d text) ≡ (ret p.default, made d text))
  unfolding load_config
  load_config-first d text h = (first, later)
    where
      first : load_config p project d ≡ (ret p.default, made d text)
      first =
          bind_ret (get_config_file_path p project) (load_from p project) {s = d}
            (path-created d text h)
          ∙ ap (λ (b : Bool). load_checked p project (user_path_of dir) b (with_dir d))
              (exists_file-with_dir d h.no_file)
          ∙ bind_ret (create_config p project (user_path_of dir))
              (λ _. load_config_file p (user_path_of dir)) {s = with_dir d}
              (config-created d text h)
          ∙ file-loaded (made d text) (user_path_of dir) (content-made d text) h.readable
          ∙ ap (λ (c : T). (ret c, made d text)) (parsed-default d text h)

      later : load_config p project (made d text) ≡ (ret p.default, made d text)
      later =
          load_config-present (made d text) text text (exists_listed (made d text) d.dirs)
            (content-made d text) h.readable
          ∙ ap (λ (c : T). (ret c, made d text)) (parsed-default d text h)
