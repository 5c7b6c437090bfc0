-- ===== src/Fmt.antt =====
-- swayr/src/shared/fmt.rs: `FmtArg`, `rt_format`, `remove_last_n_chars` and `maybe_html_escape`. The
-- floats, and the crate that formats a value, are parameters.
pub mod Laws
pub mod Placeholders
use Prim.Native.Char.{code, Char}
use Prim.Native.String.{[], ◌∷◌}
use swayr.Base.{
  ℕ, ℤ, zero, suc, ◌-◌, Bool, true, false, not, ◌&&◌, ◌||◌, Option, none, some, String, nat_beq,
  ltb, if◌then◌else◌, string_eq, ◌==◌,
}
use swayr.Base.Texts.{◌<>◌, show_int, show_nat}

-- The floats of Rust, as far as they are printed.
pub record Floats : Type 1 where
  pub F32 : Type 0
  pub F64 : Type 0
  pub show_f32 : F32 → String
  pub show_f64 : F64 → String

pub data FmtArg (fl : Floats) : Type 0 where
  i64 : ℤ → FmtArg fl
  i32 : ℤ → FmtArg fl
  u8 : ℕ → FmtArg fl
  f64 : fl.F64 → FmtArg fl
  f32 : fl.F32 → FmtArg fl
  string : String → FmtArg fl

unfoldable pub to_string : {fl : Floats} → FmtArg fl → String
to_string (string x) = x
to_string (i64 x) = show_int x
to_string (i32 x) = show_int x
to_string (u8 x) = show_nat x
to_string {fl} (f64 x) = fl.show_f64 x
to_string {fl} (f32 x) = fl.show_f32 x

-- `s.chars().count()`.
abbrev pub count : String → ℕ
count [] = 0
count (c ∷ s) = suc (count s)

abbrev pub take : ℕ → String → String
take zero s = []
take (suc n) [] = []
take (suc n) (c ∷ s) = c ∷ take n s

-- `nth_back(n)` is there if the text has more than `n` characters, and ends what is kept.
unfoldable pub remove_last_n_chars : String → ℕ → String
remove_last_n_chars s n = if ltb n (count s) then take (count s - n) s else ""

starts_with : String → String → Bool
starts_with [] s = true
starts_with (c ∷ p) [] = false
starts_with (c ∷ p) (d ∷ s) = nat_beq (code c) (code d) && starts_with p s

-- `str::contains`.
unfoldable pub contains_text : String → String → Bool
unfolding starts_with
contains_text [] p = starts_with p []
contains_text (c ∷ s) p = starts_with p (c ∷ s) || contains_text s p

unfoldable pub clip : String → String → String → String
unfolding contains_text remove_last_n_chars
clip s arg_string clipped_str =
    if not (clipped_str == "") && not (contains_text s arg_string)
    then remove_last_n_chars s (count clipped_str) <> clipped_str
    else s

unfoldable pub clip_or_report : Option String → String → String → String → String
unfolding clip
clip_or_report (some s) fmt arg clipped_str = clip s arg clipped_str
clip_or_report none fmt arg clipped_str = "Invalid format string: " <> fmt

-- `format fmt arg` is the text that the crate makes with a valid format.
unfoldable pub rt_format :
    {fl : Floats} → (String → FmtArg fl → Option String) → String → FmtArg fl → String → String
unfolding clip_or_report to_string
rt_format format fmt arg clipped_str =
    clip_or_report (format fmt arg) fmt (to_string arg) clipped_str

-- `str::replace` of a character.
unfoldable pub replace : ℕ → String → String → String
replace c t [] = []
replace c t (d ∷ s) = let rest = replace c t s in if nat_beq (code d) c then t <> rest else d ∷ rest

unfoldable pub maybe_html_escape : Bool → String → String
unfolding replace
maybe_html_escape do_it text =
    if do_it then replace b'&' "&amp;" (replace b'>' "&gt;" (replace b'<' "&lt;" text)) else text
