-- ===== src/Fmt/Placeholders.antt =====
-- swayr/src/shared/fmt.rs: `PLACEHOLDER_RX` and the macro `subst_placeholders`. The expression has at
-- most one match at a place, since each of its repetitions ends at a character it cannot contain.
pub mod Templates
use Prim.Native.Char.{code}
use Prim.Native.String.{[], ◌∷◌}
use swayr.Base.{
  ℕ, zero, suc, ◌-◌, Bool, ◌||◌, Option, none, some, String, nat_beq, if◌then◌else◌, unwrap_or,
  string_eq, ◌==◌,
}
use swayr.Base.Texts.{◌<>◌}
use swayr.Fmt.{Floats, FmtArg, count, take, rt_format, maybe_html_escape}

-- What `[^...]*` takes from the front of a text, and what is left.
unfoldable pub take_until : (ℕ → Bool) → String → String × String
take_until stops [] = ("", "")
take_until stops (c ∷ s) =
    let (taken, left) = take_until stops s in
    if stops (code c) then ("", c ∷ s) else (c ∷ taken, left)

abbrev pub is_brace : ℕ → Bool
is_brace c = nat_beq c b'}'

abbrev pub is_brace_or_colon : ℕ → Bool
is_brace_or_colon c = nat_beq c b'}' || nat_beq c b':'

-- The rest of a text behind a given character at its front.
unfoldable pub after : ℕ → String → Option String
after k [] = none
after k (c ∷ s) = if nat_beq (code c) k then some s else none

-- `regex::Captures`, with the length of the match in place of its text.
pub record Captures : Type 0 where
  pub length : ℕ
  pub name : String
  pub fmtstr : Option String
  pub clipstr : Option String

-- `(?::(?P<fmtstr>\{[^}]*\})(?P<clipstr>[^}]*))?`: the groups, and what is left.
abbrev Suffix : Type 0
Suffix = Option String × Option String × String

-- From behind the first `}`.
unfoldable pub match_clip : String → String → Option Suffix
unfolding take_until after
match_clip inner s =
    let (clip, left) = take_until is_brace s in some (some ("{" <> inner <> "}"), some clip, left)

-- From behind `:{`.
unfoldable pub match_inner : String × String → Option Suffix
unfolding match_clip
match_inner (inner, left) = elim (after b'}' left) [
  | none ↦ none
  | some rest ↦ match_clip inner rest
]

unfoldable pub match_format : String → Option Suffix
unfolding match_inner
match_format s = match_inner (take_until is_brace s)

unfoldable pub match_suffix : String → Option Suffix
unfolding match_format
match_suffix s = elim (after b':' s) [
  | none ↦ some (none, none, s)
  | some t ↦ elim (after b'{' t) [ none ↦ none | some u ↦ match_format u ]
]

-- The closing `\}`; `left` ends with the text behind the match.
unfoldable pub close : String → String → Option Suffix → Option Captures
unfolding after
close s name none = none
close s name (some (fmtstr, clipstr, left)) = elim (after b'}' left) [
  | none ↦ none
  | some rest ↦
      some
        (record { length = count s - count rest; name = name; fmtstr = fmtstr; clipstr = clipstr })
]

-- From behind the first `\{`: `(?P<name>[^}:]+)` and the rest.
unfoldable pub match_name : String → String → Option Captures
unfolding match_suffix close
match_name s t =
    let (name, left) = take_until is_brace_or_colon t in
    if name == "" then none else close s name (match_suffix left)

-- `PLACEHOLDER_RX` at the front of a text.
unfoldable pub captures_at : String → Option Captures
unfolding match_name
captures_at s = elim (after b'{' s) [ none ↦ none | some t ↦ match_name s t ]

-- `Regex::replace_all`: the matches from left to right. The number is that of the characters of a match
-- that are still to be passed over.
unfoldable pub replace_from : (Captures → String → String) → ℕ → String → String
unfolding captures_at
replace_from f n [] = ""
replace_from f (suc n) (c ∷ s) = replace_from f n s
replace_from f zero (c ∷ s) = elim (captures_at (c ∷ s)) [
  | none ↦ c ∷ replace_from f 0 s
  | some caps ↦ f caps (c ∷ s) <> replace_from f (caps.length - 1) s
]

-- The macro, whose arms are `args`: a name that none of them lists stays as it is.
module _ {fl : Floats} (format : String → FmtArg fl → Option String) where
  unfoldable pub replacement : Bool → Option (FmtArg fl) → Captures → String → String
  unfolding rt_format maybe_html_escape
  replacement html_escape none caps s = take caps.length s
  replacement html_escape (some val) caps s =
      maybe_html_escape html_escape
        (rt_format format (unwrap_or caps.fmtstr "{}") val (unwrap_or caps.clipstr ""))

  unfoldable pub expand : Bool → (String → Option (FmtArg fl)) → Captures → String → String
  unfolding replacement
  expand html_escape args caps s = replacement html_escape (args caps.name) caps s

  unfoldable pub subst_placeholders : String → Bool → (String → Option (FmtArg fl)) → String
  unfolding expand replace_from
  subst_placeholders fmt_str html_escape args = replace_from (expand html_escape args) 0 fmt_str
