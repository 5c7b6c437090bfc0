-- ===== src/Fmt/Placeholders/Templates.antt =====
-- shared/fmt.rs: what the substitution makes of a format, seen as texts and placeholders.
use Prim.Native.Char.{code, Char}
use Prim.Native.String.{[], ◌∷◌}
use swayr.Base.{
  ap, ◌∙◌, ◌≡◌, ◌≢◌, refl, ℕ, suc, ◌-◌, ◌+◌, Bool, true, false, Option, none, some, String, List,
  nat_beq, unwrap_or, string_eq, ◌==◌, arith, Bool-cases, beq→eq, inl, inr,
}
use text.Mathlib.TextLemmas.{nil-append, cons-append}
use swayr.Base.Texts.{◌<>◌}
use swayr.Fmt.{Floats, FmtArg, count, take, rt_format, maybe_html_escape}
use swayr.Fmt.Laws.{count-append}
use swayr.Fmt.Placeholders.{
  take_until, is_brace, is_brace_or_colon, after, Captures, match_clip, match_inner, match_format,
  match_suffix, close, match_name, captures_at, replace_from, replacement, expand,
  subst_placeholders,
}

-- No character of the text passes the test.
abbrev pub Avoids : (ℕ → Bool) → String → Type 0
Avoids stops [] = Unit
Avoids stops (c ∷ s) = (stops (code c) ≡ false) × Avoids stops s

-- `{name}`, or `{name:{fmt}clip}`.
pub record Hole : Type 0 where
  pub name : String
  pub suffix : Option (String × String)

pub data Segment : Type 0 where
  literal : String → Segment
  hole : Hole → Segment

abbrev tail_onto : Option (String × String) → String → String
tail_onto none rest = "}" ∷ rest
tail_onto (some (fmt, clip)) rest = ":" ∷ "{" ∷ (fmt <> ("}" ∷ (clip <> ("}" ∷ rest))))

abbrev hole_onto : Hole → String → String
hole_onto h rest = "{" ∷ (h.name <> tail_onto h.suffix rest)

-- The format, written out.
abbrev pub written : List Segment → String
written List.[] = ""
written (List.◌∷◌ (literal w) l) = w <> written l
written (List.◌∷◌ (hole h) l) = hole_onto h (written l)

abbrev IsSuffix : Option (String × String) → Type 0
IsSuffix none = Unit
IsSuffix (some (fmt, clip)) = Avoids is_brace fmt × Avoids is_brace clip

abbrev pub IsHole : Hole → Type 0
IsHole h = (h.name ≢ "") × Avoids is_brace_or_colon h.name × IsSuffix h.suffix

abbrev IsSegment : Segment → Type 0
IsSegment (literal w) = Avoids (λ c. nat_beq c b'{') w
IsSegment (hole h) = IsHole h

abbrev pub IsTemplate : List Segment → Type 0
IsTemplate List.[] = Unit
IsTemplate (List.◌∷◌ x l) = IsSegment x × IsTemplate l

take_until-append :
    (stops : ℕ → Bool) (w : String) (c : Char) (rest : String)
    → Avoids stops w
    → stops (code c) ≡ true
    → take_until stops (w <> (c ∷ rest)) ≡ (w, c ∷ rest)
unfolding take_until
take_until-append stops [] c rest h e = rw (nil-append, e) refl
take_until-append stops (d ∷ w) c rest h e =
    rw (cons-append, h.0, take_until-append stops w c rest h.1 e) refl

take-append : (w : String) (k : ℕ) (s : String) → take (count w + k) (w <> s) ≡ w <> take k s
take-append [] k s = let e : 0 + k ≡ k = omega arith in rw (e, nil-append, nil-append) refl
take-append (c ∷ w) k s =
    let e : suc (count w) + k ≡ suc (count w + k) = omega arith in
    rw (e, cons-append, cons-append) (ap (λ (t : String). c ∷ t) (take-append w k s))

pass :
    (f : Captures → String → String) (w : String) (k : ℕ) (s : String)
    → replace_from f (count w + k) (w <> s) ≡ replace_from f k s
unfolding replace_from
pass f [] k s = let e : 0 + k ≡ k = omega arith in rw (e, nil-append) refl
pass f (c ∷ w) k s =
    let e : suc (count w) + k ≡ suc (count w + k) = omega arith in
    rw (e, cons-append) (pass f w k s)

captures_at-none :
    (c : Char) (s : String) → nat_beq (code c) b'{' ≡ false → captures_at (c ∷ s) ≡ none
unfolding captures_at after
captures_at-none c s e = rw (e, captures_at, after) refl

copy_one :
    (f : Captures → String → String) (c : Char) (s : String)
    → captures_at (c ∷ s) ≡ none
    → replace_from f 0 (c ∷ s) ≡ c ∷ replace_from f 0 s
unfolding replace_from
copy_one f c s e = rw (e, replace_from) refl

-- A text without `{` is copied.
copy :
    (f : Captures → String → String) (w s : String)
    → Avoids (λ c. nat_beq c b'{') w
    → replace_from f 0 (w <> s) ≡ w <> replace_from f 0 s
copy f [] s h = rw (nil-append, nil-append) refl
copy f (c ∷ w) s h =
    rw (cons-append, cons-append)
      (copy_one f c (w <> s) (captures_at-none c (w <> s) h.0)
        ∙ ap (λ (t : String). c ∷ t) (copy f w s h.1))

-- The number of characters of a placeholder behind its first one.
tail_length : Option (String × String) → ℕ
tail_length none = 1
tail_length (some (fmt, clip)) = suc (suc (count fmt + suc (count clip + 1)))

abbrev hole_length : Hole → ℕ
hole_length h = suc (count h.name + tail_length h.suffix)

abbrev fmt_of : Option (String × String) → Option String
fmt_of none = none
fmt_of (some (fmt, clip)) = some ("{" <> fmt <> "}")

abbrev clip_of : Option (String × String) → Option String
clip_of none = none
clip_of (some (fmt, clip)) = some clip

count-tail_onto :
    (x : Option (String × String)) (rest : String)
    → count (tail_onto x rest) ≡ tail_length x + count rest
unfolding tail_length
count-tail_onto none rest = omega arith
count-tail_onto (some (fmt, clip)) rest =
    omega (arith, count-append fmt ("}" ∷ (clip <> ("}" ∷ rest))), count-append clip ("}" ∷ rest))

count-hole_onto : (h : Hole) (rest : String) → count (hole_onto h rest) ≡ hole_length h + count rest
count-hole_onto h rest =
    omega (arith, count-append h.name (tail_onto h.suffix rest), count-tail_onto h.suffix rest)

match_clip-append :
    (fmt clip rest : String)
    → Avoids is_brace clip
    → match_clip fmt (clip <> ("}" ∷ rest)) ≡ some (some ("{" <> fmt <> "}"), some clip, "}" ∷ rest)
unfolding match_clip
match_clip-append fmt clip rest h =
    rw (take_until-append is_brace clip "}" rest h refl, match_clip) refl

match_format-append :
    (fmt clip rest : String)
    → Avoids is_brace fmt
    → match_format (fmt <> ("}" ∷ (clip <> ("}" ∷ rest)))) ≡ match_clip fmt (clip <> ("}" ∷ rest))
unfolding match_format after
match_format-append fmt clip rest h =
    ap match_inner (take_until-append is_brace fmt "}" (clip <> ("}" ∷ rest)) h refl)

match_suffix-tail_onto :
    (x : Option (String × String)) (rest : String)
    → IsSuffix x
    → match_suffix (tail_onto x rest) ≡ some (fmt_of x, clip_of x, "}" ∷ rest)
unfolding match_suffix after
match_suffix-tail_onto none rest h = refl
match_suffix-tail_onto (some (fmt, clip)) rest h =
    match_format-append fmt clip rest h.0 ∙ match_clip-append fmt clip rest h.1

take_until-name :
    (w : String) (x : Option (String × String)) (rest : String)
    → Avoids is_brace_or_colon w
    → take_until is_brace_or_colon (w <> tail_onto x rest) ≡ (w, tail_onto x rest)
take_until-name w none rest h = take_until-append is_brace_or_colon w "}" rest h refl
take_until-name w (some (fmt, clip)) rest h =
    take_until-append is_brace_or_colon w ":" ("{" ∷ (fmt <> ("}" ∷ (clip <> ("}" ∷ rest))))) h refl

not_empty : (w : String) → w ≢ "" → (w == "") ≡ false
not_empty w h = elim (Bool-cases (w == "")) [ inl e ↦ absurd (h (beq→eq w "" e)) | inr e ↦ e ]

captures_of : Hole → Captures
captures_of h = record {
  length = hole_length h;
  name = h.name;
  fmtstr = fmt_of h.suffix;
  clipstr = clip_of h.suffix;
}

-- The expression matches a placeholder that is written out, and captures its parts.
captures_at-hole_onto :
    (h : Hole) (rest : String) → IsHole h → captures_at (hole_onto h rest) ≡ some (captures_of h)
unfolding captures_at match_name close after captures_of
captures_at-hole_onto h rest p =
    let e : count (hole_onto h rest) - count rest ≡ hole_length h =
      omega (arith, count-hole_onto h rest) in
    rw (take_until-name h.name h.suffix rest p.1) (
      rw (not_empty h.name p.0, match_suffix-tail_onto h.suffix rest p.2)
        (ap (λ (n : ℕ). some (record (captures_of h) { length = n })) e))

-- The characters of a placeholder that is written out.
take-tail_onto :
    (x : Option (String × String)) (rest : String)
    → take (tail_length x) (tail_onto x rest) ≡ tail_onto x ""
unfolding tail_length
take-tail_onto none rest = refl
take-tail_onto (some (fmt, clip)) rest =
    ap (λ (t : String). ":" ∷ "{" ∷ t)
      (take-append fmt (suc (count clip + 1)) ("}" ∷ (clip <> ("}" ∷ rest)))
        ∙ ap (λ (t : String). fmt <> ("}" ∷ t)) (take-append clip 1 ("}" ∷ rest)))

take-hole_onto :
    (h : Hole) (rest : String) → take (hole_length h) (hole_onto h rest) ≡ hole_onto h ""
take-hole_onto h rest =
    ap (λ (t : String). "{" ∷ t)
      (take-append h.name (tail_length h.suffix) (tail_onto h.suffix rest)
        ∙ ap (λ (t : String). h.name <> t) (take-tail_onto h.suffix rest))

pass_tail :
    (f : Captures → String → String) (x : Option (String × String)) (rest : String)
    → replace_from f (tail_length x) (tail_onto x rest) ≡ replace_from f 0 rest
unfolding tail_length replace_from
pass_tail f none rest = refl
pass_tail f (some (fmt, clip)) rest =
    pass f fmt (suc (count clip + 1)) ("}" ∷ (clip <> ("}" ∷ rest))) ∙ pass f clip 1 ("}" ∷ rest)

replace_one :
    (f : Captures → String → String) (c : Char) (s : String) {caps : Captures}
    → captures_at (c ∷ s) ≡ some caps
    → replace_from f 0 (c ∷ s) ≡ f caps (c ∷ s) <> replace_from f (caps.length - 1) s
unfolding replace_from
replace_one f c s e = rw (e, replace_from) refl

replace-hole_onto :
    (f : Captures → String → String) (h : Hole) (rest : String)
    → IsHole h
    → replace_from f 0 (hole_onto h rest)
      ≡ f (captures_of h) (hole_onto h rest) <> replace_from f 0 rest
unfolding captures_of
replace-hole_onto f h rest p =
    let tail = h.name <> tail_onto h.suffix rest in
    let n = count h.name + tail_length h.suffix in
    let e : suc n - 1 ≡ n = omega arith in
    replace_one f "{" tail (captures_at-hole_onto h rest p)
    ∙ ap (λ (t : String). f (captures_of h) (hole_onto h rest) <> t)
        (ap (λ (k : ℕ). replace_from f k tail) e
          ∙ pass f h.name (tail_length h.suffix) (tail_onto h.suffix rest)
          ∙ pass_tail f h.suffix rest)

module _ {fl : Floats} (format : String → FmtArg fl → Option String) (html_escape : Bool)
    (args : String → Option (FmtArg fl)) where
  abbrev shown_as : Option (FmtArg fl) → Hole → String
  shown_as none h = hole_onto h ""
  shown_as (some val) h =
      maybe_html_escape html_escape
        (rt_format format (unwrap_or (fmt_of h.suffix) "{}") val (unwrap_or (clip_of h.suffix) ""))

  -- What stands in the text for a placeholder. A name that is not known stays as it is written.
  abbrev pub value_of : Hole → String
  value_of h = shown_as (args h.name) h

  abbrev pub filled : List Segment → String
  filled List.[] = ""
  filled (List.◌∷◌ (literal w) l) = w <> filled l
  filled (List.◌∷◌ (hole h) l) = value_of h <> filled l

  replacement-shown :
      (o : Option (FmtArg fl)) (h : Hole) (rest : String)
      → replacement format html_escape o (captures_of h) (hole_onto h rest) ≡ shown_as o h
  unfolding replacement captures_of
  replacement-shown none h rest = take-hole_onto h rest
  replacement-shown (some val) h rest = refl

  expand-hole :
      (h : Hole) (rest : String)
      → expand format html_escape args (captures_of h) (hole_onto h rest) ≡ value_of h
  unfolding expand captures_of
  expand-hole h rest = replacement-shown (args h.name) h rest

  -- On a format that is written with texts and placeholders, where no text has an opening brace, no
  -- name is empty or has a colon or a closing brace, and no value format or clipping mark has a closing
  -- brace, the substitution copies the texts and puts the value of each placeholder in its place, once.
  -- A placeholder with an unknown name stays.
  pub subst_placeholders-written :
      (l : List Segment)
      → IsTemplate l
      → subst_placeholders format (written l) html_escape args ≡ filled l
  unfolding subst_placeholders replace_from
  subst_placeholders-written List.[] h = refl
  subst_placeholders-written (List.◌∷◌ (literal w) l) h =
      copy (expand format html_escape args) w (written l) h.0
      ∙ ap (λ (t : String). w <> t) (subst_placeholders-written l h.1)
  subst_placeholders-written (List.◌∷◌ (hole x) l) h =
      replace-hole_onto (expand format html_escape args) x (written l) h.0
      ∙ ap (λ (t : String). t <> subst_placeholders format (written l) html_escape args)
          (expand-hole x (written l))
      ∙ ap (λ (t : String). value_of x <> t) (subst_placeholders-written l h.1)
