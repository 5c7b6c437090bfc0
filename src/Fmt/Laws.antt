-- ===== src/Fmt/Laws.antt =====
-- shared/fmt.rs: how long a clipped text is, and what the escaping does to each character.
use Prim.Native.Char.{code, Char}
use Prim.Native.String.{[], ◌∷◌}
use swayr.Base.{
  sym, ap, ◌∙◌, ℕ, zero, suc, ◌-◌, ◌+◌, ◌≤◌, Bool, true, false, not, ◌&&◌, Option, some, String,
  nat_beq, ltb, if◌then◌else◌, string_eq, ◌==◌, ◌≡◌, refl, arith, Bool-cases, inl, inr,
}
use text.Mathlib.TextLemmas.{nil-append, cons-append, append_assoc}
use swayr.Base.Texts.{◌<>◌}
use swayr.Fmt.{
  Floats, FmtArg, to_string, clip_or_report, count, take, remove_last_n_chars, contains_text, clip,
  rt_format, replace, maybe_html_escape,
}

pub count-append : (s t : String) → count (s <> t) ≡ count s + count t
count-append [] t = rw nil-append (omega arith)
count-append (c ∷ s) t = rw cons-append (omega (arith, count-append s t))

count-take : (n : ℕ) (s : String) → n ≤ count s → count (take n s) ≡ n
count-take zero s h = refl
count-take (suc n) [] h = omega (arith, h)
count-take (suc n) (c ∷ s) h = omega (arith, count-take n s (omega (arith, h)))

-- What each character becomes.
abbrev escaped : Char → String
escaped c =
    if nat_beq (code c) b'<'
    then "&amp;lt;"
    else if nat_beq (code c) b'>'
    then "&amp;gt;"
    else if nat_beq (code c) b'&'
    then "&amp;"
    else (c ∷ [])

abbrev pub escape_each : String → String
escape_each [] = []
escape_each (c ∷ s) = escaped c <> escape_each s

replace-append : (c : ℕ) (t a b : String) → replace c t (a <> b) ≡ replace c t a <> replace c t b
unfolding replace
replace-append c t [] b = ap (replace c t) (nil-append b) ∙ sym (nil-append (replace c t b))
replace-append c t (d ∷ a) b =
    rw (cons-append, replace-append c t a b)
      (elim (Bool-cases (nat_beq (code d) c)) [
        | inl e ↦ rw (e, append_assoc) refl
        | inr e ↦ rw (e, cons-append) refl
      ])

abbrev escape : String → String
escape s = replace b'&' "&amp;" (replace b'>' "&gt;" (replace b'<' "&lt;" s))

escape-single : (c : Char) (t : String) → (c ∷ []) <> t ≡ c ∷ t
escape-single c t = cons-append c [] t ∙ ap (λ (u : String). c ∷ u) (nil-append t)

escape-cons : (c : Char) (s : String) → escape (c ∷ s) ≡ escaped c <> escape s
unfolding replace
escape-cons c s = elim (Bool-cases (nat_beq (code c) b'<')) [
  | inl l ↦ rw l (
      ap (replace b'&' "&amp;") (replace-append b'>' "&gt;" "&lt;" (replace b'<' "&lt;" s))
      ∙ replace-append b'&' "&amp;" "&lt;" (replace b'>' "&gt;" (replace b'<' "&lt;" s)))
  | inr l ↦ elim (Bool-cases (nat_beq (code c) b'>')) [
    | inl g ↦
        rw (l, g) (replace-append b'&' "&amp;" "&gt;" (replace b'>' "&gt;" (replace b'<' "&lt;" s)))
    | inr g ↦ elim (Bool-cases (nat_beq (code c) b'&')) [
      | inl a ↦ rw (l, g, a) refl
      | inr a ↦ rw (l, g, a) (sym (escape-single c (escape s)))
    ]
  ]
]

-- Escaping works character by character, but the `&` of the entity that is written for `<` or `>` is
-- escaped again.
pub maybe_html_escape_lem : (s : String) → maybe_html_escape true s ≡ escape_each s
unfolding maybe_html_escape replace
maybe_html_escape_lem [] = refl
maybe_html_escape_lem (c ∷ s) =
    escape-cons c s ∙ ap (λ (t : String). escaped c <> t) (maybe_html_escape_lem s)

remove_last-count :
    (s : String) (n : ℕ) → n ≤ count s → count (remove_last_n_chars s n) + n ≡ count s
unfolding remove_last_n_chars
remove_last-count s n h = elim (Bool-cases (ltb n (count s))) [
  | inl l ↦ rw l (omega (arith, count-take (count s - n) s (omega arith)))
  | inr l ↦ rw l (ground (arith, l, h))
]

clip-count : (s arg mark : String) → count mark ≤ count s → count (clip s arg mark) ≡ count s
unfolding clip
clip-count s arg mark h = go (not (mark == "") && not (contains_text s arg))
  where
    go : (b : Bool) → count (if b then remove_last_n_chars s (count mark) <> mark else s) ≡ count s
    go true = omega (
      arith,
      count-append (remove_last_n_chars s (count mark)) mark,
      remove_last-count s (count mark) h,
    )
    go false = refl

module _ {fl : Floats} (format : String → FmtArg fl → Option String) where
  rt_format-clip :
      (fmt : String) (arg : FmtArg fl) (mark : String) {s : String}
      → format fmt arg ≡ some s
      → rt_format format fmt arg mark ≡ clip s (to_string arg) mark
  unfolding rt_format clip_or_report
  rt_format-clip fmt arg mark e =
      ap (λ (o : Option String). clip_or_report o fmt (to_string arg) mark) e

  -- With a valid format whose text is not shorter than the clipping mark, the result is exactly as
  -- long as that text: the mark takes the place of as many characters at the end.
  rt_format-count :
      (fmt : String) (arg : FmtArg fl) (mark : String) {s : String}
      → format fmt arg ≡ some s
      → count mark ≤ count s
      → count (rt_format format fmt arg mark) ≡ count s
  rt_format-count fmt arg mark {s} e h =
      ap count (rt_format-clip fmt arg mark e) ∙ clip-count s (to_string arg) mark h
