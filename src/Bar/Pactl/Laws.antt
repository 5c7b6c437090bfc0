-- ===== src/Bar/Pactl/Laws.antt =====
-- swayrbar/src/module/pactl.rs: the volume is a byte, or reading it panics.
use Prim.Native.Char.{code}
use Prim.Native.String.{[], ◌∷◌}
use swayr.Base.{
  ◌≡◌, refl, ap, ◌∙◌, ◌≤◌, ◌<◌, ◌+◌, ◌*◌, ◌-◌, ℕ, none, some, String, ret, panic, leb, leb→le,
  leb_false→lt, if◌then◌else◌, arith, Bool-cases, inl, inr,
}
use swayr.Bar.Outside.{Crates}
use swayr.Bar.Pactl.{parse_digits, unwrapped, volume_from, volume_rx, volume_of}

-- ASCII digits.
abbrev IsDigits : String → Type 0
IsDigits [] = Unit
IsDigits (d ∷ s) = (b'0' ≤ code d) × (code d ≤ b'9') × IsDigits s

-- The number that digits stand for, behind others.
abbrev pub number : ℕ → String → ℕ
number acc [] = acc
number acc (d ∷ s) = number (acc * 10 + (code d - b'0')) s

number-ge : (s : String) (acc : ℕ) → acc ≤ number acc s
number-ge [] acc = omega arith
number-ge (d ∷ s) acc = omega (arith, number-ge s (acc * 10 + (code d - b'0')))

parse_digits-small :
    (s : String) (acc : ℕ)
    → IsDigits s
    → number acc s ≤ 255
    → parse_digits acc s ≡ some (number acc s)
unfolding parse_digits
parse_digits-small [] acc h le = refl
parse_digits-small (d ∷ s) acc h le =
    let big = number-ge s (acc * 10 + (code d - b'0')) in
    let ih = parse_digits-small s (acc * 10 + (code d - b'0')) h.2 le in ground (arith, big, ih)

parse_digits-large :
    (s : String) (acc : ℕ) → acc ≤ 255 → 255 < number acc s → parse_digits acc s ≡ none
unfolding parse_digits
parse_digits-large [] acc le h = absurd (omega arith)
parse_digits-large (d ∷ s) acc le h = elim (Bool-cases (leb (acc * 10 + (code d - b'0')) 255)) [
  | inl e ↦ ground (arith, parse_digits-large s (acc * 10 + (code d - b'0')) (leb→le _ _ e) h)
  | inr e ↦ ground (arith, e)
]

-- Where the output has a percentage of ASCII digits, the volume is the number that they write, if that
-- fits a byte. A larger number makes the module panic.
pub volume_of-digits :
    (c : Crates) (output digits : String)
    → volume_rx c output ≡ some digits
    → IsDigits digits
    → volume_of c output ≡ (
        if leb (number 0 digits) 255
        then ret (number 0 digits)
        else panic "called `Result::unwrap()` on an `Err` value")
unfolding volume_of volume_from
volume_of-digits c output digits e h = ap volume_from e ∙ go
  where
    go : unwrapped (parse_digits 0 digits) ≡ (
        if leb (number 0 digits) 255
        then ret (number 0 digits)
        else panic "called `Result::unwrap()` on an `Err` value")
    go = elim (Bool-cases (leb (number 0 digits) 255)) [
      | inl le ↦ rw le (ap unwrapped (parse_digits-small digits 0 h (leb→le _ _ le)))
      | inr gt ↦
          rw gt (ap unwrapped (parse_digits-large digits 0 (omega arith) (leb_false→lt _ _ gt)))
    ]
