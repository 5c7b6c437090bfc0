-- ===== src/Bar/Nmcli/Laws.antt =====
-- swayrbar/src/module/nmcli.rs: the network in use is read off the list that `nmcli` prints.
use Prim.Native.Char.{code, Char}
use Prim.Native.String.{[], ◌∷◌}
use swayr.Base.{
  ◌≡◌, refl, ap, ◌∙◌, ℕ, Bool, true, false, Option, none, some, String, List, map, ◌++◌, All,
  Option-cases, inl, inr, find, find-All, ret, nat_beq, string_eq, if◌then◌else◌,
}
use text.Mathlib.TextLemmas.{nil-append, cons-append}
use swayr.Base.Texts.{◌<>◌, split}
use swayr.Fmt.Placeholders.Templates.{Avoids}
use swayr.Bar.Nmcli.{
  State, split, strip_cr, as_lines, lines, starts_with_star, take_parts, cleared, read_line,
  read_output,
}

-- A line of `nmcli -g IN-USE,SSID,SIGNAL,BARS`.
pub record Network : Type 0 where
  pub in_use : Bool
  pub ssid : String
  pub signal : String
  pub bars : String

-- No colon and no end of a line.
abbrev IsField : String → Type 0
IsField s =
    Avoids (λ c. nat_beq c b':') s
    × Avoids (λ c. nat_beq c b'\n') s
    × Avoids (λ c. nat_beq c b'\r') s

abbrev pub IsNetwork : Network → Type 0
IsNetwork n = IsField n.ssid × IsField n.signal × IsField n.bars

abbrev mark : Network → Char
mark n = if n.in_use then "*" else " "

abbrev line : Network → String
line n = mark n ∷ ":" ∷ (n.ssid <> (":" ∷ (n.signal <> (":" ∷ n.bars))))

abbrev pub printed : List Network → String
printed List.[] = ""
printed (List.◌∷◌ n l) = line n <> ("\n" ∷ printed l)

-- What the state tells of the network in use.
abbrev pub tells : Option Network → State → State
tells none state = cleared state
tells (some n) state = record state {
  name = some n.ssid;
  signal = some n.signal;
  bars = some n.bars;
}

Avoids-append :
    (stops : ℕ → Bool) (s t : String) → Avoids stops s → Avoids stops t → Avoids stops (s <> t)
Avoids-append stops [] t hs ht = rw nil-append ht
Avoids-append stops (c ∷ s) t hs ht = rw cons-append (hs.0, Avoids-append stops s t hs.1 ht)

mark-ne :
    (k : ℕ) (n : Network)
    → nat_beq b'*' k ≡ false
    → nat_beq b' ' k ≡ false
    → nat_beq (code (mark n)) k ≡ false
mark-ne k n star space = go n.in_use
  where
    go : (b : Bool) → nat_beq (code (if b then "*" else " ")) k ≡ false
    go true = star
    go false = space

-- The line avoids an end of a line if the fields do.
line-Avoids :
    (k : ℕ) (n : Network)
    → Avoids (λ c. nat_beq c k) n.ssid
    → Avoids (λ c. nat_beq c k) n.signal
    → Avoids (λ c. nat_beq c k) n.bars
    → nat_beq b':' k ≡ false
    → nat_beq (code (mark n)) k ≡ false
    → Avoids (λ c. nat_beq c k) (line n)
line-Avoids k n hs hg hb colon first = (
  first,
  (
    colon,
    Avoids-append (λ c. nat_beq c k) n.ssid (":" ∷ (n.signal <> (":" ∷ n.bars))) hs
        (colon, Avoids-append (λ c. nat_beq c k) n.signal (":" ∷ n.bars) hg (colon, hb)),
  ),
)

split-append :
    (k : ℕ) (w : String) (c : Char) (rest : String)
    → Avoids (λ d. nat_beq d k) w
    → nat_beq (code c) k ≡ true
    → split k (w <> (c ∷ rest)) ≡ List.◌∷◌ w (split k rest)
unfolding split
split-append k [] c rest h e = rw (nil-append, e) refl
split-append k (d ∷ w) c rest h e = rw (cons-append, h.0, split-append k w c rest h.1 e) refl

split-Avoids : (k : ℕ) (w : String) → Avoids (λ d. nat_beq d k) w → split k w ≡ List.◌∷◌ w List.[]
unfolding split
split-Avoids k [] h = refl
split-Avoids k (d ∷ w) h = rw (h.0, split-Avoids k w h.1) refl

strip_cr-Avoids : (w : String) → Avoids (λ d. nat_beq d b'\r') w → strip_cr w ≡ w
unfolding strip_cr
strip_cr-Avoids [] h = refl
strip_cr-Avoids (c ∷ []) h = rw (h.0) refl
strip_cr-Avoids (c ∷ d ∷ s) h = ap (λ (t : String). c ∷ t) (strip_cr-Avoids (d ∷ s) h.1)

abbrev pair : String → List String → List String
pair s l = List.◌∷◌ s l

split-line :
    (n : Network)
    → IsNetwork n
    → split b':' (line n) ≡ pair (mark n ∷ []) (pair n.ssid (pair n.signal (pair n.bars List.[])))
unfolding split
split-line n h = rw (mark-ne b':' n refl refl) (
    ap (pair (mark n ∷ [])) (
      split-append b':' n.ssid ":" (n.signal <> (":" ∷ n.bars)) h.0.0 refl
      ∙ ap (pair n.ssid) (
          split-append b':' n.signal ":" n.bars h.1.0 refl
          ∙ ap (pair n.signal) (split-Avoids b':' n.bars h.2.0))))

line-newline : (n : Network) → IsNetwork n → Avoids (λ c. nat_beq c b'\n') (line n)
line-newline n h = line-Avoids b'\n' n h.0.1 h.1.1 h.2.1 refl (mark-ne b'\n' n refl refl)

line-return : (n : Network) → IsNetwork n → Avoids (λ c. nat_beq c b'\r') (line n)
line-return n h = line-Avoids b'\r' n h.0.2 h.1.2 h.2.2 refl (mark-ne b'\r' n refl refl)

split-printed :
    (l : List Network) → All IsNetwork l → split b'\n' (printed l) ≡ map line l ++ pair "" List.[]
unfolding split
split-printed List.[] h = refl
split-printed (List.◌∷◌ n l) h =
    split-append b'\n' (line n) "\n" (printed l) (line-newline n h.0) refl
    ∙ ap (pair (line n)) (split-printed l h.1)

as_lines-lines :
    (l : List Network) → All IsNetwork l → as_lines (map line l ++ pair "" List.[]) ≡ map line l
unfolding as_lines
as_lines-lines List.[] h = refl
as_lines-lines (List.◌∷◌ n List.[]) h =
    ap (λ (s : String). pair s List.[]) (strip_cr-Avoids (line n) (line-return n h.0))
as_lines-lines (List.◌∷◌ n (List.◌∷◌ m l)) h =
    ap (λ (s : String). pair s (as_lines (map line (List.◌∷◌ m l) ++ pair "" List.[])))
      (strip_cr-Avoids (line n) (line-return n h.0))
    ∙ ap (pair (line n)) (as_lines-lines (List.◌∷◌ m l) h.1)

abbrev line_of : Option Network → Option String
line_of none = none
line_of (some n) = some (line n)

find-line :
    (l : List Network) → find starts_with_star (map line l) ≡ line_of (find (λ n. n.in_use) l)
find-line List.[] = refl
find-line (List.◌∷◌ n l) = go n.in_use (find-line l)
  where
    go :
        (b : Bool)
        → find starts_with_star (map line l) ≡ line_of (find (λ n. n.in_use) l)
        → (if nat_beq (code (if b then "*" else " ")) b'*'
            then some (line n)
            else find starts_with_star (map line l))
          ≡ line_of (if b then some n else find (λ n. n.in_use) l)
    go true ih = refl
    go false ih = ih

find-IsNetwork :
    (l : List Network) (state : State)
    → All IsNetwork l
    → read_line (line_of (find (λ n. n.in_use) l)) (cleared state)
      ≡ ret (tells (find (λ n. n.in_use) l) state)
unfolding read_line take_parts
find-IsNetwork l state h = elim (Option-cases (find (λ n. n.in_use) l)) [
  | inl e ↦ rw e refl
  | inr (n, e) ↦ rw e (
      ap (λ (w : List String). take_parts w (cleared state))
        (split-line n (find-All IsNetwork (λ m. m.in_use) l h e)))
]

-- Of the list that `nmcli` prints the module takes the name, the signal and the bars of the first network
-- in use, or none if no network is, provided that no field holds a colon or an end of a line.
pub read_output-printed :
    (l : List Network) (state : State)
    → All IsNetwork l
    → read_output (printed l) state ≡ ret (tells (find (λ n. n.in_use) l) state)
unfolding read_output lines
read_output-printed l state h =
    ap (λ (w : List String). read_line (find starts_with_star (as_lines w)) (cleared state))
      (split-printed l h)
    ∙ ap (λ (w : List String). read_line (find starts_with_star w) (cleared state))
        (as_lines-lines l h)
    ∙ ap (λ (o : Option String). read_line o (cleared state)) (find-line l)
    ∙ find-IsNetwork l state h
