-- ===== src/Base/Texts.antt =====
-- `format!`, `join` and `split` on texts: appending, and printing an integer in decimal.
use Prim.Native.Char.{code, Char}
use Prim.Native.String as Text
use Prim.Native.String.{String, ◌++◌}
use Prim.Native.Nat.{ℕ, zero, suc, ◌+◌, ◌/◌, ◌%◌}
use mathlib.Core.List.{List, [], ◌∷◌}
use swayr.Base.Tests.{ltb, if◌then◌else◌}
use swayr.Base.Equal.{ℤ, pos, negsuc, nat_beq}

infixr 65 ◌<>◌
abbrev pub ◌<>◌ : String → String → String
s <> t = s ++ t

-- `[T]::join`.
abbrev pub join : String → List String → String
join sep [] = ""
join sep (s ∷ []) = s
join sep (s ∷ t ∷ l) = s <> sep <> join sep (t ∷ l)

abbrev pub push_front : Char → List String → List String
push_front c [] = Text.◌∷◌ c "" ∷ []
push_front c (w ∷ l) = Text.◌∷◌ c w ∷ l

-- `str::split` at a character.
unfoldable pub split : ℕ → String → List String
split k Text.[] = "" ∷ []
split k (Text.◌∷◌ c s) =
    let rest = split k s in if nat_beq (code c) k then "" ∷ rest else push_front c rest

digit : ℕ → String
digit zero = "0"
digit (suc zero) = "1"
digit (suc (suc zero)) = "2"
digit (suc (suc (suc zero))) = "3"
digit (suc (suc (suc (suc zero)))) = "4"
digit (suc (suc (suc (suc (suc zero))))) = "5"
digit (suc (suc (suc (suc (suc (suc zero)))))) = "6"
digit (suc (suc (suc (suc (suc (suc (suc zero))))))) = "7"
digit (suc (suc (suc (suc (suc (suc (suc (suc zero)))))))) = "8"
digit _ = "9"

-- The decimal digits, with fuel for their number; `show_nat` gives more than enough.
show_digits : ℕ → ℕ → String
show_digits zero n = ""
show_digits (suc fuel) n =
    let front = show_digits fuel (n / 10) in if ltb n 10 then digit n else front <> digit (n % 10)

unfoldable pub show_nat : ℕ → String
unfolding show_digits digit
show_nat n = show_digits (suc n) n

-- `i64::to_string`.
unfoldable pub show_int : ℤ → String
unfolding show_nat
show_int (pos n) = show_nat n
show_int (negsuc n) = "-" <> show_nat (n + 1)
