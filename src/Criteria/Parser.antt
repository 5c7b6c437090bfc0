-- ===== src/Criteria/Parser.antt =====
-- swayr/src/criteria.rs: the grammar `criteria_parser`, rule by rule, as functions from the text to
-- a value and the text behind it; `none` where a rule does not match. A choice takes the first
-- alternative that matches. `criterion` has fuel for the depth of the brackets.
pub mod Examples
pub mod Progress
pub mod Fuel
use Prim.Native.Char.{code, Char}
use Prim.Native.String.{[], ◌∷◌}
use swayr.Base.{
  ℕ, zero, suc, ◌+◌, ◌*◌, ◌-◌, ◌^◌, ℤ, pos, negsuc, Bool, true, false, ◌&&◌, ◌||◌, Option, none,
  some, String, leb, if◌then◌else◌, nat_beq, nat_eq,
}
use swayr.Swayipc.{ShellType}
use swayr.Criteria.Syntax.{
  Externs, RegexOrFocused, I64OrFocused, ShellTypeOrFocused, Criterion, Criteria, nil, cons,
}

abbrev pub Parser : Type 0 → Type 0
Parser A = String → Option (A × String)

infixl 5 ◌>>=◌ ◌>>◌
abbrev pub ◌>>=◌ : {A B : Type 0} → Parser A → (A → Parser B) → Parser B
◌>>=◌ p f s = elim (p s) [ none ↦ none | some (a, rest) ↦ f a rest ]

abbrev pub ◌>>◌ : {A B : Type 0} → Parser A → Parser B → Parser B
p >> q = p >>= λ _. q

abbrev pub yields : {A : Type 0} → A → Parser A
yields a s = some (a, s)

abbrev pub fails : {A : Type 0} → Parser A
fails s = none

-- The choice `p / q`.
infixr 6 ◌<|>◌
abbrev pub ◌<|>◌ : {A : Type 0} → Parser A → Parser A → Parser A
◌<|>◌ p q s = elim (p s) [ none ↦ q s | some r ↦ some r ]

-- A literal text.
unfoldable pub literal : String → Parser (Unit {0})
literal [] s = some (tt, s)
literal (c ∷ t) [] = none
literal (c ∷ t) (d ∷ s) = if nat_beq (code c) (code d) then literal t s else none

is_blank : Char → Bool
is_blank c = nat_beq (code c) b' ' || nat_beq (code c) 9

unfoldable pub space : Parser (Unit {0})
unfolding is_blank
space [] = some (tt, [])
space (c ∷ s) = if is_blank c then space s else some (tt, c ∷ s)

is_digit : Char → Bool
is_digit c = leb b'0' (code c) && leb (code c) b'9'

-- The digits at the front, with the number read so far and whether there was one.
digits : ℕ → Bool → Parser ℕ
unfolding is_digit
digits n seen [] = if seen then some (n, []) else none
digits n seen (c ∷ s) =
    if is_digit c
    then digits (n * 10 + (code c - b'0')) true s
    else if seen
    then some (n, c ∷ s)
    else none

-- A number that has to be below `bound`, or down to `-bound`: `i32` and `i64` by their `parse`.
signed : ℕ → Bool → ℕ → Parser ℤ
signed bound false n s = if leb bound n then none else some (pos n, s)
signed bound true zero s = some (pos 0, s)
signed bound true (suc n) s = if leb bound n then none else some (negsuc n, s)

minus : Parser Bool
unfolding literal
minus = (literal "-" >> yields true) <|> yields false

int_literal : ℕ → Parser ℤ
unfolding digits minus signed
int_literal bound = minus >>= λ neg. digits 0 false >>= λ n. signed bound neg n

unfoldable pub i32_literal : Parser ℤ
unfolding int_literal
i32_literal = int_literal (2 ^ 31)

unfoldable pub i64_literal : Parser ℤ
unfolding int_literal
i64_literal = int_literal (2 ^ 63)

-- `[^'"']*` and the quote behind it.
until_quote : Parser String
until_quote [] = none
until_quote (c ∷ s) = elim (nat_beq (code c) b'"') [
  | true ↦ some ([], s)
  | false ↦ elim (until_quote s) [ none ↦ none | some (t, rest) ↦ some (c ∷ t, rest) ]
]

unfoldable pub string_literal : Parser String
unfolding literal until_quote
string_literal = literal "\"" >> until_quote

unfoldable pub regex_from_str : Externs → String → String
regex_from_str x s = if x.compiles s then s else "^__I_WONT_MATCH_A_💩__$"

regex_or_focused : Externs → Parser RegexOrFocused
unfolding literal string_literal regex_from_str
regex_or_focused x =
    (literal "__focused__" >> yields RegexOrFocused.focused)
    <|> (string_literal >>= λ s. yields (RegexOrFocused.regex (regex_from_str x s)))

i64_or_focused : Parser I64OrFocused
unfolding literal i64_literal
i64_or_focused =
    (literal "__focused__" >> yields I64OrFocused.focused)
    <|> (i64_literal >>= λ n. yields (I64OrFocused.i64 n))

shell_type_or_focused : Parser ShellTypeOrFocused
unfolding literal
shell_type_or_focused =
    (literal "\"xdg_shell\"" >> yields (ShellTypeOrFocused.shell_type ShellType.xdg_shell))
    <|> ((literal "\"xwayland\"" >> yields (ShellTypeOrFocused.shell_type ShellType.xwayland))
        <|> (literal "__focused__" >> yields ShellTypeOrFocused.focused))

-- `name space() "=" space() value`.
setting : {A : Type 0} → String → Parser A → (A → Criterion) → Parser Criterion
unfolding literal space
setting name value make =
    literal name >> (space >> (literal "=" >> (space >> (value >>= λ a. yields (make a)))))

-- The rules that stand for one test.
simple : Externs → Parser Criterion
unfolding setting literal regex_or_focused i64_or_focused shell_type_or_focused string_literal
    i32_literal
simple x =
    (literal "tiling" >> yields Criterion.tiling)
    <|> ((literal "floating" >> yields Criterion.floating)
        <|> (setting "app_id" (regex_or_focused x) Criterion.app_id
            <|> (setting "class" (regex_or_focused x) Criterion.class
                <|> (setting "instance" (regex_or_focused x) Criterion.instance_name
                    <|> (setting "app_name" (regex_or_focused x) Criterion.app_name
                        <|> (setting "title" (regex_or_focused x) Criterion.title
                            <|> (setting "shell" shell_type_or_focused Criterion.shell
                                <|> (setting "workspace" (regex_or_focused x) Criterion.workspace
                                    <|> (setting "con_mark" string_literal
                                          (λ s. Criterion.con_mark (regex_from_str x s))
                                        <|> (setting "con_id" i64_or_focused Criterion.con_id
                                            <|> setting "pid" i32_literal Criterion.pid))))))))))

-- `criterion() ** space()` from the second item on, with fuel for the items.
pub more_items : Parser Criterion → ℕ → Parser Criteria
unfolding space
more_items item zero = yields nil
more_items item (suc fuel) =
    (space >> (item >>= λ c. more_items item fuel >>= λ cs. yields (cons c cs))) <|> yields nil

pub items : Parser Criterion → ℕ → Parser Criteria
unfolding more_items
items item fuel = (item >>= λ c. more_items item fuel >>= λ cs. yields (cons c cs)) <|> yields nil

pub and_keyword : Parser (Unit {0})
unfolding literal
and_keyword = literal "AND" <|> (literal "and" <|> (literal "&&" <|> yields tt))

pub or_keyword : Parser (Unit {0})
unfolding literal
or_keyword = literal "OR" <|> (literal "or" <|> literal "||")

pub not_keyword : Parser (Unit {0})
unfolding literal
not_keyword = literal "NOT" <|> (literal "not" <|> literal "!")

-- The rules `and` and `or`, which differ in the keyword and in what they make.
pub bracketed : Parser (Unit {0}) → Parser Criteria → (Criteria → Criterion) → Parser Criterion
unfolding literal space
bracketed keyword list make =
    literal "["
    >> (space
        >> (keyword
            >> (space >> (list >>= λ l. space >> (literal "]" >> (space >> yields (make l)))))))

unfoldable pub criterion : Externs → ℕ → Parser Criterion
unfolding bracketed items and_keyword or_keyword not_keyword simple space
criterion x zero s = none
criterion x (suc fuel) s =
    let rest : Parser Criterion = criterion x fuel in
    (bracketed and_keyword (items rest fuel) Criterion.and
        <|> (bracketed or_keyword (items rest fuel) Criterion.or
            <|> ((not_keyword >> (space >> (rest >>= λ c. space >> yields (Criterion.negated c))))
                <|> simple x)))
      s

unfoldable pub size_of : String → ℕ
size_of [] = 0
size_of (c ∷ s) = suc (size_of s)

pub whole : Option (Criterion × String) → Option Criterion
whole none = none
whole (some (c, [])) = some c
whole (some (c, d ∷ s)) = none

-- `parse_criteria`: the rule `parse` has to match the whole text. Each bracket and each `not` takes a
-- character, so the length of the text is fuel enough.
unfoldable pub parse_criteria : Externs → String → Option Criterion
unfolding criterion space whole size_of
parse_criteria x s = whole ((space >> criterion x (suc (size_of s))) s)
