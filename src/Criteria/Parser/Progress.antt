-- ===== src/Criteria/Parser/Progress.antt =====
-- criteria.rs: no rule of the grammar gives back text, and a criterion takes some.
use Prim.Native.String.{[], ◌∷◌}
use Prim.Native.Char.{code, Char}
use swayr.Base.{
  ℕ, zero, suc, ◌≤◌, Bool, true, false, Option, none, some, String, leb, nat_beq, if◌then◌else◌,
  Bool-cases, inl, inr, arith, pos, negsuc, ◌+◌, ◌*◌, ◌-◌, ◌^◌,
}
use swayr.Criteria.Syntax.{Externs, Criterion, Criteria, nil}
use swayr.Criteria.Parser.{
  Parser, ◌>>=◌, ◌>>◌, ◌<|>◌, yields, literal, is_blank, space, is_digit, digits, signed, minus,
  int_literal, i32_literal, i64_literal, until_quote, string_literal, regex_or_focused,
  i64_or_focused, shell_type_or_focused, setting, simple, more_items, items, and_keyword,
  or_keyword, not_keyword, bracketed, criterion, size_of,
}

-- What is left, if anything, is at most the given number of characters.
abbrev pub Left : {A : Type 0} → ℕ → Option (A × String) → Type 0
Left n none = Unit
Left n (some (a, rest)) = size_of rest ≤ n

abbrev pub Less : {A : Type 0} → ℕ → Option (A × String) → Type 0
Less n none = Unit
Less n (some (a, rest)) = suc (size_of rest) ≤ n

Left-mono : {A : Type 0} (x : Option (A × String)) {m n : ℕ} → Left m x → m ≤ n → Left n x
Left-mono none h k = tt
Left-mono (some (a, rest)) h k = omega arith

Less-mono : {A : Type 0} (x : Option (A × String)) {m n : ℕ} → Left m x → suc m ≤ n → Less n x
Less-mono none h k = tt
Less-mono (some (a, rest)) h k = omega arith

-- Nothing is given back.
pub record Keeps {A : Type 0} (p : Parser A) : Type 0 where
  pub left : (s : String) → Left (size_of s) (p s)

-- At least one character is taken.
pub record Shrinks {A : Type 0} (p : Parser A) : Type 0 where
  pub taken : (s : String) (n : ℕ) → size_of s ≤ n → Less n (p s)

module _ {A B : Type 0} where
  bind-Keeps :
      (p : Parser A) {f : A → Parser B} → Keeps p → ((a : A) → Keeps (f a)) → Keeps (p >>= f)
  bind-Keeps p {f} hp hf = record { left = λ s. go s (p s) (hp.left s) }
    where
      go :
          (s : String) (x : Option (A × String))
          → Left (size_of s) x
          → Left (size_of s) (elim x [ none ↦ none | some (a, rest) ↦ f a rest ])
      go s none h = tt
      go s (some (a, rest)) h = Left-mono (f a rest) ((hf a).left rest) h

  bind-Shrinks :
      (p : Parser A) {f : A → Parser B} → Shrinks p → ((a : A) → Keeps (f a)) → Shrinks (p >>= f)
  bind-Shrinks p {f} hp hf = record { taken = λ s n k. go n (p s) (hp.taken s n k) }
    where
      go :
          (n : ℕ) (x : Option (A × String))
          → Less n x
          → Less n (elim x [ none ↦ none | some (a, rest) ↦ f a rest ])
      go n none h = tt
      go n (some (a, rest)) h = Less-mono (f a rest) ((hf a).left rest) h

module _ {A : Type 0} where
  or-Keeps : {p q : Parser A} → Keeps p → Keeps q → Keeps (p <|> q)
  or-Keeps {p} {q} hp hq = record { left = λ s. go s (p s) (hp.left s) }
    where
      go :
          (s : String) (x : Option (A × String))
          → Left (size_of s) x
          → Left (size_of s) (elim x [ none ↦ q s | some r ↦ some r ])
      go s none h = hq.left s
      go s (some r) h = h

  or-Shrinks : {p q : Parser A} → Shrinks p → Shrinks q → Shrinks (p <|> q)
  or-Shrinks {p} {q} hp hq = record { taken = λ s n k. go s n k (p s) (hp.taken s n k) }
    where
      go :
          (s : String) (n : ℕ) (k : size_of s ≤ n) (x : Option (A × String))
          → Less n x
          → Less n (elim x [ none ↦ q s | some r ↦ some r ])
      go s n k none h = hq.taken s n k
      go s n k (some r) h = h

  yields-Keeps : (a : A) → Keeps (yields a)
  yields-Keeps a = record { left = λ s. omega arith }

  pub Shrinks-Keeps : (p : Parser A) → Shrinks p → Keeps p
  Shrinks-Keeps p h = record { left = λ s. go s (p s) (h.taken s (size_of s) (omega arith)) }
    where
      go : (s : String) (x : Option (A × String)) → Less (size_of s) x → Left (size_of s) x
      go s none h = tt
      go s (some (a, rest)) h = omega arith

literal-Keeps : (t : String) → Keeps (literal t)
unfolding literal size_of
literal-Keeps t = record { left = left t }
  where
    left : (t s : String) → Left (size_of s) (literal t s)
    left [] s = omega arith
    left (c ∷ t) [] = tt
    left (c ∷ t) (d ∷ s) = elim (Bool-cases (nat_beq (code c) (code d))) [
      | inl e ↦ rw e (Left-mono (literal t s) (left t s) (omega arith))
      | inr e ↦ rw e tt
    ]

pub literal-Shrinks : (c : Char) (t : String) → Shrinks (literal (c ∷ t))
unfolding literal size_of
literal-Shrinks c t = record { taken = taken }
  where
    taken : (s : String) (n : ℕ) → size_of s ≤ n → Less n (literal (c ∷ t) s)
    taken [] n h = tt
    taken (d ∷ s) n h = elim (Bool-cases (nat_beq (code c) (code d))) [
      | inl e ↦ rw e (Less-mono (literal t s) ((literal-Keeps t).left s) h)
      | inr e ↦ rw e tt
    ]

pub space-Keeps : Keeps space
unfolding space size_of
space-Keeps = record { left = left }
  where
    left : (s : String) → Left (size_of s) (space s)
    left [] = omega arith
    left (c ∷ s) = elim (Bool-cases (is_blank c)) [
      | inl e ↦ rw e (Left-mono (space s) (left s) (omega arith))
      | inr e ↦ rw e (omega arith)
    ]

digits-Keeps : (n : ℕ) (seen : Bool) → Keeps (digits n seen)
unfolding digits size_of
digits-Keeps n seen = record { left = λ s. left s n seen }
  where
    stop :
        (n : ℕ) (seen : Bool) (s : String) → Left (size_of s) (if seen then some (n, s) else none)
    stop n true s = omega arith
    stop n false s = tt

    left : (s : String) (n : ℕ) (seen : Bool) → Left (size_of s) (digits n seen s)
    left [] n seen = stop n seen []
    left (c ∷ s) n seen = elim (Bool-cases (is_digit c)) [
      | inl e ↦ rw e (
          Left-mono (digits (n * 10 + (code c - b'0')) true s)
            (left s (n * 10 + (code c - b'0')) true) (omega arith))
      | inr e ↦ rw e (stop n seen (c ∷ s))
    ]

if-Left :
    {A : Type 0} (b : Bool) (x y : Option (A × String)) (n : ℕ)
    → Left n x
    → Left n y
    → Left n (if b then x else y)
if-Left true x y n h k = h
if-Left false x y n h k = k

signed-Keeps : (bound : ℕ) (neg : Bool) (n : ℕ) → Keeps (signed bound neg n)
unfolding signed
signed-Keeps bound false n = record {
  left = λ s. if-Left (leb bound n) none (some (pos n, s)) (size_of s) tt (omega arith);
}
signed-Keeps bound true zero = record { left = λ s. omega arith }
signed-Keeps bound true (suc n) = record {
  left = λ s. if-Left (leb bound n) none (some (negsuc n, s)) (size_of s) tt (omega arith);
}

until_quote-Keeps : Keeps until_quote
unfolding until_quote size_of
until_quote-Keeps = record { left = left }
  where
    left : (s : String) → Left (size_of s) (until_quote s)
    left [] = tt
    left (c ∷ s) = test (left s) (nat_beq (code c) b'"')
      where
        go :
            (x : Option (String × String))
            → Left (size_of s) x
            → Left (size_of (c ∷ s)) (elim x [ none ↦ none | some (t, rest) ↦ some (c ∷ t, rest) ])
        go none h = tt
        go (some (t, rest)) h = omega arith

        test :
            Left (size_of s) (until_quote s)
            → (b : Bool)
            → Left (size_of (c ∷ s)) (elim b [
              | true ↦ some ([], s)
              | false ↦ elim (until_quote s) [ none ↦ none | some (t, rest) ↦ some (c ∷ t, rest) ]
            ])
        test h true = omega arith
        test h false = go (until_quote s) h

ruleset keeping = (
  bind-Keeps, or-Keeps, yields-Keeps, literal-Keeps, space-Keeps, digits-Keeps, signed-Keeps,
  until_quote-Keeps,
)

regex_or_focused-Keeps : (x : Externs) → Keeps (regex_or_focused x)
unfolding regex_or_focused string_literal
regex_or_focused-Keeps x = search keeping

int_literal-Keeps : (bound : ℕ) → Keeps (int_literal bound)
unfolding int_literal minus
int_literal-Keeps bound = search keeping

i32_literal-Keeps : Keeps i32_literal
unfolding i32_literal
i32_literal-Keeps = int_literal-Keeps (2 ^ 31)

i64_literal-Keeps : Keeps i64_literal
unfolding i64_literal
i64_literal-Keeps = int_literal-Keeps (2 ^ 63)

i64_or_focused-Keeps : Keeps i64_or_focused
unfolding i64_or_focused
i64_or_focused-Keeps = search (keeping, i64_literal-Keeps)

shell_type_or_focused-Keeps : Keeps shell_type_or_focused
unfolding shell_type_or_focused
shell_type_or_focused-Keeps = search keeping

string_literal-Keeps : Keeps string_literal
unfolding string_literal
string_literal-Keeps = search keeping

setting-Shrinks :
    {A : Type 0} (c : Char) (name : String) (value : Parser A) (make : A → Criterion)
    → Keeps value
    → Shrinks (setting (c ∷ name) value make)
unfolding setting
setting-Shrinks c name value make h =
    bind-Shrinks (literal (c ∷ name))
      {f = λ _. space >> (literal "=" >> (space >> (value >>= λ a. yields (make a))))}
      (literal-Shrinks c name) λ u. search keeping

simple-Shrinks : (x : Externs) → Shrinks (simple x)
unfolding simple
simple-Shrinks x =
    search
      (
        or-Shrinks, bind-Shrinks, literal-Shrinks, yields-Keeps, setting-Shrinks,
        regex_or_focused-Keeps, i64_or_focused-Keeps, i32_literal-Keeps,
        shell_type_or_focused-Keeps, string_literal-Keeps,
      )
      depth 30

pub more_items-Keeps :
    (item : Parser Criterion) (fuel : ℕ) → Keeps item → Keeps (more_items item fuel)
unfolding more_items
more_items-Keeps item zero h = yields-Keeps nil
more_items-Keeps item (suc fuel) h =
    let rest = more_items-Keeps item fuel h in search keeping depth 12

pub items-Keeps : (item : Parser Criterion) (fuel : ℕ) → Keeps item → Keeps (items item fuel)
unfolding items
items-Keeps item fuel h = let rest = more_items-Keeps item fuel h in search keeping depth 12

pub and_keyword-Keeps : Keeps and_keyword
unfolding and_keyword
and_keyword-Keeps = search keeping depth 12

pub or_keyword-Keeps : Keeps or_keyword
unfolding or_keyword
or_keyword-Keeps = search keeping depth 12

pub not_keyword-Shrinks : Shrinks not_keyword
unfolding not_keyword
not_keyword-Shrinks = search (or-Shrinks, literal-Shrinks) depth 12

bracketed-Shrinks :
    (keyword : Parser (Unit {0})) (list : Parser Criteria) (make : Criteria → Criterion)
    → Keeps keyword
    → Keeps list
    → Shrinks (bracketed keyword list make)
unfolding bracketed
bracketed-Shrinks keyword list make hk hl =
    bind-Shrinks (literal "[")
      {f = λ _.
        space
        >> (keyword
            >> (space >> (list >>= λ l. space >> (literal "]" >> (space >> yields (make l))))))}
      (search literal-Shrinks) λ u. search keeping depth 20

pub criterion-Shrinks : (x : Externs) (fuel : ℕ) → Shrinks (criterion x fuel)
unfolding criterion
criterion-Shrinks x zero = record { taken = λ s n h. tt }
criterion-Shrinks x (suc fuel) =
    let rest = Shrinks-Keeps (criterion x fuel) (criterion-Shrinks x fuel) in
    or-Shrinks
      (bracketed-Shrinks and_keyword (items (criterion x fuel) fuel) Criterion.and and_keyword-Keeps
        (items-Keeps (criterion x fuel) fuel rest))
      (or-Shrinks
        (bracketed-Shrinks or_keyword (items (criterion x fuel) fuel) Criterion.or or_keyword-Keeps
          (items-Keeps (criterion x fuel) fuel rest))
        (or-Shrinks
          (bind-Shrinks not_keyword
            {f = λ _. space >> (criterion x fuel >>= λ c. space >> yields (Criterion.negated c))}
            not_keyword-Shrinks λ u. search keeping depth 12)
          (simple-Shrinks x)))
