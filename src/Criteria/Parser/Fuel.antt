-- ===== src/Criteria/Parser/Fuel.antt =====
-- criteria.rs: the fuel of the parser is enough.
use swayr.Base.{◌≡◌, refl, ap, ◌∙◌, ℕ, zero, suc, ◌≤◌, ◌<◌, Option, none, some, String, arith}
use swayr.Criteria.Syntax.{Externs, Criterion, Criteria, nil, cons}
use swayr.Criteria.Parser.{
  Parser, ◌>>=◌, ◌>>◌, ◌<|>◌, yields, literal, space, simple, more_items, items, and_keyword,
  or_keyword, not_keyword, bracketed, criterion, size_of, whole, parse_criteria,
}
use swayr.Criteria.Parser.Progress.{
  Left, Less, Keeps, Shrinks, space-Keeps, literal-Shrinks, Shrinks-Keeps, more_items-Keeps,
  items-Keeps, and_keyword-Keeps, or_keyword-Keeps, not_keyword-Shrinks, criterion-Shrinks,
}

-- Two rules agree on all texts of fewer than `k` characters.
record Agree {A : Type 0} (k : ℕ) (p q : Parser A) : Type 0 where
  same : (s : String) → size_of s < k → p s ≡ q s

module _ {A : Type 0} where
  refl-Agree : (k : ℕ) (p : Parser A) → Agree k p p
  refl-Agree k p = record { same = λ s h. refl }

  less-Agree : (k : ℕ) (p q : Parser A) → Agree (suc k) p q → Agree k p q
  less-Agree k p q h = record { same = λ s l. h.same s (omega arith) }

  or-Agree :
      (k : ℕ) {p p' q q' : Parser A} → Agree k p p' → Agree k q q' → Agree k (p <|> q) (p' <|> q')
  or-Agree k {p} {p'} {q} {q'} hp hq = record {
    same = λ s l.
        ap (λ (x : Option (A × String)). elim x [ none ↦ q s | some r ↦ some r ]) (hp.same s l)
        ∙ go (p' s) (hq.same s l);
  }
    where
      go :
          {b c : Option (A × String)} (x : Option (A × String))
          → b ≡ c
          → elim x [ none ↦ b | some r ↦ some r ] ≡ elim x [ none ↦ c | some r ↦ some r ]
      go none e = e
      go (some r) e = refl

module _ {A B : Type 0} where
  bind-Agree :
      (k : ℕ) {p p' : Parser A} {f f' : A → Parser B}
      → Keeps p'
      → Agree k p p'
      → ((a : A) → Agree k (f a) (f' a))
      → Agree k (p >>= f) (p' >>= f')
  bind-Agree k {p} {p'} {f} {f'} hk hp hf = record {
    same = λ s l.
        ap (λ (x : Option (A × String)). elim x [ none ↦ none | some (a, rest) ↦ f a rest ])
          (hp.same s l)
        ∙ go s l (p' s) (hk.left s);
  }
    where
      go :
          (s : String)
          → size_of s < k
          → (x : Option (A × String)) → Left (size_of s) x
          → elim x [ none ↦ none | some (a, rest) ↦ f a rest ]
            ≡ elim x [ none ↦ none | some (a, rest) ↦ f' a rest ]
      go s l none h = refl
      go s l (some (a, rest)) h = (hf a).same rest (omega arith)

  -- What follows a rule that takes a character has to agree on shorter texts only.
  then-Agree :
      (k : ℕ) {p p' : Parser A} {f f' : A → Parser B}
      → Shrinks p'
      → Agree (suc k) p p'
      → ((a : A) → Agree k (f a) (f' a))
      → Agree (suc k) (p >>= f) (p' >>= f')
  then-Agree k {p} {p'} {f} {f'} hk hp hf = record {
    same = λ s l.
        ap (λ (x : Option (A × String)). elim x [ none ↦ none | some (a, rest) ↦ f a rest ])
          (hp.same s l)
        ∙ go s l (p' s) (hk.taken s (size_of s) (omega arith));
  }
    where
      go :
          (s : String)
          → size_of s < suc k
          → (x : Option (A × String)) → Less (size_of s) x
          → elim x [ none ↦ none | some (a, rest) ↦ f a rest ]
            ≡ elim x [ none ↦ none | some (a, rest) ↦ f' a rest ]
      go s l none h = refl
      go s l (some (a, rest)) h = (hf a).same rest (omega arith)

-- The items behind the first, at whatever fuel the texts have fewer characters than.
more_items-Agree :
    (k : ℕ) (item item' : Parser Criterion) (f f' : ℕ)
    → Shrinks item'
    → Agree k item item'
    → k ≤ f
    → k ≤ f'
    → Agree k (more_items item f) (more_items item' f')
unfolding more_items
more_items-Agree zero item item' f f' hs ha h h' = record { same = λ s l. absurd (omega arith) }
more_items-Agree (suc k) item item' zero f' hs ha h h' = absurd (omega arith)
more_items-Agree (suc k) item item' (suc f) zero hs ha h h' = absurd (omega arith)
more_items-Agree (suc k) item item' (suc f) (suc f') hs ha h h' =
    let rest =
      more_items-Agree k item item' f f' hs (less-Agree k item item' ha) (omega arith)
        (omega arith) in
    or-Agree (suc k)
      (bind-Agree (suc k) space-Keeps (refl-Agree (suc k) space) λ u. then-Agree k hs ha λ c.
        bind-Agree k (more_items-Keeps item' f' (Shrinks-Keeps item' hs)) rest
          λ cs. refl-Agree k (yields (cons c cs)))
      (refl-Agree (suc k) (yields nil))

items-Agree :
    (k : ℕ) (item item' : Parser Criterion) (f f' : ℕ)
    → Shrinks item'
    → Agree k item item'
    → k ≤ f
    → k ≤ f'
    → Agree k (items item f) (items item' f')
unfolding items
items-Agree k item item' f f' hs ha h h' =
    let keeps = Shrinks-Keeps item' hs in
    or-Agree k
      (bind-Agree k keeps ha λ c.
        bind-Agree k (more_items-Keeps item' f' keeps)
          (more_items-Agree k item item' f f' hs ha h h') λ cs. refl-Agree k (yields (cons c cs)))
      (refl-Agree k (yields nil))

-- Behind the bracket that opens a list, a character less is left for the list.
bracketed-Agree :
    (k : ℕ) (keyword : Parser (Unit {0})) (l l' : Parser Criteria) (make : Criteria → Criterion)
    → Keeps keyword
    → Keeps l'
    → Agree k l l'
    → Agree (suc k) (bracketed keyword l make) (bracketed keyword l' make)
unfolding bracketed
bracketed-Agree k keyword l l' make hk hl ha =
    then-Agree k {p = literal "["} {p' = literal "["} (search literal-Shrinks)
      (refl-Agree (suc k) (literal "["))
      λ u. bind-Agree k space-Keeps (refl-Agree k space) λ u.
        bind-Agree k hk (refl-Agree k keyword) λ u.
          bind-Agree k space-Keeps (refl-Agree k space) λ u.
            bind-Agree k hl ha
              λ a. refl-Agree k (space >> (literal "]" >> (space >> yields (make a))))

criterion-Agree :
    (x : Externs) (k f f' : ℕ) → k ≤ f → k ≤ f' → Agree k (criterion x f) (criterion x f')
unfolding criterion
criterion-Agree x zero f f' h h' = record { same = λ s l. absurd (omega arith) }
criterion-Agree x (suc k) zero f' h h' = absurd (omega arith)
criterion-Agree x (suc k) (suc f) zero h h' = absurd (omega arith)
criterion-Agree x (suc k) (suc f) (suc f') h h' =
    let rest = criterion-Agree x k f f' (omega arith) (omega arith) in
    let shrinks = criterion-Shrinks x f' in
    let keeps = Shrinks-Keeps (criterion x f') shrinks in
    let lists =
      items-Agree k (criterion x f) (criterion x f') f f' shrinks rest (omega arith)
        (omega arith) in
    let kept = items-Keeps (criterion x f') f' keeps in
    or-Agree (suc k) (bracketed-Agree k and_keyword _ _ Criterion.and and_keyword-Keeps kept lists)
      (or-Agree (suc k) (bracketed-Agree k or_keyword _ _ Criterion.or or_keyword-Keeps kept lists)
        (or-Agree (suc k)
          (then-Agree k not_keyword-Shrinks (refl-Agree (suc k) not_keyword) λ u.
            bind-Agree k space-Keeps (refl-Agree k space) λ u.
              bind-Agree k keeps rest λ c. refl-Agree k (space >> yields (Criterion.negated c)))
          (refl-Agree (suc k) (simple x))))

-- More fuel than the text has characters changes nothing: `parse_criteria` never stops for want of fuel.
pub parse_criteria-fuel :
    (x : Externs) (s : String) (fuel : ℕ)
    → size_of s < fuel
    → parse_criteria x s ≡ whole ((space >> criterion x fuel) s)
unfolding parse_criteria
parse_criteria-fuel x s fuel h = ap whole (
    (bind-Agree (suc (size_of s)) space-Keeps (refl-Agree _ space) λ u.
        criterion-Agree x (suc (size_of s)) (suc (size_of s)) fuel (omega arith) (omega arith)).same
      s (omega arith))
