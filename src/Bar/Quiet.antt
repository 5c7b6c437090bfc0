-- ===== src/Bar/Quiet.antt =====
-- swayrbar: code that asks the machine around it, but prints nothing and starts no
-- command of a click; with what it returns.
use swayr.Base.{◌≡◌, refl, ◌∙◌, Bool, true, false, Outcome, ret, panic, if◌then◌else◌}
use swayr.Base.Exec.{Exec, pure, lift, continue, ◌>>=◌}
use swayr.Bar.Outside.{Crates, Outside, World, ask}

-- What is returned, if anything is, has the property.
abbrev pub Post : {A : Type 0} → (A → Type 0) → Outcome A → Type 0
Post Q (ret a) = Q a
Post Q (panic e) = Unit

-- The code keeps what was printed and what was run.
pub record Same {c : Crates} (w v : World c) : Type 0 where
  pub output : v.output ≡ w.output
  pub ran : v.ran ≡ w.ran

Same-trans : {c : Crates} {u v w : World c} → Same u v → Same v w → Same u w
Same-trans h k = record { output = k.output ∙ h.output; ran = k.ran ∙ h.ran }

abbrev pub Any : {A : Type 0} → A → Type 0
Any a = Unit

module _ {c : Crates} {A : Type 0} where
  pub record Quiet (Q : A → Type 0) (m : Exec (World c) A) : Type 0 where
    pub holds : (w : World c) → Same w (m w).1 × Post Q (m w).0

  pub pure-Quiet : (Q : A → Type 0) (a : A) → Q a → Quiet Q (pure a)
  pure-Quiet Q a q = record { holds = λ w. (record { output = refl; ran = refl }, q) }

  pub lift-Quiet : (o : Outcome A) → Quiet Any (lift o)
  lift-Quiet o = record { holds = λ w. (record { output = refl; ran = refl }, go o) }
    where
      go : (o : Outcome A) → Post Any o
      go (ret a) = tt
      go (panic e) = tt

  pub ask-Quiet : (f : Outside c → A) → Quiet Any (ask f)
  ask-Quiet f = record { holds = λ w. (record { output = refl; ran = refl }, tt) }

  pub if-Quiet :
      (Q : A → Type 0) (b : Bool) {m n : Exec (World c) A}
      → Quiet Q m
      → Quiet Q n
      → Quiet Q (if b then m else n)
  if-Quiet Q true hm hn = hm
  if-Quiet Q false hm hn = hn

module _ {c : Crates} {A B : Type 0} where
  pub bind-Quiet :
      (P : A → Type 0) (Q : B → Type 0) {m : Exec (World c) A} {f : A → Exec (World c) B}
      → Quiet P m
      → ((a : A) → P a → Quiet Q (f a))
      → Quiet Q (m >>= f)
  bind-Quiet P Q {m} {f} hm hf = record { holds = λ w. go w (m w) (hm.holds w) }
    where
      go :
          (w : World c) (x : Outcome A × World c)
          → Same w x.1 × Post P x.0
          → Same w (continue x.0 f x.1).1 × Post Q (continue x.0 f x.1).0
      go w (ret a, v) (s, p) = let r = (hf a p).holds v in (Same-trans s r.0, r.1)
      go w (panic e, v) (s, p) = (s, tt)

  -- Whatever the first part returns.
  pub then-Quiet :
      (Q : B → Type 0) (m : Exec (World c) A) {f : A → Exec (World c) B}
      → Quiet Any m
      → ((a : A) → Quiet Q (f a))
      → Quiet Q (m >>= f)
  then-Quiet Q m {f} hm hf = bind-Quiet Any Q {m = m} {f = f} hm λ a _. hf a
