-- ===== src/Criteria/Eval/Laws.antt =====
-- criteria.rs: what criteria mean.
use swayr.Base.{
  sym, ap, ◌≡◌, ◌↔◌, refl, Bool, true, Option, none, some, String, ret, ◌==◌, string_eq, beq→eq,
  beq_refl, ◌∙◌,
}
use swayr.Swayipc.{info}
use swayr.Tree.Listing.{DisplayNode}
use swayr.Criteria.Syntax.{Externs, RegexOrFocused, Criterion, Criteria, nil, cons}
use swayr.Criteria.Eval.{eval_criterion, eval_text, are_some_and_equal}

-- The criteria with `not` in front of each.
abbrev pub negate_each : Criteria → Criteria
negate_each nil = nil
negate_each (cons c cs) = cons (Criterion.negated c) (negate_each cs)

some_injective : {s t : String} → some s ≡ some t → s ≡ t
some_injective e = cc

ret_injective : {a b : Bool} → ret a ≡ ret b → a ≡ b
ret_injective e = cc

both_some :
    (a b : Option String)
    → (are_some_and_equal (λ s t. s == t) a b ≡ true) ↔ ((s : String) × (a ≡ some s) × (b ≡ some s))
unfolding are_some_and_equal
both_some none b = (λ h. absurd (cc), λ h. absurd (cc (h.1)))
both_some (some s) none = (λ h. absurd (cc), λ h. absurd (cc (h.2)))
both_some (some s) (some t) = (
  λ h. (s, refl, ap some (sym (beq→eq s t h))),
  λ h. rw (some_injective (h.1 ∙ sym h.2)) (beq_refl t),
)

-- `app_id=__focused__` holds exactly for the windows that have the application id of the focused
-- window.
app_id_focused_iff :
    (x : Externs) (w f : DisplayNode)
    → (eval_criterion x (Criterion.app_id RegexOrFocused.focused) w (some f) ≡ ret true)
      ↔ ((s : String) × ((info w.shown).app_id ≡ some s) × ((info f.shown).app_id ≡ some s))
unfolding eval_criterion eval_text
app_id_focused_iff x w f =
    let e = both_some (info w.shown).app_id (info f.shown).app_id in
    (λ h. e.0 (ret_injective h), λ h. ap ret (e.1 h))
