-- ===== src/Wire/Sends.antt =====
-- Code over sway's socket that runs a known list of commands, and rules to compose it.
use swayr.Base.{◌≡◌, refl, sym, Bool, true, false, String, List, [], ◌++◌, ret, if◌then◌else◌}
use swayr.Base.Exec.{Exec, pure, ◌>>◌}
use mathlib.Core.List.{append-nil, append_assoc}
use swayr.Wire.{Wire}

-- Whatever sway answers, the code returns, has then run these commands, in this order, and has run
-- them in a session that is otherwise the same.
pub record Sends (m : Exec Wire (Unit {0})) (cmds : List String) : Type 0 where
  pub after : Wire → Wire
  pub runs : (w : Wire) → m w ≡ (ret tt, after w)
  pub sends : (w : Wire) → (after w).sent ≡ w.sent ++ cmds

pub Sends-pure : Sends (pure tt) []
Sends-pure = record { after = λ w. w; runs = λ w. refl; sends = λ w. sym (append-nil w.sent) }

pub Sends-then :
    {m n : Exec Wire (Unit {0})} {a b : List String}
    → Sends m a
    → Sends n b
    → Sends (m >> n) (a ++ b)
Sends-then {m} {n} {a} {b} hm hn = record {
  after = λ w. hn.after (hm.after w);
  runs = λ w. rw hm.runs (hn.runs (hm.after w));
  sends = λ w. rw (hn.sends, hm.sends) (append_assoc w.sent a b);
}

pub Sends-if :
    (b : Bool) {m n : Exec Wire (Unit {0})} {x y : List String}
    → Sends m x
    → Sends n y
    → Sends (if b then m else n) (if b then x else y)
Sends-if true hm hn = hm
Sends-if false hm hn = hn
