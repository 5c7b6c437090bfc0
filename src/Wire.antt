-- ===== src/Wire.antt =====
-- What the program does over sway's socket: it asks for the tree and runs commands. `sway n` is how
-- sway stands at the `n`-th request, which the program cannot choose; `now` counts the requests and
-- `sent` holds the commands that were run, oldest first.
pub mod Sends
use swayr.Base.{ℕ, suc, Bool, Option, String, List, [], ◌∷◌, ◌++◌, ret, if◌then◌else◌}
use swayr.Base.Exec.{Exec, pure, ◌>>=◌}
use swayr.Swayipc.{Node}

-- `connects`: a connection can be opened; `tree`: the answer to `get_tree`; `accepts`: whether the
-- request to run a command gets an answer.
pub record Sway : Type 0 where
  pub connects : Bool
  pub tree : Option Node
  pub accepts : String → Bool

pub record Wire : Type 0 where
  pub sway : ℕ → Sway
  pub now : ℕ
  pub sent : List String

-- `swayipc::Fallible`.
pub data Fallible {ℓ} (A : Type ℓ) : Type ℓ where
  ok : A → Fallible A
  failed : String → Fallible A

abbrev tick : Wire → Wire
tick w = record w { now = suc w.now }

-- `Connection::new`, as a test of its success.
unfoldable pub connect : Exec Wire Bool
connect w = (ret (w.sway w.now).connects, tick w)

-- `Connection::get_tree`.
unfoldable pub request_tree : Exec Wire (Option Node)
request_tree w = (ret (w.sway w.now).tree, tick w)

-- `Connection::run_command`.
unfoldable pub run_command : String → Exec Wire (Fallible (Unit {0}))
run_command cmd w = (
  ret (if (w.sway w.now).accepts cmd then ok tt else failed cmd),
  record (tick w) { sent = w.sent ++ cmd ∷ [] },
)

-- The operator `?` between two parts of a function that returns `Fallible`.
infixl 5 ◌>>?◌
abbrev pub or_stop :
    Fallible (Unit {0}) → Exec Wire (Fallible (Unit {0})) → Exec Wire (Fallible (Unit {0}))
or_stop (ok _) n = n
or_stop (failed e) n = pure (failed e)

abbrev pub ◌>>?◌ :
    Exec Wire (Fallible (Unit {0}))
    → Exec Wire (Fallible (Unit {0}))
    → Exec Wire (Fallible (Unit {0}))
m >>? n = m >>= λ r. or_stop r n

-- `for a in l { body(a)? }`.
abbrev pub try_each :
    {A : Type 0} → List A → (A → Exec Wire (Fallible (Unit {0}))) → Exec Wire (Fallible (Unit {0}))
try_each [] body = pure (ok tt)
try_each (a ∷ l) body = body a >>? try_each l body
