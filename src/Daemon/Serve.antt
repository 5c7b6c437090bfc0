-- ===== src/Daemon/Serve.antt =====
-- swayr/src/daemon.rs: the thread of `serve_client_requests` that serves the clients, and
-- swayr/src/client.rs, which sends a command to it. The sockets and the JSON of a command are parameters.
use swayr.Base.{
  ap, sym, ◌∙◌, arith, ◌≡◌, refl, ℕ, suc, ◌+◌, Bool, true, false, Option, none, some, String, List,
  [], ◌∷◌, map, length, if◌then◌else◌, All,
}
use swayr.Base.Exec.{pure, bind_same, bind_assoc, ◌>>=◌, ◌>>◌}
use swayr.Cmds.Command.{SwayrCommand}
use swayr.Cmds.World.{World, M}

-- What `listener.incoming()` yields: a connection, with the text that can be read from it, or an error.
pub data Incoming : Type 0 where
  connected : Option String → Incoming
  broken : Incoming

-- `send_swayr_cmd`: what the client writes, if it can connect.
unfoldable pub send_swayr_cmd : (SwayrCommand → String) → Bool → SwayrCommand → Option String
send_swayr_cmd to_json connects cmd = if connects then some (to_json cmd) else none

-- The notifications after `k` commands more.
abbrev notified : Bool → ℕ → ℕ → ℕ
notified auto_nop n k = if auto_nop then n + k else n

notified-zero : (b : Bool) (n : ℕ) → notified b n 0 ≡ n
notified-zero true n = omega arith
notified-zero false n = refl

notified-suc : (b : Bool) (n k : ℕ) → notified b (if b then suc n else n) k ≡ notified b n (suc k)
notified-suc true n k = omega arith
notified-suc false n k = refl

from_zero : (b : Bool) (k : ℕ) → notified b 0 k ≡ (if b then k else 0)
from_zero true k = omega arith
from_zero false k = refl

-- `from_json` reads a command; `exec` is `exec_swayr_cmd` with its environment.
module _ (from_json : String → Option SwayrCommand) (exec : SwayrCommand → M (Unit {0})) where
  abbrev run_parsed : Option SwayrCommand → M (Unit {0})
  run_parsed none = pure tt
  run_parsed (some cmd) = exec cmd

  unfoldable pub handle_client_request : Option String → M (Unit {0})
  handle_client_request none = pure tt
  handle_client_request (some cmd_str) = run_parsed (from_json cmd_str)

  -- The loop over the connections, which an error ends; the result is the number of notifications of
  -- the auto-nop thread. `auto_nop` says whether there is one.
  unfoldable pub serve : Bool → List Incoming → ℕ → M ℕ
  unfolding handle_client_request
  serve auto_nop [] sent = pure sent
  serve auto_nop (broken ∷ l) sent = pure sent
  serve auto_nop (connected text ∷ l) sent = do
    handle_client_request text
    serve auto_nop l (if auto_nop then suc sent else sent)

  -- `binds` says whether the socket can be bound.
  unfoldable pub serve_client_requests : Bool → Bool → List Incoming → M ℕ
  unfolding serve
  serve_client_requests binds auto_nop incoming =
      if binds then serve auto_nop incoming 0 else pure 0

  -- The commands one after the other.
  abbrev pub run_all : List SwayrCommand → M (Unit {0})
  run_all [] = pure tt
  run_all (cmd ∷ l) = exec cmd >> run_all l

  -- The connections of clients that send commands.
  abbrev pub requests : (SwayrCommand → String) → List SwayrCommand → List Incoming
  requests to_json cmds = map (λ cmd. connected (send_swayr_cmd to_json true cmd)) cmds

  serve-requests :
      (to_json : SwayrCommand → String) (auto_nop : Bool) (cmds : List SwayrCommand) (n : ℕ)
      (w : World)
      → All (λ cmd. from_json (to_json cmd) ≡ some cmd) cmds
      → serve auto_nop (requests to_json cmds) n w
        ≡ (run_all cmds >>= λ _. pure (notified auto_nop n (length cmds))) w
  unfolding serve send_swayr_cmd
  serve-requests to_json auto_nop [] n w h =
      ap (λ (k : ℕ). pure k w) (sym (notified-zero auto_nop n))
  serve-requests to_json auto_nop (cmd ∷ l) n w h =
      let rest = serve auto_nop (requests to_json l) (if auto_nop then suc n else n) in
      let all = run_all l >>= λ _. pure (notified auto_nop n (suc (length l))) in
      ap (λ (o : Option SwayrCommand). (run_parsed o >> rest) w) h.0
      ∙ bind_same (exec cmd) (λ _. rest) (λ _. all)
          (λ _ w'.
            serve-requests to_json auto_nop l (if auto_nop then suc n else n) w' h.1
            ∙ ap (λ (k : ℕ). (run_all l >>= λ _. pure k) w') (notified-suc auto_nop n (length l)))
          w
      ∙ sym (
          bind_assoc (exec cmd) (λ _. run_all l) (λ _. pure (notified auto_nop n (suc (length l))))
            w)

  -- Where each command is read back from what a client writes, the daemon runs the commands of its
  -- clients one after the other, in the order of their connections, and nothing else; and it notifies
  -- the auto-nop thread, if there is one, once for each.
  pub serve_client_requests-commands :
      (to_json : SwayrCommand → String) (auto_nop : Bool) (cmds : List SwayrCommand) (w : World)
      → All (λ cmd. from_json (to_json cmd) ≡ some cmd) cmds
      → serve_client_requests true auto_nop (requests to_json cmds) w
        ≡ (run_all cmds >>= λ _. pure (if auto_nop then length cmds else 0)) w
  unfolding serve_client_requests
  serve_client_requests-commands to_json auto_nop cmds w h =
      serve-requests to_json auto_nop cmds 0 w h
      ∙ ap (λ (k : ℕ). (run_all cmds >>= λ _. pure k) w) (from_zero auto_nop (length cmds))
