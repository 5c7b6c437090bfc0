-- ===== src/Cmds/Exec/Laws.antt =====
-- What holds of `exec_swayr_cmd` (swayr/src/cmds.rs) around every command, and the command that
-- runs another one.
use swayr.Base.{
  ℕ, suc, Bool, true, false, some, List, [], ◌∷◌, ◌++◌, String, ret, panic, Outcome, ◌≡◌, refl, ◌∙◌,
  if◌then◌else◌,
}
use swayr.Base.Exec.{bind_ret, ◌>>=◌}
use swayr.Focus.{FocusMessage, send}
use swayr.Util.{Selected, chosen, select}
use swayr.Cmds.Command.{SwayrCommand, SwayrCommand-discrete, is_prev_next_window_variant}
use swayr.Cmds.World.{M, Env, World, SwitchToMatchingData, reset, send_message, select_from_menu}
use swayr.Cmds.Exec.{restart_unless, prepare, offered, dispatch, lock, exec_swayr_cmd, run_chosen}

-- The message for the thread that locks focus events in.
abbrev pub message_for : SwayrCommand → FocusMessage
message_for cmd =
    if is_prev_next_window_variant cmd
    then FocusMessage.tick_update_inhibit
    else FocusMessage.tick_update_activate

abbrev pub restarted : {A : Type 0} → Dec A → SwitchToMatchingData → SwitchToMatchingData
restarted (yes p) d = d
restarted (no n) d = reset d true

-- The world before a command: the sequence goes on only if the command is the same.
abbrev pub prepared : SwayrCommand → World → World
prepared cmd w = record w {
  stm_data = restarted (SwayrCommand-discrete cmd w.last_command) w.stm_data;
  fdata = record w.fdata { focus_chan = w.fdata.focus_chan ++ message_for cmd ∷ [] };
}

restart_unless-runs :
    {A : Type 0} (d : Dec A) (w : World)
    → restart_unless d w ≡ (ret tt, record w { stm_data = restarted d w.stm_data })
unfolding restart_unless
restart_unless-runs (yes p) w = refl
restart_unless-runs (no n) w = refl

send_message-runs :
    (b : Bool) (w : World)
    → w.fdata.receiving ≡ true
    → let msg = if b then FocusMessage.tick_update_inhibit else FocusMessage.tick_update_activate in
      send_message msg w ≡ (
        ret tt,
        record w { fdata = record w.fdata { focus_chan = w.fdata.focus_chan ++ msg ∷ [] } },
      )
unfolding send_message send
send_message-runs true w r = rw r refl
send_message-runs false w r = rw r refl

-- With the channel open, what `exec_swayr_cmd` does before the command itself returns: the sequence
-- and its flags are cleared exactly if the command differs from the last one, and the thread that
-- locks focus events in is told to inhibit them for a command for the next or previous window and to
-- go on for any other. Nothing else changes.
prepare-prepared :
    (cmd : SwayrCommand) (w : World)
    → w.fdata.receiving ≡ true
    → prepare cmd w ≡ (ret tt, prepared cmd w)
unfolding prepare
prepare-prepared cmd w r =
    bind_ret (restart_unless (SwayrCommand-discrete cmd w.last_command))
      (λ u. send_message (message_for cmd))
      (restart_unless-runs (SwayrCommand-discrete cmd w.last_command) w)
    ∙ send_message-runs (is_prev_next_window_variant cmd)
        (record w { stm_data = restarted (SwayrCommand-discrete cmd w.last_command) w.stm_data }) r

bind_panic :
    {A B : Type 0} (m : M A) (f : A → M B) (w v : World) {e : String}
    → m w ≡ (panic e, v)
    → (m >>= f) w ≡ (panic e, v)
bind_panic m f w v h = rw h refl

select_from_menu-runs :
    {A : Type 0} (format : A → Outcome String) (choices : List A) (w : World) {stdout : String}
    {r : Outcome (Selected A)}
    → w.answers w.asked ≡ some stdout
    → select format choices stdout ≡ r
    → select_from_menu format choices w ≡ (r, record w { asked = suc w.asked })
unfolding select_from_menu
select_from_menu-runs format choices w a s = rw (a, s) refl

module _ (env : Env) (rounds : ℕ) where
  dispatch-chosen :
      (exec : SwayrCommand → M (Unit {0})) (w : World) {stdout : String} {c : SwayrCommand}
      → w.answers w.asked ≡ some stdout
      → select (λ k. ret (env.debug k)) offered stdout ≡ ret (chosen c)
      → dispatch env rounds exec SwayrCommand.execute_swayr_command w
        ≡ exec c (record w { asked = suc w.asked })
  unfolding dispatch run_chosen
  dispatch-chosen exec w a s =
      bind_ret (select_from_menu (λ k. ret (env.debug k)) offered) (run_chosen env rounds exec)
        {s = w} (select_from_menu-runs (λ k. ret (env.debug k)) offered w a s)

  -- With the channel open, `ExecuteSwayrCommand` never returns when the answer of the menu program is
  -- one of the offered commands: it locks the statics again that it has locked itself, and they stay
  -- locked.
  pub execute_swayr_command-locks_itself :
      (fuel : ℕ) (w : World) {stdout : String} {c : SwayrCommand}
      → w.locked ≡ false
      → w.fdata.receiving ≡ true
      → w.answers w.asked ≡ some stdout
      → select (λ k. ret (env.debug k)) offered stdout ≡ ret (chosen c)
      → (v : World) × (exec_swayr_cmd env rounds
            (suc (suc fuel))
            SwayrCommand.execute_swayr_command
            w
          ≡ (panic "locked by the same thread", v))
        × (v.locked ≡ true)
  unfolding exec_swayr_cmd
  execute_swayr_command-locks_itself fuel w {stdout} {c} l r a s =
      let w₁ : World = record w { locked = true } in
      let w₂ : World = prepared SwayrCommand.execute_swayr_command w₁ in
      let w₃ : World = record w₂ { asked = suc w.asked } in
      let again = exec_swayr_cmd env rounds (suc fuel) in
      (
        w₃,
        bind_ret lock _ {s = w} {s' = w₁} (rw l refl)
            ∙ bind_ret (prepare SwayrCommand.execute_swayr_command) _ {s = w₁} {s' = w₂}
                (prepare-prepared SwayrCommand.execute_swayr_command w₁ r)
            ∙ bind_panic (dispatch env rounds again SwayrCommand.execute_swayr_command) _ w₂ w₃
                (dispatch-chosen again w₂ a s),
        refl,
      )
