-- ===== src/Runtime/Commands.antt =====
-- `commandWithResponse`, split at its wait, and `removeCommandWaiter`.
pub mod Waiters
use bk7252n_gate.Prelude.{
  ℕ, List, [], ◌∷◌, ◌++◌, Bool, true, false, ◌||◌, Option, none, some, ◌==◌, if◌then◌else◌, Text,
  text, is_empty,
}
use bk7252n_gate.Prelude.Int.{ℤ, pos, eq_ℤ}
use bk7252n_gate.Runtime.{CameraRuntime, Step, Command, is_zero, send_on}
use bk7252n_gate.Runtime.Events.{waiters_of, delete_waiters}

-- `rt.commandWaiters[cmd] = chs`
unfoldable pub put_waiters : ℤ → List ℕ → List (ℤ × List ℕ) → List (ℤ × List ℕ)
put_waiters cmd chs ws = (cmd, chs) ∷ delete_waiters cmd ws

-- The loop of `removeCommandWaiter`, which stops at the first match.
unfoldable pub remove_first : ℕ → List ℕ → List ℕ
remove_first ch [] = []
remove_first ch (w ∷ ws) = if w == ch then ws else w ∷ remove_first ch ws

unfoldable pub remove_command_waiter : CameraRuntime → ℤ → ℕ → CameraRuntime
remove_command_waiter rt cmd ch =
    let left = remove_first ch (waiters_of cmd rt.command_waiters) in
    record rt {
      command_waiters =
          if is_empty left
          then delete_waiters cmd rt.command_waiters
          else put_waiters cmd left rt.command_waiters;
    }

-- How `commandWithResponse` goes on after the command has been sent.
pub data Sent : Type 0 where
  refused : Text → Sent  -- no session, or the send failed
  waiting : ℕ → Sent  -- on the channel with this name

module _ (marshal : Command → List ℕ) where
  -- Up to the `select`; `ch` is the fresh channel.
  unfoldable pub send_and_wait : CameraRuntime → Command → ℕ → Step × Sent
  send_and_wait rt c ch =
      let cmd = pos c.cmd in
      let registered = record rt {
        command_waiters =
            put_waiters cmd (waiters_of cmd rt.command_waiters ++ (ch ∷ [])) rt.command_waiters;
      } in
      let r = send_on marshal registered c in
      if elim rt.pppp [ none ↦ true | some _ ↦ false ] || is_zero rt.connected_at
      then ((rt, []), refused (text "camera is not connected"))
      else (if r.1
          then (r.0, waiting ch)
          else ((remove_command_waiter r.0.0 cmd ch, r.0.1), refused (text "not connected")))

-- The field `Error` of a result: none, a text, or "camera returned result %d".
pub data Failure : Type 0 where
  no_error : Failure
  said : Text → Failure
  returned : ℤ → Failure

-- `CommandResult`, without what it echoes.
pub record CommandResult : Type 0 where
  pub ok : Bool
  pub error : Failure
  pub timeout : Bool
  pub result : ℤ

abbrev pub failed : Text → CommandResult
failed why = record { ok = false; error = said why; timeout = false; result = pos 0 }

-- What the `select` gives: an answer with its `result`, or the timeout, which takes the waiter out.
unfoldable pub await : CameraRuntime → Command → ℕ → Option ℤ → CameraRuntime × CommandResult
await rt c ch none = (
  remove_command_waiter rt (pos c.cmd) ch,
  record { ok = true; error = no_error; timeout = true; result = pos 0 },
)
await rt c ch (some result) =
    let is_fine = eq_ℤ result (pos 0) in
    (
      rt,
      record {
        ok = is_fine;
        error = if is_fine then no_error else returned result;
        timeout = false;
        result = result;
      },
    )

module _ (marshal : Command → List ℕ) where
  -- `commandWithResponse` as a whole, with a positive timeout; `meanwhile` is what happens to the
  -- runtime during the wait, and `answer` what arrives on the channel.
  unfoldable pub command_with_response :
      (CameraRuntime → CameraRuntime)
      → CameraRuntime
      → Command
      → ℕ
      → Option ℤ
      → Step × CommandResult
  command_with_response meanwhile rt c ch answer =
      let sent = send_and_wait marshal rt c ch in
      elim sent.1 [
        | refused why ↦ (sent.0, failed why)
        | waiting ch' ↦
            let done = await (meanwhile sent.0.0) c ch' answer in ((done.0, sent.0.1), done.1)
      ]
