-- ===== src/Runtime/Commands/Waiters.antt =====
-- The waiters for a camera's answers.
use bk7252n_gate.Prelude.{
  ℕ, ◌≡◌, ◌≢◌, refl, ap, ◌∙◌, List, [], ◌∷◌, ◌++◌, true, Bool-cases, inl, inr, if◌then◌else◌, Text,
  arith, is_empty, All, none,
}
use bk7252n_gate.Prelude.Int.{ℤ, pos, eq_ℤ}
use bk7252n_gate.Runtime.{CameraRuntime, Command, send_on}
use bk7252n_gate.Runtime.Events.{waiters_of, delete_waiters, on_command}
use bk7252n_gate.Runtime.Commands.{
  put_waiters, remove_first, remove_command_waiter, await, send_and_wait, waiting,
}

waiters_of-delete :
    (k cmd : ℤ) (ws : List (ℤ × List ℕ))
    → waiters_of k (delete_waiters cmd ws) ≡ (if eq_ℤ cmd k then [] else waiters_of k ws)
unfolding waiters_of delete_waiters
waiters_of-delete k cmd [] = ground arith
waiters_of-delete k cmd ((j, chs) ∷ ws) = ground (arith, waiters_of-delete k cmd ws)

pub waiters_of-put :
    (k cmd : ℤ) (chs : List ℕ) (ws : List (ℤ × List ℕ))
    → waiters_of k (put_waiters cmd chs ws) ≡ (if eq_ℤ cmd k then chs else waiters_of k ws)
unfolding waiters_of put_waiters
waiters_of-put k cmd chs ws = ground (arith, waiters_of-delete k cmd ws)

-- An answer with a command number that is not negative wakes the waiters of that command, takes
-- them out of the table and keeps those of every other command.
on_command-waiters :
    (rt : CameraRuntime) (now : ℕ) (raw : Text) (cmd : ℕ) (k : ℤ)
    → ((on_command rt now raw (pos cmd)).1 ≡ waiters_of (pos cmd) rt.command_waiters)
      × (waiters_of k (on_command rt now raw (pos cmd)).0.command_waiters
          ≡ (if eq_ℤ (pos cmd) k then [] else waiters_of k rt.command_waiters))
unfolding on_command
on_command-waiters rt now raw cmd k =
    (refl, ground (arith, waiters_of-delete k (pos cmd) rt.command_waiters))

remove_first-append :
    (ch : ℕ) (ws : List ℕ) → All (λ w. w ≢ ch) ws → remove_first ch (ws ++ (ch ∷ [])) ≡ ws
unfolding remove_first
remove_first-append ch [] h = ground arith
remove_first-append ch (w ∷ ws) h = ground (arith, remove_first-append ch ws h.1)

waiters_of-remove :
    (rt : CameraRuntime) (cmd k : ℤ) (ch : ℕ)
    → waiters_of k (remove_command_waiter rt cmd ch).command_waiters ≡ (
        if eq_ℤ cmd k
        then remove_first ch (waiters_of cmd rt.command_waiters)
        else waiters_of k rt.command_waiters)
unfolding remove_command_waiter is_empty
waiters_of-remove rt cmd k ch = ground (
  arith,
  waiters_of-delete k cmd rt.command_waiters,
  waiters_of-put k cmd (remove_first ch (waiters_of cmd rt.command_waiters)) rt.command_waiters,
)

eq_ℤ→eq : (a b : ℤ) → eq_ℤ a b ≡ true → a ≡ b
eq_ℤ→eq a b h = ground arith

pub eq_ℤ-refl : (a : ℤ) → eq_ℤ a a ≡ true
eq_ℤ-refl a = ground arith

-- A channel that was added behind the waiters and is removed again leaves them as they were.
remove-registered :
    (rt rt' : CameraRuntime) (cmd k : ℤ) (ch : ℕ)
    → rt'.command_waiters
      ≡ put_waiters cmd (waiters_of cmd rt.command_waiters ++ (ch ∷ [])) rt.command_waiters
    → All (λ w. w ≢ ch) (waiters_of cmd rt.command_waiters)
    → waiters_of k (remove_command_waiter rt' cmd ch).command_waiters
      ≡ waiters_of k rt.command_waiters
remove-registered rt rt' cmd k ch e fresh =
    waiters_of-remove rt' cmd k ch ∙ elim (Bool-cases (eq_ℤ cmd k)) [
      | inl same ↦ rw same (
          ap (remove_first ch) (listed cmd ∙ rw (eq_ℤ-refl cmd) refl)
          ∙ remove_first-append ch (waiters_of cmd rt.command_waiters) fresh
          ∙ ap (λ j. waiters_of j rt.command_waiters) (eq_ℤ→eq cmd k same))
      | inr other ↦ rw other (listed k ∙ rw other refl)
    ]
  where
    listed :
        (j : ℤ)
        → waiters_of j rt'.command_waiters ≡ (
            if eq_ℤ cmd j
            then waiters_of cmd rt.command_waiters ++ (ch ∷ [])
            else waiters_of j rt.command_waiters)
    listed j =
        ap (waiters_of j) e
        ∙ waiters_of-put j cmd (waiters_of cmd rt.command_waiters ++ (ch ∷ [])) rt.command_waiters

send_on-waiters :
    (marshal : Command → List ℕ) (rt : CameraRuntime) (c : Command)
    → (send_on marshal rt c).0.0.command_waiters ≡ rt.command_waiters
unfolding send_on
send_on-waiters marshal rt c = ground arith

module _ (marshal : Command → List ℕ) (rt : CameraRuntime) (c : Command) (ch : ℕ) where
  abbrev registered : CameraRuntime
  registered = record rt {
    command_waiters =
        put_waiters (pos c.cmd) (waiters_of (pos c.cmd) rt.command_waiters ++ (ch ∷ []))
          rt.command_waiters;
  }

  pub send_and_wait-waiting :
      (send_and_wait marshal rt c ch).1 ≡ waiting ch
      → (send_and_wait marshal rt c ch).0.0.command_waiters ≡ registered.command_waiters
  unfolding send_and_wait
  send_and_wait-waiting h = ground (arith, send_on-waiters marshal registered c)

  -- A command that was sent and then times out leaves the waiters of every command as they were
  -- before it, provided that its channel is no other waiter's.
  pub await-timeout :
      (k : ℤ)
      → (send_and_wait marshal rt c ch).1 ≡ waiting ch
      → All (λ w. w ≢ ch) (waiters_of (pos c.cmd) rt.command_waiters)
      → waiters_of k (await (send_and_wait marshal rt c ch).0.0 c ch none).0.command_waiters
        ≡ waiters_of k rt.command_waiters
  unfolding await
  await-timeout k h fresh =
      remove-registered rt (send_and_wait marshal rt c ch).0.0 (pos c.cmd) k ch
        (send_and_wait-waiting h) fresh
