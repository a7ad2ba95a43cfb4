-- ===== src/Device/Reads.antt =====
-- What `RefreshDeviceConfig` and the Wi-Fi request report.
use bk7252n_gate.Prelude.{ℕ, ◌≡◌, List, [], ◌∷◌, Bool, true, ◌&&◌, not, Text, arith}
use bk7252n_gate.Runtime.{Command}
use bk7252n_gate.Runtime.Commands.{CommandResult}
use bk7252n_gate.Device.Actions.{Progress}
use bk7252n_gate.Device.{command}
use bk7252n_gate.Device.Requests.{reads, demand_answer, refresh_each, refresh_device_config}

-- The answers of the camera to a row of reads, each from the state that the one before it left.
unfoldable pub answers_to :
    {S : Type 0} → (S → Command → S × CommandResult) → S → List (ℕ × Text) → List CommandResult
answers_to exchange s [] = []
answers_to exchange s ((cmd, pro) ∷ rest) =
    let r = exchange s (command cmd pro []) in r.1 ∷ answers_to exchange r.0 rest

unfoldable pub all_answered : List CommandResult → Bool
all_answered [] = true
all_answered (r ∷ rs) = r.ok && not r.timeout && all_answered rs

module _ {S : Type 0} (exchange : S → Command → S × CommandResult) where
  refresh_each-all_ok :
      (todo : List (ℕ × Text)) (p : Progress S)
      → (refresh_each exchange todo p).all_ok
        ≡ p.all_ok && all_answered (answers_to exchange p.world todo)
  unfolding refresh_each all_answered answers_to demand_answer
  refresh_each-all_ok [] p = ground arith
  refresh_each-all_ok ((cmd, pro) ∷ todo) p = rw (refresh_each-all_ok todo _) (ground arith)

  -- A refresh of the settings reports `ok` exactly if each of its seven reads was answered well and in
  -- time, and it asks for all seven even after one has failed.
  refresh_device_config-all_ok :
      (s : S)
      → (refresh_device_config exchange s).all_ok ≡ all_answered (answers_to exchange s reads)
  unfolding refresh_device_config
  refresh_device_config-all_ok s = refresh_each-all_ok reads _
