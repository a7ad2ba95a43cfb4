-- ===== src/Device/Requests.antt =====
-- `SetWifi`, `ScanWifi`, `RefreshParams`, `Reboot`, `RefreshDeviceConfig`, `streamCommandOK` and the cases
-- of `handleAPI` that use them or `ApplyDeviceConfig` (bkcam-go/main.go).
use bk7252n_gate.Prelude.{
  ℕ, List, [], ◌∷◌, ◌++◌, Bool, true, false, ◌&&◌, ◌||◌, Option, none, some, if◌then◌else◌, Text,
  text, text_eq, is_empty,
}
use bk7252n_gate.Prelude.Int.{ℤ}
use bk7252n_gate.Config.{CameraConfig}
use bk7252n_gate.Input.{Object, FloatOps, Result, ok, err, input_string, input_password, input_bool}
use bk7252n_gate.Input.Strings.{trim_space}
use bk7252n_gate.Runtime.{Command, num, txt}
use bk7252n_gate.Runtime.Commands.{CommandResult, said, failed}
use bk7252n_gate.App.{App, target_stream_size, set_camera_profile_size}
use bk7252n_gate.Device.Actions.{Entry, Progress}
use bk7252n_gate.Device.{command, Light, apply_device_config}

-- What a read that is not answered in time counts as.
unfoldable pub demand_answer : CommandResult → CommandResult
demand_answer r =
    if r.timeout
    then record r { ok = false; error = said (text "camera did not answer this read command") }
    else r

-- The commands of `RefreshDeviceConfig`, each with the name of its protocol.
abbrev pub reads : List (ℕ × Text)
reads =
    (101, text "get_parms")
    ∷ (107, text "get_cyalarm")
    ∷ (112, text "get_wifi")
    ∷ (9101, text "get_sysparms")
    ∷ (9102, text "get_cloudsupport")
    ∷ (9103, text "get_whiteLight")
    ∷ (9104, text "get_sound_light_alarm")
    ∷ []

-- Whether the first command that chooses a stream was answered well; the preset `stop` chooses none.
unfoldable pub stream_command_ok : List Entry → Bool
stream_command_ok [] = false
stream_command_ok (e ∷ es) =
    let later = stream_command_ok es in
    if text_eq e.name (text "preset.stable320.video")
      || text_eq e.name (text "preset.quality640.video")
      || text_eq e.name (text "stream.video")
    then e.result.ok
    else later

-- http.StatusOK or http.StatusConflict
abbrev status_for : Bool → ℕ
status_for fine = if fine then 200 else 409

module _ {S : Type 0} (exchange : S → Command → S × CommandResult) where
  unfoldable pub set_wifi : S → Text → Text → S × CommandResult
  set_wifi s ssid password =
      if is_empty (trim_space ssid) || is_empty password
      then (s, failed (text "ssid and password are required"))
      else exchange s (
          command 114 (text "set_wifi") (
            (text "wifissid", txt ssid)
            ∷ (text "encwifissid", txt ssid)
            ∷ (text "wifipwd", txt password)
            ∷ (text "encwifipwd", txt password)
            ∷ (text "encryption", num 1)
            ∷ []))

  unfoldable pub scan_wifi : S → S × CommandResult
  scan_wifi s = exchange s (command 113 (text "scan_wifi") [])

  unfoldable pub refresh_params : S → S × CommandResult
  refresh_params s = exchange s (command 101 (text "get_parms") [])

  unfoldable pub reboot : S → S × CommandResult
  reboot s = exchange s (command 102 (text "dev_control") ((text "reboot", num 1) ∷ []))

  unfoldable pub refresh_each : List (ℕ × Text) → Progress S → Progress S
  refresh_each [] p = p
  refresh_each ((cmd, pro) ∷ rest) p =
      let c = command cmd pro [] in
      let r = exchange p.world c in
      let result = demand_answer r.1 in
      refresh_each rest record {
        world = r.0;
        all_ok = p.all_ok && result.ok;
        commands = p.commands ++ (record { name = pro; sent = some c; result = result } ∷ []);
      }

  unfoldable pub refresh_device_config : S → Progress S
  refresh_device_config s = refresh_each reads record { world = s; all_ok = true; commands = [] }

  module _ {F : Type 0} (fl : FloatOps F) where
    -- POST wifi: the state, whether a reboot is to follow, and the status.
    unfoldable pub handle_wifi : S → Object F → S × Bool × ℕ
    handle_wifi s body =
        let r =
          set_wifi s (input_string fl body (text "ssid") [])
            (input_password fl body (text "password") []) in
        (r.0, r.1.ok && input_bool fl body (text "reboot") false, status_for r.1.ok)

-- POST device-config answers with a status, and with the profile that it saved, if any.
abbrev pub Answer : Type 0
Answer = Result (ℕ × Option (ℤ × ℤ))

module _ {F : Type 0} (fl : FloatOps F) (exchange : App → Command → App × CommandResult)
    (save : List CameraConfig → Bool) where
  -- `targetStreamSize` and `streamCommandOK` decide whether the profile is saved.
  unfoldable pub keep_profile : Text → Object F → Progress App → App × Answer
  keep_profile id body p = elim (target_stream_size fl body) [
    | none ↦ (p.world, ok (status_for p.all_ok, none))
    | some (width, height) ↦
        if stream_command_ok p.commands
        then (let r = set_camera_profile_size save p.world id width height in
            elim r.2 [
              | err e ↦ (r.0, err e)
              | ok _ ↦ (r.0, ok (status_for p.all_ok, some (width, height)))
            ])
        else (p.world, ok (status_for p.all_ok, none))
  ]

  unfoldable pub handle_device_config : Option Light → App → Text → Object F → App × Answer
  handle_device_config light app id body =
      let r =
        apply_device_config fl exchange light body
          record { world = app; all_ok = true; commands = [] } in
      elim r.0 [ err e ↦ (r.1.world, err e) | ok _ ↦ keep_profile id body r.1 ]
