-- ===== src/Device/Provision.antt =====
-- `provisionCamera` and `defaultLanDiscovery` of bkcam-go/main.go. `exchange` is commandWithResponse, and
-- `wait_for_session` is WaitForSession: what happens to the program while it waits, and whether the
-- camera is connected then. `decimal` is the verb `%d`, `public_host` the field of App.
use bk7252n_gate.Prelude.{
  ℕ, List, [], ◌∷◌, ◌++◌, Bool, true, not, Option, none, some, if◌then◌else◌, Text, text, is_empty,
}
use bk7252n_gate.Prelude.Int.{ℤ}
use bk7252n_gate.Config
use bk7252n_gate.Config.{CameraConfig, Ip4}
use bk7252n_gate.Config.Existing.{
  existing_name, existing_local_address, existing_psk, existing_username, existing_password,
  existing_width, existing_height, existing_ack_repeats, existing_av_stream, existing_overlay_name,
  existing_overlay_time, existing_overlay_diag, existing_overlay_size, existing_verbose,
}
use bk7252n_gate.Input.{
  Object, Value, FloatOps, str, int, bool, Result, ok, err, ◌>>◌, require, bad_request,
  first_non_empty, valid_camera_id, input_string, input_password, input_bool, input_int,
}
use bk7252n_gate.Input.Camera.{normalize_camera}
use bk7252n_gate.Runtime.{Act, Command}
use bk7252n_gate.Runtime.Commands.{CommandResult, Failure, no_error, said, returned}
use bk7252n_gate.App.{App, fail, camera_index, camera_at, put_at, upsert_runtime, remove_runtime}
use bk7252n_gate.Device.Requests.{set_wifi, reboot}

-- The program, and what it has started so far.
abbrev pub World : Type 0
World = App × List Act

unfoldable pub proceed : World → App × List Act → World
proceed w r = (r.0, w.1 ++ r.1)

unfoldable pub existing_camera : App → Text → Option CameraConfig
existing_camera app id = elim (camera_index id app.cameras) [
  | none ↦ none
  | some idx ↦ camera_at idx app.cameras
]

unfoldable pub with_camera : Text → CameraConfig → List CameraConfig → List CameraConfig
with_camera id cam cams = elim (camera_index id cams) [
  | none ↦ cams ++ (cam ∷ [])
  | some idx ↦ put_at idx cam cams
]

-- What a provisioning request asks for.
pub record Provisioning : Type 0 where
  pub id : Text
  pub ssid : Text
  pub wifi_password : Text

module _ {F : Type 0} (fl : FloatOps F) where
  unfoldable pub read_provisioning : Object F → Result Provisioning
  read_provisioning body = do
    let id = input_string fl body (text "id") []
    let ssid = input_string fl body (text "ssid") []
    let wifi_password = input_password fl body (text "wifiPassword") []
    require (not (is_empty id)) bad_request (text "camera id is required")
    require (valid_camera_id id) bad_request (text "camera id must match /^[A-Za-z0-9_-]+$/")
    require (not (is_empty ssid)) bad_request (text "target SSID is required")
    require (not (is_empty wifi_password)) bad_request (text "target Wi-Fi password is required")
    ok (record { id = id; ssid = ssid; wifi_password = wifi_password })

  abbrev string_of : Object F → Text → Text → Text × Value F
  string_of body key fallback = (key, str (input_string fl body key fallback))

  abbrev int_of : Object F → Text → ℤ → Text × Value F
  int_of body key fallback = (key, int (input_int fl body key fallback))

  abbrev bool_of : Object F → Text → Bool → Text × Value F
  bool_of body key fallback = (key, bool (input_bool fl body key fallback))

  -- `setupInput`
  unfoldable pub setup_input : Object F → Option CameraConfig → Text → Object F
  setup_input body existing id =
      let setup_ip = input_string fl body (text "setupIp") [] in
      (text "id", str id)
      ∷ string_of body (text "name") (first_non_empty (existing_name existing ∷ id ∷ []))
      ∷ (text "ip", str setup_ip)
      ∷ (
        text "discovery",
        str (
            input_string fl body (text "setupDiscovery")
              (first_non_empty (setup_ip ∷ text "255.255.255.255" ∷ []))),
      )
      ∷ string_of body (text "localAddress") (existing_local_address existing)
      ∷ string_of body (text "psk") (first_non_empty (existing_psk existing ∷ text "SHIX" ∷ []))
      ∷ string_of body (text "username")
          (first_non_empty (existing_username existing ∷ text "admin" ∷ []))
      ∷ (
        text "password",
        str (
            input_password fl body (text "password")
              (first_non_empty (existing_password existing ∷ text "6666" ∷ []))),
      )
      ∷ int_of body (text "width") (existing_width existing)
      ∷ int_of body (text "height") (existing_height existing)
      ∷ int_of body (text "ackRepeats") (existing_ack_repeats existing)
      ∷ (text "enabled", bool true)
      ∷ bool_of body (text "avStream") (existing_av_stream existing)
      ∷ bool_of body (text "overlayName") (existing_overlay_name existing)
      ∷ bool_of body (text "overlayTime") (existing_overlay_time existing)
      ∷ bool_of body (text "overlayDiag") (existing_overlay_diag existing)
      ∷ int_of body (text "overlaySize") (existing_overlay_size existing)
      ∷ bool_of body (text "verbose") (existing_verbose existing)
      ∷ []

  -- `result.Error`
  unfoldable pub failure_text : Failure → Text
  failure_text no_error = []
  failure_text (said why) = why
  failure_text (returned n) = text "camera returned result " ++ fl.print_int n

module _ (parse_ip4 : Text → Option Ip4) (decimal : ℕ → Text) where
  unfoldable pub default_lan_discovery : Text → Text
  default_lan_discovery public_host = elim (parse_ip4 public_host) [
    | none ↦ text "255.255.255.255"
    | some ip ↦
        decimal ip.b0
        ++ (text "." ++ (decimal ip.b1 ++ (text "." ++ (decimal ip.b2 ++ text ".255"))))
  ]

  -- The runtime of the camera as it was, or none.
  unfoldable pub restore : World → ℕ → Text → Option CameraConfig → World
  restore w now id (some cam) = proceed w (upsert_runtime parse_ip4 w.0 now cam)
  restore w now id none = proceed w (remove_runtime w.0 id)

  module _ (save : List CameraConfig → Bool) where
    -- The final camera is listed, saved and given a runtime.
    unfoldable pub keep_camera : World → ℕ → Text → CameraConfig → World × Result (Unit {0})
    keep_camera w now id cam =
        let changed = record w.0 { cameras = with_camera id cam w.0.cameras } in
        if save changed.cameras
        then (proceed w (upsert_runtime parse_ip4 changed now cam), ok tt)
        else ((changed, w.1), fail 500 (text "config not saved"))

    module _ {F : Type 0} (fl : FloatOps F) (exchange : World → Command → World × CommandResult)
        (wait_for_session : World → World × Bool) (public_host : Text) where
      unfoldable pub final_input : Object F → Text → CameraConfig → Object F
      final_input body id setup =
          let final_ip = input_string fl body (text "finalIp") [] in
          (text "id", str id)
          ∷ (text "name", str setup.name)
          ∷ (text "ip", str final_ip)
          ∷ (
            text "discovery",
            str (
                input_string fl body (text "finalDiscovery")
                  (first_non_empty (final_ip ∷ default_lan_discovery public_host ∷ []))),
          )
          ∷ (text "enabled", bool true)
          ∷ []

      -- From the reboot on.
      unfoldable pub finish_provisioning :
          World → ℕ → Object F → Text → CameraConfig → World × Result (Unit {0})
      finish_provisioning w now body id setup =
          let rebooted =
            if input_bool fl body (text "reboot") true then (reboot exchange w).0 else w in
          elim (normalize_camera fl (final_input body id setup) (some setup)) [
            | err e ↦ (rebooted, err e)
            | ok cam ↦ keep_camera rebooted now id cam
          ]

      -- From the session on.
      unfoldable pub send_wifi :
          World
          → ℕ
          → Object F
          → Provisioning
          → Option CameraConfig
          → CameraConfig
          → World × Result (Unit {0})
      send_wifi w now body p existing setup =
          let r = set_wifi exchange w p.ssid p.wifi_password in
          if r.1.ok then finish_provisioning r.0 now body p.id setup else (
            restore r.0 now p.id existing,
            fail 409 (
                first_non_empty
                  (failure_text fl r.1.error ∷ text "failed to send Wi-Fi settings" ∷ [])),
          )

      -- From the runtime that is set up on; `later` is the time after the wait.
      unfoldable pub connect_camera :
          App
          → ℕ
          → ℕ
          → Object F
          → Provisioning
          → Option CameraConfig
          → CameraConfig
          → World × Result (Unit {0})
      connect_camera app now later body p existing setup =
          let waited = wait_for_session (upsert_runtime parse_ip4 app now setup) in
          if waited.1 then send_wifi waited.0 later body p existing setup else (
            restore waited.0 later p.id existing,
            fail 409 (text "camera did not answer at " ++ Config.discovery setup),
          )

      unfoldable pub provision_camera : App → ℕ → ℕ → Object F → World × Result (Unit {0})
      provision_camera app now later body = elim (read_provisioning fl body) [
        | err e ↦ ((app, []), err e)
        | ok p ↦
            let existing = existing_camera app p.id in
            elim (normalize_camera fl (setup_input fl body existing p.id) existing) [
              | err e ↦ ((app, []), err e)
              | ok setup ↦ connect_camera app now later body p existing setup
            ]
      ]
