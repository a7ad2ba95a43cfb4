-- ===== src/Device/Provisioned.antt =====
-- What a provisioning request does to the list of cameras.
use bk7252n_gate.Prelude.{
  ℕ, ◌≡◌, refl, ◌∙◌, inl, inr, List, [], Bool, true, false, Bool-cases, ◌||◌, Option, none, some,
  if◌then◌else◌, Text, text, is_empty,
}
use mathlib.Core.Path.{subst}
use bk7252n_gate.Config.{CameraConfig, Ip4}
use bk7252n_gate.Input.{Object, FloatOps, Result-cases, valid_camera_id, input_string, input_bool}
use bk7252n_gate.Input.Strings.{trim_space}
use bk7252n_gate.Input.Camera.{normalize_camera}
use bk7252n_gate.Runtime.{Command}
use bk7252n_gate.Runtime.Commands.{CommandResult}
use bk7252n_gate.App.{App, upsert_runtime}
use bk7252n_gate.App.Cameras.{IsUnique, upsert_runtime-cameras}
use bk7252n_gate.App.Runtimes.{remove_runtime-cameras}
use bk7252n_gate.App.Changes.{normalize_camera-id}
use bk7252n_gate.Device.Requests.{set_wifi, reboot}
use bk7252n_gate.Device.Listed.{IsAllOrNothing, with_camera-IsListed, read_provisioning-id}
use bk7252n_gate.Device.Provision.{
  World, proceed, existing_camera, Provisioning, read_provisioning, setup_input, restore,
  with_camera, keep_camera, final_input, finish_provisioning, send_wifi, connect_camera,
  provision_camera,
}

module _ (parse_ip4 : Text → Option Ip4) (decimal : ℕ → Text) (save : List CameraConfig → Bool)
    (saves : (cams : List CameraConfig) → save cams ≡ true) where
  restore-cameras :
      (w : World) (now : ℕ) (id : Text) (existing : Option CameraConfig)
      → (restore parse_ip4 decimal w now id existing).0.cameras ≡ w.0.cameras
  unfolding restore proceed
  restore-cameras w now id (some cam) = upsert_runtime-cameras parse_ip4 w.0 now cam
  restore-cameras w now id none = remove_runtime-cameras w.0 id

  keep_camera-IsAllOrNothing :
      (w : World) (now : ℕ) (id : Text) (cam : CameraConfig)
      → cam.id ≡ id
      → IsUnique w.0.cameras
      → IsAllOrNothing id w.0.cameras (keep_camera parse_ip4 decimal save w now id cam)
  unfolding keep_camera proceed
  keep_camera-IsAllOrNothing w now id cam e u =
      let changed = record w.0 { cameras = with_camera id cam w.0.cameras } in
      rw (saves _) (
        rw (upsert_runtime-cameras parse_ip4 changed now cam)
          (with_camera-IsListed id cam w.0.cameras e u))

  module _ {F : Type 0} (fl : FloatOps F) (exchange : World → Command → World × CommandResult)
      (wait_for_session : World → World × Bool) (public_host : Text)
      (exchange_keeps : (w : World) (c : Command) → (exchange w c).0.0.cameras ≡ w.0.cameras)
      (wait_keeps : (w : World) → (wait_for_session w).0.0.cameras ≡ w.0.cameras) where
    set_wifi-cameras :
        (w : World) (ssid password : Text)
        → (set_wifi exchange w ssid password).0.0.cameras ≡ w.0.cameras
    unfolding set_wifi
    set_wifi-cameras w ssid password =
        elim (Bool-cases (is_empty (trim_space ssid) || is_empty password)) [
          | inl blank ↦ rw blank refl
          | inr filled ↦ rw filled (exchange_keeps w _)
        ]

    -- The world after the reboot, if there is one.
    rebooted-cameras :
        (w : World) (b : Bool) → (if b then (reboot exchange w).0 else w).0.cameras ≡ w.0.cameras
    unfolding reboot
    rebooted-cameras w true = exchange_keeps w _
    rebooted-cameras w false = refl

    finish_provisioning-IsAllOrNothing :
        (w : World) (now : ℕ) (body : Object F) (id : Text) (setup : CameraConfig)
        → valid_camera_id id ≡ true
        → IsUnique w.0.cameras
        → IsAllOrNothing id w.0.cameras (
            finish_provisioning parse_ip4 decimal save fl exchange wait_for_session public_host w
              now body id setup)
    unfolding finish_provisioning final_input
    finish_provisioning-IsAllOrNothing w now body id setup v u =
        let rebooted =
          if input_bool fl body (text "reboot") true then (reboot exchange w).0 else w in
        let e = rebooted-cameras w (input_bool fl body (text "reboot") true) in
        elim (Result-cases (
          normalize_camera fl
            (final_input parse_ip4 decimal save fl exchange wait_for_session public_host body id
              setup)
            (some setup))) [
              | inl (x, refused) ↦ rw (refused, finish_provisioning) e
              | inr (cam, accepted) ↦
                  let named =
                    normalize_camera-id parse_ip4 fl save saves id _ setup cam v accepted in
                  let kept = keep_camera-IsAllOrNothing rebooted now id cam named (rw e u) in
                  rw (accepted, finish_provisioning)
                    (subst
                      (λ c.
                        IsAllOrNothing id c
                          (keep_camera parse_ip4 decimal save rebooted now id cam))
                      e kept)
            ]

    send_wifi-IsAllOrNothing :
        (w : World) (now : ℕ) (body : Object F) (p : Provisioning) (existing : Option CameraConfig)
        (setup : CameraConfig)
        → valid_camera_id p.id ≡ true
        → IsUnique w.0.cameras
        → IsAllOrNothing p.id w.0.cameras (
            send_wifi parse_ip4 decimal save fl exchange wait_for_session public_host w now body p
              existing setup)
    unfolding send_wifi
    send_wifi-IsAllOrNothing w now body p existing setup v u =
        let r = set_wifi exchange w p.ssid p.wifi_password in
        let e = set_wifi-cameras w p.ssid p.wifi_password in
        elim (Bool-cases r.1.ok) [
          | inl sent ↦
              let done = finish_provisioning-IsAllOrNothing r.0 now body p.id setup v (rw e u) in
              rw sent (
                subst
                  (λ c. IsAllOrNothing p.id c (
                    finish_provisioning parse_ip4 decimal save fl exchange wait_for_session
                      public_host r.0 now body p.id setup))
                  e done)
          | inr refused ↦ rw refused (restore-cameras r.0 now p.id existing ∙ e)
        ]

    connect_camera-IsAllOrNothing :
        (app : App) (now later : ℕ) (body : Object F) (p : Provisioning)
        (existing : Option CameraConfig) (setup : CameraConfig)
        → valid_camera_id p.id ≡ true
        → IsUnique app.cameras
        → IsAllOrNothing p.id app.cameras (
            connect_camera parse_ip4 decimal save fl exchange wait_for_session public_host app now
              later body p existing setup)
    unfolding connect_camera
    connect_camera-IsAllOrNothing app now later body p existing setup v u =
        let started = upsert_runtime parse_ip4 app now setup in
        let waited = wait_for_session started in
        let e = wait_keeps started ∙ upsert_runtime-cameras parse_ip4 app now setup in
        elim (Bool-cases waited.1) [
          | inl connected ↦
              let done = send_wifi-IsAllOrNothing waited.0 later body p existing setup v (rw e u) in
              rw connected (
                subst
                  (λ c. IsAllOrNothing p.id c (
                    send_wifi parse_ip4 decimal save fl exchange wait_for_session public_host
                      waited.0 later body p existing setup))
                  e done)
          | inr silent ↦ rw silent (restore-cameras waited.0 later p.id existing ∙ e)
        ]

    -- If the configuration can be saved, and neither the wait for the camera nor a command changes the list of cameras, a
    -- request that sets up a camera's Wi-Fi is all or nothing for the list: an error leaves it as it was, and a success
    -- lists one camera under the id of the request and leaves every other id with the camera
    -- that it had. No two cameras have the same id before, and none have after.
    pub provision_camera-IsAllOrNothing :
        (app : App) (now later : ℕ) (body : Object F)
        → IsUnique app.cameras
        → IsAllOrNothing (input_string fl body (text "id") []) app.cameras (
            provision_camera parse_ip4 decimal save fl exchange wait_for_session public_host app now
              later body)
    unfolding provision_camera
    provision_camera-IsAllOrNothing app now later body u =
        elim (Result-cases (read_provisioning fl body)) [
          | inl (x, refused) ↦ rw (refused, provision_camera) refl
          | inr (p, read) ↦
              let existing = existing_camera app p.id in
              elim (Result-cases
                (normalize_camera fl (setup_input fl body existing p.id) existing)) [
                  | inl (x, refused) ↦ rw (read, refused, provision_camera) refl
                  | inr (setup, accepted) ↦
                      let (named, v) = read_provisioning-id fl body p read in
                      let done =
                        connect_camera-IsAllOrNothing app now later body p existing setup v u in
                      rw (read, accepted, provision_camera)
                        (subst
                          (λ i. IsAllOrNothing i app.cameras (
                            connect_camera parse_ip4 decimal save fl exchange wait_for_session
                              public_host app now later body p existing setup))
                          named done)
                ]
        ]
