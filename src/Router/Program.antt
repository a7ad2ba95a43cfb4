-- ===== src/Router/Program.antt =====
-- The handlers that `handleAPI` of bkcam-go/main.go calls, over the program's state at the time `now`, and what a
-- request does then. `exchange` is commandWithResponse of the runtime with an id, `light` what the analysis
-- of its last frame finds; `later` and `wait_for_session` are as in provisionCamera.
use bk7252n_gate.Prelude.{
  ℕ, List, [], ◌∷◌, ◌++◌, Bool, Option, none, some, if◌then◌else◌, Text, text,
}
use bk7252n_gate.Config.{CameraConfig, Ip4}
use bk7252n_gate.Input.{Object, FloatOps, Result, ok, err, input_string}
use bk7252n_gate.Runtime.{Command, Act}
use bk7252n_gate.Runtime.Lifecycle.{restart}
use bk7252n_gate.Runtime.Commands.{CommandResult}
use bk7252n_gate.App.{
  App, Outcome, camera_index, camera_at, runtime_of, put_runtime, create_camera, update_camera,
  delete_camera,
}
use bk7252n_gate.Runtime.Status.{trim_windows}
use bk7252n_gate.Input.Camera.{normalize_camera}
use bk7252n_gate.App.Sorted.{ids_of, sort_strings}
use bk7252n_gate.Device.{Light}
use bk7252n_gate.Device.Provision.{World, provision_camera}
use bk7252n_gate.Device.Requests.{
  Answer, scan_wifi, refresh_params, reboot, refresh_device_config, handle_wifi,
  handle_device_config,
}
use bk7252n_gate.Router.{Reply, answered, refused, crashed, Found, unknown, idle, camera, Api}

-- The state, what it has started, and the cameras that are to be rebooted in one and a half seconds.
pub record Program : Type 0 where
  pub app : App
  pub acts : List Act
  pub reboots : List Text

unfoldable pub reply : ℕ → Result (Unit {0}) → Reply
reply status (ok _) = answered status
reply status (err e) = refused e

unfoldable pub answer_reply : Answer → Reply
answer_reply (ok (status, profile)) = answered status
answer_reply (err e) = refused e

-- `Status` of the runtime with an id
unfoldable pub see_runtime : ℕ → App → Text → App
see_runtime now app id = elim (runtime_of id app.runtimes) [
  | none ↦ app
  | some rt ↦ record app { runtimes = put_runtime id (trim_windows rt now) app.runtimes }
]

unfoldable pub see_each : ℕ → App → List Text → App
see_each now app [] = app
see_each now app (id ∷ ids) = see_each now (see_runtime now app id) ids

-- The loop of `publicConfigsWithStatus` over the cameras
unfoldable pub camera_ids : List CameraConfig → List Text
camera_ids [] = []
camera_ids (cam ∷ cams) = cam.id ∷ camera_ids cams

-- An answer of success has the `Status` of the camera in it.
unfoldable pub with_status : ℕ → Text → Program × Reply → Program × Reply
with_status now id (p, answered status) =
    (record p { app = see_runtime now p.app id }, answered status)
with_status now id (p, refused e) = (p, refused e)
with_status now id (p, crashed) = (p, crashed)

-- The state behind a change of the cameras.
unfoldable pub after : Program → ℕ → Outcome → Program × Reply
after p status (app, acts, result) =
    (record p { app = app; acts = p.acts ++ acts }, reply status result)

unfoldable pub found_at : App → Text → Option ℕ → Found
found_at app id none = unknown
found_at app id (some idx) = elim (runtime_of id app.runtimes) [
  | none ↦ idle
  | some _ ↦ elim (camera_at idx app.cameras) [ none ↦ unknown | some cam ↦ camera cam ]
]

-- `cameraIndexLocked` and the runtime, under one lock
unfoldable pub find : Program → Text → Found
find p id = found_at p.app id (camera_index id p.app.cameras)

-- Status 200 if a command's answer is good, 409 if not.
unfoldable pub command_reply : Program → App × CommandResult → Program × Reply
command_reply p (app, r) = (record p { app = app }, answered (if r.ok then 200 else 409))

unfoldable pub restart_runtime : Program → ℕ → Text → Program × Reply
restart_runtime p now id = elim (runtime_of id p.app.runtimes) [
  | none ↦ (p, answered 200)
  | some rt ↦
      let step = restart rt now (text "manual restart") in
      (
        record p {
          app = record p.app { runtimes = put_runtime id step.0.0 p.app.runtimes };
          acts = p.acts ++ step.0.1;
        },
        answered 200,
      )
]

unfoldable pub wifi_reply : Program → Text → App × Bool × ℕ → Program × Reply
wifi_reply p id (app, reboots, status) = (
  record p { app = app; reboots = if reboots then p.reboots ++ (id ∷ []) else p.reboots },
  answered status,
)

-- The id of the camera that a request creates, `camera.ID`
unfoldable pub created_id : {F : Type 0} → FloatOps F → Object F → Text
created_id fl body = elim (normalize_camera fl body none) [ err e ↦ [] | ok cam ↦ cam.id ]

module _ (parse_ip4 : Text → Option Ip4) (print : ℕ → Text) {F : Type 0} (fl : FloatOps F)
    (save : List CameraConfig → Bool) (exchange : Text → App → Command → App × CommandResult)
    (light : App → Text → Option Light) (wait_for_session : World → World × Bool)
    (public_host : Text) (now later : ℕ) where
  -- Provisioning speaks to the camera that the request names.
  unfoldable pub provision : Program → Object F → Program × Reply
  provision p body =
      let id = input_string fl body (text "id") [] in
      let speak : World → Command → World × CommandResult =
        λ w c. (let r = exchange id w.0 c in ((r.0, w.1), r.1)) in
      let r =
        provision_camera parse_ip4 print save fl speak wait_for_session public_host p.app now later
          body in
      with_status later id (record p { app = r.0.0; acts = p.acts ++ r.0.1 }, reply 200 r.1)

  unfoldable pub device_config : Program → Text → Object F → Program × Reply
  device_config p id body =
      let r = handle_device_config fl (exchange id) save (light p.app id) p.app id body in
      (record p { app = r.0 }, answer_reply r.1)

  -- What the routes ask of the program.
  abbrev pub api_of : Api Program F
  api_of = record {
    find = find;
    all_statuses =
        λ p. record p { app = see_each now p.app (sort_strings (ids_of p.app.runtimes)) };
    configs_with_status = λ p. record p { app = see_each now p.app (camera_ids p.app.cameras) };
    status = λ p id. record p { app = see_runtime now p.app id };
    provision = provision;
    create = λ p body.
        with_status now (created_id fl body)
          (after p 201 (create_camera parse_ip4 fl save p.app now body));
    update = λ p id body.
        with_status now id (after p 200 (update_camera parse_ip4 fl save p.app now id body));
    remove = λ p id. after p 200 (delete_camera parse_ip4 fl save p.app id);
    restart = λ p id. restart_runtime p now id;
    wifi = λ p id body. wifi_reply p id (handle_wifi (exchange id) fl p.app body);
    scan_wifi = λ p id. command_reply p (scan_wifi (exchange id) p.app);
    params = λ p id. command_reply p (refresh_params (exchange id) p.app);
    device_refresh = λ p id.
        (record p { app = (refresh_device_config (exchange id) p.app).world }, answered 200);
    device_config = device_config;
    reboot = λ p id. command_reply p (reboot (exchange id) p.app);
  }
