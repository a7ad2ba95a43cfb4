-- ===== src/Files/Start.antt =====
-- `main` of bkcam-go/main.go, up to the HTTP server; and what the program shows when it has started.
use bk7252n_gate.Prelude.{
  ℕ, ◌≡◌, refl, ◌∙◌, inl, inr, List, [], ◌∷◌, ◌++◌, Bool, true, false, ◌||◌, Bool-cases, Option,
  none, some, if◌then◌else◌, All, Text, text, text_eq, is_empty, arith,
}
use bk7252n_gate.Prelude.Int.{ℤ, pos, eq_ℤ}
use bk7252n_gate.Config.{CameraConfig, Ip4, enabled}
use bk7252n_gate.Input.{FloatOps, valid_camera_id}
use bk7252n_gate.Runtime.{Act}
use bk7252n_gate.Runtime.Lifecycle.{new_camera_runtime, start}
use bk7252n_gate.App.{App, Runtimes, put_runtime, runtime_of}
use bk7252n_gate.App.Cameras.{IsUnique}
use bk7252n_gate.App.Listing.{find_camera}
use bk7252n_gate.App.Runtimes.{is_running, is_running-put}
use bk7252n_gate.App.Shows.{HasValidId, Shows}
use bk7252n_gate.App.Directory.{Directory, promise_all}
use bk7252n_gate.App.Serve.{Call, serve_all}
use bk7252n_gate.App.Refine.{serve_all-promise_all}
use bk7252n_gate.Files.{Server, Config, Disk, Json, load_config}

abbrev text_or : Text → Text → Text
text_or s fallback = if is_empty s then fallback else s

abbrev int_or : ℤ → ℤ → ℤ
int_or n fallback = if eq_ℤ n (pos 0) then fallback else n

-- The addresses that are used; `port_override` is the flag `-port`.
unfoldable pub complete_server : ℤ → Server → Server
complete_server port_override server = record {
  host = text_or server.host (text "127.0.0.1");
  port = int_or port_override (int_or server.port (pos 8088));
  bind = text_or server.bind (text "0.0.0.0");
}

module _ (parse_ip4 : Text → Option Ip4) (now : ℕ) where
  -- The loop over `cfg.Cameras`
  unfoldable pub start_cameras : List CameraConfig → Runtimes → Runtimes × List Act
  start_cameras [] rts = (rts, [])
  start_cameras (cam ∷ cams) rts =
      let fresh = new_camera_runtime cam in
      let r = if enabled cam then start parse_ip4 fresh now else (fresh, []) in
      let skipped = start_cameras cams rts in
      let rest = start_cameras cams (put_runtime cam.id r.0 rts) in
      if is_empty cam.id then skipped else (rest.0, r.1 ++ rest.1)

  unfoldable pub start_app : ℤ → Config → Server × App × List Act
  start_app port_override cfg =
      let started = start_cameras cfg.cameras [] in
      (
        complete_server port_override cfg.server,
        record { cameras = cfg.cameras; runtimes = started.0 },
        started.1,
      )

  -- `main`; `none` is the end of the program by log.Fatalf.
  unfoldable pub run_main :
      {D : Type 0} → Disk D → Json → D → Text → ℤ → Option (Server × App × List Act)
  run_main disk json d config_path port_override = elim (load_config disk json d config_path) [
    | none ↦ none
    | some cfg ↦ some (start_app port_override cfg)
  ]

abbrev is_listed : Option CameraConfig → Bool
is_listed none = false
is_listed (some cam) = true

-- The cameras of a configuration, each with a runtime.
abbrev pub directory_of : List CameraConfig → Directory
directory_of cams = record {
  listed = λ k. find_camera k cams;
  running = λ k. is_listed (find_camera k cams);
}

or_true : (b : Bool) → b || true ≡ true
or_true true = refl
or_true false = refl

or_false : (b : Bool) → b || false ≡ b
or_false true = refl
or_false false = refl

module _ (parse_ip4 : Text → Option Ip4) (now : ℕ) where
  is_running-start :
      (k : Text) (cams : List CameraConfig) (rts : Runtimes)
      → All HasValidId cams
      → is_running k (start_cameras parse_ip4 now cams rts).0
        ≡ is_listed (find_camera k cams) || is_running k rts
  unfolding start_cameras find_camera valid_camera_id
  is_running-start k [] rts h = refl
  is_running-start k (cam ∷ cams) rts h =
      let r =
        if enabled cam
        then start parse_ip4 (new_camera_runtime cam) now
        else (new_camera_runtime cam, []) in
      let named : is_empty cam.id ≡ false = ground (arith, h.0) in
      rw
        (
          named,
          is_running-start k cams (put_runtime cam.id r.0 rts) h.1,
          is_running-put cam.id k r.0 rts,
        )
        (elim (Bool-cases (text_eq cam.id k)) [
          | inl same ↦ rw same (or_true (is_listed (find_camera k cams)))
          | inr other ↦ rw other refl
        ])

  -- After the start exactly the configured cameras are listed and have a runtime.
  pub start_app-Shows :
      (port_override : ℤ) (cfg : Config)
      → IsUnique cfg.cameras
      → All HasValidId cfg.cameras
      → Shows (start_app parse_ip4 now port_override cfg).1 (directory_of cfg.cameras)
  unfolding start_app runtime_of
  start_app-Shows port_override cfg u v = record {
    listed = λ k. refl;
    running =
        λ k. is_running-start k cfg.cameras [] v ∙ or_false (is_listed (find_camera k cfg.cameras));
    unique = u;
    valid = v;
  }

  -- From the start of the program on, as long as the configuration can be saved, any row of requests that
  -- create, update, delete and resize cameras is answered as the table of the configured cameras promises,
  -- if these have valid ids and no two have the same.
  pub start_app-promise_all :
      {F : Type 0} (fl : FloatOps F) (save : List CameraConfig → Bool)
      → ((cams : List CameraConfig) → save cams ≡ true)
      → (port_override : ℤ) (cfg : Config) (calls : List (ℕ × Call F)) → IsUnique cfg.cameras
      → All HasValidId cfg.cameras
      → let r = serve_all parse_ip4 fl save (start_app parse_ip4 now port_override cfg).1 calls in
        let p = promise_all fl (directory_of cfg.cameras) calls in Shows r.0 p.0 × (r.1 ≡ p.1)
  start_app-promise_all fl save saves port_override cfg calls u v =
      serve_all-promise_all parse_ip4 fl save saves _ _ calls
        (start_app-Shows port_override cfg u v)
