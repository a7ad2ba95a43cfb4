-- ===== src/App/Directory.antt =====
-- What the requests promise: a table from ids to cameras, without positions, runtimes or files.
use bk7252n_gate.Prelude.{
  ℕ, List, [], ◌∷◌, Bool, ◌||◌, ◌&&◌, not, Option, none, some, if◌then◌else◌, Text, text, text_eq,
}
use bk7252n_gate.Config.{CameraConfig}
use bk7252n_gate.Input.{FloatOps, str, Result, ok, err, bad_request, input_string}
use bk7252n_gate.Input.Camera.{normalize_camera}
use bk7252n_gate.App.{fail}
use bk7252n_gate.App.Serve.{Call, create, update, remove, resize}

-- Which cameras are listed, and which ids have a runtime.
pub record Directory : Type 0 where
  pub listed : Text → Option CameraConfig
  pub running : Text → Bool

-- The camera is listed under its id, and nothing else changes.
abbrev pub list_camera : Directory → CameraConfig → Directory
list_camera d cam = record d { listed = λ k. if text_eq cam.id k then some cam else d.listed k }

abbrev pub run_camera : Directory → CameraConfig → Directory
run_camera d cam = record (list_camera d cam) { running = λ k. text_eq cam.id k || d.running k }

abbrev pub forget : Directory → Text → Directory
forget d id = record {
  listed = λ k. if text_eq id k then none else d.listed k;
  running = λ k. not (text_eq id k) && d.running k;
}

module _ {F : Type 0} (fl : FloatOps F) where
  unfoldable pub promise_create : Directory → Result CameraConfig → Directory × Result (Unit {0})
  promise_create d (err e) = (d, err e)
  promise_create d (ok cam) = elim (d.listed cam.id) [
    | some _ ↦ (d, fail 409 (text "camera already exists"))
    | none ↦ (run_camera d cam, ok tt)
  ]

  unfoldable pub promise_next : Directory → Result CameraConfig → Directory × Result (Unit {0})
  promise_next d (err e) = (d, err e)
  promise_next d (ok next) = (run_camera d next, ok tt)

  unfoldable pub promise : Directory → Call F → Directory × Result (Unit {0})
  promise d (create body) = promise_create d (normalize_camera fl body none)
  promise d (update id body) = elim (d.listed id) [
    | none ↦ (d, fail 404 (text "unknown camera"))
    | some cam ↦
        if d.running id
        then (if text_eq (input_string fl body (text "id") id) id
            then promise_next d (normalize_camera fl ((text "id", str id) ∷ body) (some cam))
            else (d, fail bad_request (text "camera id cannot be changed")))
        else (d, fail 409 (text "camera runtime is not available"))
  ]
  promise d (remove id) = elim (d.listed id) [
    | none ↦ (d, fail 404 (text "unknown camera"))
    | some _ ↦
        if d.running id
        then (forget d id, ok tt)
        else (d, fail 409 (text "camera runtime is not available"))
  ]
  promise d (resize id width height) = elim (d.listed id) [
    | none ↦ (d, fail 404 (text "unknown camera"))
    | some cam ↦ (list_camera d (record cam { width = width; height = height }), ok tt)
  ]

  unfoldable pub promise_all : Directory → List (ℕ × Call F) → Directory × List (Result (Unit {0}))
  promise_all d [] = (d, [])
  promise_all d ((now, call) ∷ calls) =
      let r = promise d call in let rest = promise_all r.0 calls in (rest.0, r.1 ∷ rest.1)
