-- ===== src/App/Serve.antt =====
-- The requests of bkcam-go/main.go's `handleAPI` that change the list of cameras, with the change of
-- size that comes from a request for settings, as one step, and in a row.
use bk7252n_gate.Prelude.{ℕ, List, [], ◌∷◌, Bool, Option, Text}
use bk7252n_gate.Prelude.Int.{ℤ}
use bk7252n_gate.Config.{CameraConfig, Ip4}
use bk7252n_gate.Input.{Object, FloatOps, Result}
use bk7252n_gate.App.{
  App, Outcome, create_camera, update_camera, delete_camera, set_camera_profile_size,
}

pub data Call (F : Type 0) : Type 0 where
  create : Object F → Call F
  update : Text → Object F → Call F
  remove : Text → Call F
  resize : Text → ℤ → ℤ → Call F

module _ (parse_ip4 : Text → Option Ip4) {F : Type 0} (fl : FloatOps F)
    (save : List CameraConfig → Bool) where
  unfoldable pub serve : App → ℕ → Call F → Outcome
  serve app now (create body) = create_camera parse_ip4 fl save app now body
  serve app now (update id body) = update_camera parse_ip4 fl save app now id body
  serve app now (remove id) = delete_camera parse_ip4 fl save app id
  serve app now (resize id width height) = set_camera_profile_size save app id width height

  -- The responses to a row of requests, each with the time at which it arrives.
  unfoldable pub serve_all : App → List (ℕ × Call F) → App × List (Result (Unit {0}))
  serve_all app [] = (app, [])
  serve_all app ((now, call) ∷ calls) =
      let r = serve app now call in let rest = serve_all r.0 calls in (rest.0, r.2 ∷ rest.1)
