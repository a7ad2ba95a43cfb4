-- ===== src/Router/Guarded.antt =====
-- What a request to the API leaves of the program's state: the routes and the handlers behind them together.
use bk7252n_gate.Prelude.{
  ℕ, ◌≡◌, refl, sym, ◌∙◌, ◌≢◌, ◌⊎◌, inl, inr, List, [], ◌∷◌, Bool, true, Bool-cases, Option,
  Option-cases, Text, text, text_eq, text_eq→eq, text_eq_refl, arith,
}
use mathlib.Core.Option
use bk7252n_gate.Config.{CameraConfig, Ip4}
use bk7252n_gate.Input.{Object, FloatOps}
use bk7252n_gate.Runtime.{CameraRuntime, Command}
use bk7252n_gate.Runtime.Commands.{CommandResult}
use bk7252n_gate.Runtime.Status.{trim_windows}
use bk7252n_gate.App.{App, runtime_of, put_runtime}
use bk7252n_gate.App.Removal.{runtime_of-delete_other}
use bk7252n_gate.App.Sorted.{ids_of, sort_strings}
use bk7252n_gate.Device.{Light}
use bk7252n_gate.Device.Provision.{World}
use bk7252n_gate.Router.{handle_api}
use bk7252n_gate.Router.Body.{Request}
use bk7252n_gate.Router.Changes.{MayChange, handle_api-IsLeft}
use bk7252n_gate.Router.Program.{Program, see_runtime, see_each, camera_ids, api_of}

abbrev without_windows : CameraRuntime → CameraRuntime
without_windows rt = record rt { video_metric = []; audio_metric = [] }

-- The runtime with an id, but for its windows
abbrev shape : Text → App → Option CameraRuntime
shape k app = Option.map without_windows (runtime_of k app.runtimes)

-- The two states differ in nothing but the windows of the metrics.
pub record IsSeen (p p' : Program) : Type 0 where
  pub cameras : p'.app.cameras ≡ p.app.cameras
  pub runtimes : (k : Text) → shape k p'.app ≡ shape k p.app
  pub acts : p'.acts ≡ p.acts
  pub reboots : p'.reboots ≡ p.reboots

see_runtime-cameras :
    (now : ℕ) (app : App) (id : Text) → (see_runtime now app id).cameras ≡ app.cameras
unfolding see_runtime
see_runtime-cameras now app id = elim (Option-cases (runtime_of id app.runtimes)) [
  | inl e ↦ rw (see_runtime, e) refl
  | inr (rt, e) ↦ rw (see_runtime, e) refl
]

see_runtime-shape :
    (now : ℕ) (app : App) (id k : Text) → shape k (see_runtime now app id) ≡ shape k app
unfolding see_runtime put_runtime runtime_of trim_windows
see_runtime-shape now app id k = elim (Option-cases (runtime_of id app.runtimes)) [
  | inl e ↦ rw (see_runtime, e) refl
  | inr (rt, e) ↦
      rw (see_runtime, e)
        (elim (Bool-cases (text_eq id k)) [
          | inl same ↦ let d : id ≡ k = text_eq→eq id k same in rw same (rw (sym d) (rw e refl))
          | inr other ↦
              let ne : k ≢ id = λ d. absurd (ground (arith, text_eq_refl id)) in
              rw other (rw (runtime_of-delete_other k id app.runtimes ne) refl)
        ])
]

see_each-cameras :
    (now : ℕ) (app : App) (ids : List Text) → (see_each now app ids).cameras ≡ app.cameras
unfolding see_each
see_each-cameras now app [] = refl
see_each-cameras now app (id ∷ ids) =
    see_each-cameras now (see_runtime now app id) ids ∙ see_runtime-cameras now app id

see_each-shape :
    (now : ℕ) (app : App) (ids : List Text) (k : Text)
    → shape k (see_each now app ids) ≡ shape k app
unfolding see_each
see_each-shape now app [] k = refl
see_each-shape now app (id ∷ ids) k =
    see_each-shape now (see_runtime now app id) ids k ∙ see_runtime-shape now app id k

see_each-IsSeen :
    (now : ℕ) (p : Program) (ids : List Text) → IsSeen p (record p { app = see_each now p.app ids })
see_each-IsSeen now p ids = record {
  cameras = see_each-cameras now p.app ids;
  runtimes = see_each-shape now p.app ids;
  acts = refl;
  reboots = refl;
}

see_runtime-IsSeen :
    (now : ℕ) (p : Program) (id : Text) → IsSeen p (record p { app = see_runtime now p.app id })
see_runtime-IsSeen now p id = record {
  cameras = see_runtime-cameras now p.app id;
  runtimes = see_runtime-shape now p.app id;
  acts = refl;
  reboots = refl;
}

module _ (parse_ip4 : Text → Option Ip4) (print : ℕ → Text) {F : Type 0} (fl : FloatOps F)
    (save : List CameraConfig → Bool) (exchange : Text → App → Command → App × CommandResult)
    (light : App → Text → Option Light) (wait_for_session : World → World × Bool)
    (public_host : Text) (now later : ℕ) (unmarshal : Text → Option (Option (Object F))) where
  -- A request to the API leaves the program's state as it is; or it is a GET, and changes nothing but the windows of
  -- the metrics; or it is a DELETE, or a POST, PATCH or PUT whose body could be read within the limit and
  -- is blank or JSON.
  pub handle_api-IsGuarded :
      (p : Program) (r : Request)
      → let api =
          api_of parse_ip4 print fl save exchange light wait_for_session public_host now later in
        let end = (handle_api api fl unmarshal p r).0 in
        (end ≡ p)
        ⊎ (((text_eq r.method (text "GET") ≡ true) × IsSeen p end) ⊎ MayChange api fl unmarshal p r)
  handle_api-IsGuarded p r =
      handle_api-IsLeft
        (api_of parse_ip4 print fl save exchange light wait_for_session public_host now later) fl
        unmarshal p r (IsSeen p) (see_each-IsSeen now p (sort_strings (ids_of p.app.runtimes)))
        (see_each-IsSeen now p (camera_ids p.app.cameras)) (see_runtime-IsSeen now p)
