-- ===== src/Pages/Overview.antt =====
-- `allStatuses`, `publicConfigs` and `publicConfigsWithStatus` of bkcam-go/main.go, and the pages over the program's
-- state. `now` is the clock in nanoseconds; the windows that `Status` trims are trimmed again by whatever reads them next.
use bk7252n_gate.Prelude.{
  ℕ, ◌/◌, ◌^◌, ◌≡◌, refl, List, [], ◌∷◌, Bool, false, Option, none, some, length, Text, arith,
}
use bk7252n_gate.Config.{CameraConfig, Ip4}
use bk7252n_gate.Config.Public.{public_config}
use bk7252n_gate.Input.{Object, FloatOps}
use bk7252n_gate.Runtime.{CameraRuntime}
use bk7252n_gate.Runtime.Status.{MeterOps, status}
use bk7252n_gate.App.{App, runtime_of}
use bk7252n_gate.App.Sorted.{sorted_runtimes}
use bk7252n_gate.App.Order.{length-sorted_runtimes}
use bk7252n_gate.Pages.{UiText}
use bk7252n_gate.Pages.Marks.{marks}
use bk7252n_gate.Pages.Metrics.{RateOps}
use bk7252n_gate.Pages.Page.{render_page}
use bk7252n_gate.Pages.SafePage.{render_page-marks}

module _ (parse_ip4 : Text → Option Ip4) {F : Type 0} (mo : MeterOps F) where
  unfoldable pub statuses_of : ℕ → Text → List CameraRuntime → List (Object F)
  statuses_of now base [] = []
  statuses_of now base (rt ∷ rts) = (status parse_ip4 mo rt now base).1 ∷ statuses_of now base rts

  -- `allStatuses`, without the links
  unfoldable pub all_statuses : App → ℕ → Text → List (Object F)
  all_statuses app now base = statuses_of now base (sorted_runtimes app)

unfoldable pub public_configs : {F : Type 0} → List CameraConfig → List (Object F)
public_configs [] = []
public_configs (cam ∷ cams) = public_config cam ∷ public_configs cams

-- `publicConfigsWithStatus`: the configurations, each with the status of its runtime, if it has one.
unfoldable pub public_configs_with_status :
    {F : Type 0}
    → (Text → Option Ip4)
    → MeterOps F
    → App
    → ℕ
    → Text
    → List CameraConfig
    → List (Object F × Option (Object F))
public_configs_with_status parse_ip4 mo app now base [] = []
public_configs_with_status parse_ip4 mo app now base (cam ∷ cams) =
    let rest = public_configs_with_status parse_ip4 mo app now base cams in
    elim (runtime_of cam.id app.runtimes) [
      | none ↦ (public_config cam, none) ∷ rest
      | some rt ↦ (public_config cam, some (status parse_ip4 mo rt now base).1) ∷ rest
    ]

module _ (parse_ip4 : Text → Option Ip4) {F : Type 0} (mo : MeterOps F) (fl : FloatOps F)
    (ro : RateOps F) (ui : UiText) where
  -- `renderPage` for a request in the language `lang` with the base URL `base`
  unfoldable pub page_of : App → ℕ → Text → Text → Text → Text → Bool → Text
  page_of app now base lang lan_discovery camera_id is_setup =
      render_page fl ro ui (now / 10 ^ 6) (all_statuses parse_ip4 mo app now base)
        (public_configs app.cameras) lang lan_discovery camera_id is_setup

  length-statuses_of :
      (now : ℕ) (base : Text) (rts : List CameraRuntime)
      → length (statuses_of parse_ip4 mo now base rts) ≡ length rts
  unfolding statuses_of
  length-statuses_of now base [] = refl
  length-statuses_of now base (rt ∷ rts) = omega (arith, length-statuses_of now base rts)

  -- Two programs with as many runtimes show overviews with the same markup characters in the same order:
  -- whatever the cameras are called, report and are set to, nothing of it becomes markup.
  pub page_of-marks :
      (app app' : App) (now now' : ℕ) (base base' lang lan lan' : Text)
      → length app.runtimes ≡ length app'.runtimes
      → marks (page_of app now base lang lan [] false)
        ≡ marks (page_of app' now' base' lang lan' [] false)
  unfolding page_of all_statuses
  page_of-marks app app' now now' base base' lang lan lan' h =
      render_page-marks fl ro ui _ _ _ _ _ _ lang lan lan' (
        omega (
          arith,
          length-statuses_of now base (sorted_runtimes app),
          length-statuses_of now' base' (sorted_runtimes app'),
          length-sorted_runtimes app,
          length-sorted_runtimes app',
        ))
