-- ===== src/Pages/SafePanel.antt =====
-- The markup of a camera's panel does not depend on the values that are shown.
use bk7252n_gate.Prelude.{
  ℕ, zero, suc, ◌/◌, ◌≡◌, refl, sym, ◌∙◌, inl, inr, [], Bool, true, false, Option, some, ltb, Text,
  Bool-cases, arith,
}
use bk7252n_gate.Input.{Value, Object, FloatOps}
use bk7252n_gate.Pages.{UiText, digits_from, decimal}
use bk7252n_gate.Pages.Marks.{
  is_mark, marks, append-SameMarks, join-SameMarks, path_escape-same, page_laws,
}
use bk7252n_gate.Pages.CameraForm.{render_camera_config_form}
use bk7252n_gate.Pages.Metrics.{
  RateOps, render_metric, render_camera_metrics, render_camera_actions, render_maintenance_panel,
}
use bk7252n_gate.Pages.Panel.{
  render_media, render_head, render_camera_card, render_camera_detail, render_camera_panel,
}
use bk7252n_gate.Pages.Safe.{camera_form-marks, render_device_config_form-marks}

digits_from-marks : (fuel n : ℕ) (acc : Text) → marks acc ≡ [] → marks (digits_from fuel n acc) ≡ []
unfolding digits_from marks is_mark
digits_from-marks zero n acc h = h
digits_from-marks (suc fuel) n acc h = elim (Bool-cases (ltb n 10)) [
  | inl e ↦ ground arith
  | inr e ↦ rw e (digits_from-marks fuel (n / 10) _ (ground arith))
]

decimal-same : (n m : ℕ) → marks (decimal n) ≡ marks (decimal m)
unfolding decimal marks
decimal-same n m = digits_from-marks (suc n) n [] refl ∙ sym (digits_from-marks (suc m) m [] refl)

-- The text of a path or of a name: two of them have the same markup.
abbrev pub Alike : Text → Text → Type 0
Alike s t = marks s ≡ marks t

render_camera_actions-marks :
    (ui ui' : UiText) (id id' p p' lang lang' : Text) (detail : Bool)
    → Alike p p'
    → Alike
        (render_camera_actions ui id p lang detail)
        (render_camera_actions ui' id' p' lang' detail)
unfolding render_camera_actions
render_camera_actions-marks ui ui' id id' p p' lang lang' true h = search page_laws depth 60
render_camera_actions-marks ui ui' id id' p p' lang lang' false h = search page_laws depth 60

render_maintenance_panel-marks :
    (ui ui' : UiText) (id id' p p' lang lang' : Text)
    → Alike p p'
    → Alike (render_maintenance_panel ui id p lang) (render_maintenance_panel ui' id' p' lang')
unfolding render_maintenance_panel
render_maintenance_panel-marks ui ui' id id' p p' lang lang' h = search page_laws depth 60

render_media-marks :
    (id id' p p' name name' : Text) (now now' : ℕ) (detail : Bool)
    → Alike p p'
    → Alike name name'
    → Alike (render_media id p name now detail) (render_media id' p' name' now' detail)
unfolding render_media
render_media-marks id id' p p' name name' now now' true h k =
    search (page_laws, decimal-same) depth 60
render_media-marks id id' p p' name name' now now' false h k =
    search (page_laws, decimal-same) depth 60

render_head-marks :
    (id id' name name' ip ip' s s' l l' : Text)
    → Alike name name'
    → Alike ip ip'
    → Alike s s'
    → Alike l l'
    → Alike (render_head id name ip s l) (render_head id' name' ip' s' l')
unfolding render_head
render_head-marks id id' name name' ip ip' s s' l l' a b c d = search page_laws depth 60

module _ {F : Type 0} (fl : FloatOps F) (ro : RateOps F) where
  render_metric-marks :
      (id id' k k' label label' : Text) (v w : Value F)
      → Alike (render_metric fl id k label v) (render_metric fl id' k' label' w)
  unfolding render_metric
  render_metric-marks id id' k k' label label' v w = search page_laws depth 20

  render_camera_metrics-marks :
      (ui ui' : UiText) (c d : Object F) (lang lang' : Text) (detail : Bool)
      → Alike
          (render_camera_metrics fl ro ui c lang detail)
          (render_camera_metrics fl ro ui' d lang' detail)
  unfolding render_camera_metrics
  render_camera_metrics-marks ui ui' c d lang lang' true =
      search (page_laws, append-SameMarks, join-SameMarks, render_metric-marks) depth 60
  render_camera_metrics-marks ui ui' c d lang lang' false =
      search (page_laws, append-SameMarks, join-SameMarks, render_metric-marks) depth 60

  -- Two cards on the overview.
  pub render_camera_card-marks :
      (ui ui' : UiText) (now now' : ℕ) (c d : Object F) (config config' : Option (Object F))
      (lang lang' : Text)
      → marks (render_camera_panel fl ro ui now c config lang false)
        ≡ marks (render_camera_panel fl ro ui' now' d config' lang' false)
  unfolding render_camera_panel render_camera_card
  render_camera_card-marks ui ui' now now' c d config config' lang lang' =
      search
        (
          page_laws, path_escape-same, render_head-marks, render_media-marks,
          render_camera_actions-marks, render_camera_metrics-marks,
        )
        depth 100 fits 20000

  -- Whatever two cameras report, whatever their configurations hold, in whatever languages and at
  -- whatever times: their pages have the same markup characters in the same order.
  pub render_camera_panel-marks :
      (ui ui' : UiText) (now now' : ℕ) (c d config config' : Object F) (lang lang' : Text)
      → marks (render_camera_panel fl ro ui now c (some config) lang true)
        ≡ marks (render_camera_panel fl ro ui' now' d (some config') lang' true)
  unfolding render_camera_panel render_camera_detail render_camera_config_form
  render_camera_panel-marks ui ui' now now' c d config config' lang lang' =
      search
        (
          page_laws, path_escape-same, render_head-marks, render_media-marks,
          render_camera_actions-marks, render_camera_metrics-marks, render_device_config_form-marks,
          camera_form-marks, render_maintenance_panel-marks,
        )
        depth 100 fits 20000
