-- ===== src/Pages/Panel.antt =====
-- `renderCameraPanel` of bkcam-go/main.go; `now_ms` is the clock in milliseconds.
use bk7252n_gate.Prelude.{
  ℕ, [], ◌∷◌, ◌++◌, Bool, true, false, ◌&&◌, ◌||◌, not, Option, if◌then◌else◌, Text, text, text_eq,
}
use bk7252n_gate.Input.{Object, FloatOps, sprint, first_non_empty, as_bool_value}
use bk7252n_gate.Input.Strings.{to_lower}
use bk7252n_gate.Pages.{
  UiText, tr, html_text, html_value, path_escape, sprintf, html, decimal, field, contains,
}
use bk7252n_gate.Pages.CameraForm.{render_camera_config_form}
use bk7252n_gate.Pages.DeviceForm.{render_device_config_form}
use bk7252n_gate.Pages.Metrics.{
  RateOps, render_camera_metrics, render_camera_actions, render_maintenance_panel,
}

unfoldable pub is_stale_label : Text → Bool
is_stale_label label =
    contains label (text "stale")
    || (contains label (text "waiting") || contains label (text "reconnecting"))

-- `stateClass` and `labelRaw`
unfoldable pub state_shown : {F : Type 0} → FloatOps F → Object F → Text × Text
state_shown fl c =
    let state_raw =
      first_non_empty (sprint fl (field c (text "healthState")) ∷ text "offline" ∷ []) in
    let label_raw =
      first_non_empty (sprint fl (field c (text "healthLabel")) ∷ text "offline" ∷ []) in
    let has_no_video =
      text_eq state_raw (text "online")
      && (as_bool_value fl (field c (text "avStream")) false
          && not (as_bool_value fl (field c (text "videoFresh")) false)) in
    if has_no_video
    then (text "stale", text "no video")
    else (if is_stale_label (to_lower label_raw) then text "stale" else state_raw, label_raw)

unfoldable pub render_media : Text → Text → Text → ℕ → Bool → Text
render_media id path_id name now_ms false =
    sprintf
      (text
        "<a href=\"/cam/%s\"><img data-preview=\"%s\" src=\"/cam/%s/preview.jpg?ts=%d\" alt=\"%s preview\"></a>")
      (path_id ∷ html_text id ∷ path_id ∷ decimal now_ms ∷ name ∷ [])
render_media id path_id name now_ms true =
    sprintf (text "<img data-live=\"%s\" src=\"/cam/%s/video.mjpg?ts=%d\" alt=\"%s live video\">")
      (html_text id ∷ path_id ∷ decimal now_ms ∷ name ∷ [])

unfoldable pub render_head : Text → Text → Text → Text → Text → Text
render_head id name ip state label =
    sprintf
      (html (
          "<header class=\"camera-head\">" ∷ "      <div>" ∷ "        <h2>%s</h2>"
          ∷ "        <p class=\"meta\">%s " ∷ [])
        ++ (194
            ∷ 183
            ∷ html (
                " %s</p>" ∷ "      </div>" ∷ "      <span class=\"state %s\">%s</span>"
                ∷ "    </header>" ∷ [])))
      (name ∷ ip ∷ html_text id ∷ state ∷ label ∷ [])

unfoldable pub render_camera_card :
    {F : Type 0}
    → FloatOps F
    → RateOps F
    → UiText
    → Object F
    → Text
    → Text
    → Text
    → Text
    → Text
    → Text
render_camera_card fl ro ui c lang id path_id head media =
    sprintf
      (html (
        "<section class=\"camera-card\" data-camera-id=\"%s\">" ∷ "      %s"
        ∷ "      <div class=\"media preview-media\">%s</div>" ∷ "      %s"
        ∷ "      <audio id=\"audio-%s\" controls preload=\"none\" hidden></audio>" ∷ "      %s"
        ∷ "    </section>" ∷ []))
      (html_text id
        ∷ head
        ∷ media
        ∷ render_camera_actions ui id path_id lang false
        ∷ html_text id
        ∷ render_camera_metrics fl ro ui c lang false
        ∷ [])

unfoldable pub render_camera_detail :
    {F : Type 0}
    → FloatOps F
    → RateOps F
    → UiText
    → Object F
    → Option (Object F)
    → Text
    → Text
    → Text
    → Text
    → Text
    → Text
render_camera_detail fl ro ui c config lang id path_id head media =
    let t = tr ui lang in
    sprintf
      (html (
        "<section class=\"camera-detail\" data-camera-id=\"%s\">"
        ∷ "      <div class=\"detail-layout\">" ∷ "        <section class=\"live-panel\">"
        ∷ "          %s" ∷ "          <div class=\"media live-media\">%s</div>" ∷ "          %s"
        ∷ "          <audio id=\"audio-%s\" controls preload=\"none\" hidden></audio>"
        ∷ "        </section>" ∷ "        <aside class=\"side-panel\">"
        ∷ "          <section class=\"panel\">" ∷ "            <h3>%s</h3>" ∷ "            %s"
        ∷ "          </section>" ∷ "          <section class=\"panel\">" ∷ "            <h3>%s</h3>"
        ∷ "            <div class=\"toolbar side-actions\">" ∷ "              <a href=\"/\">%s</a>"
        ∷ "              <button data-command=\"restart\" data-id=\"%s\">%s</button>"
        ∷ "              <button data-live-reconnect=\"%s\">%s</button>" ∷ "            </div>"
        ∷ "          </section>" ∷ "        </aside>" ∷ "      </div>"
        ∷ "      <div class=\"settings-layout\">"
        ∷ "        <section class=\"panel primary-panel\">" ∷ "          <h3>%s</h3>"
        ∷ "          %s" ∷ "        </section>" ∷ "        <section class=\"panel\">"
        ∷ "          <h3>%s</h3>" ∷ "          <p class=\"camera-device-help\">%s</p>"
        ∷ "          %s" ∷ "        </section>" ∷ "        %s" ∷ "      </div>" ∷ "    </section>"
        ∷ []))
      (html_text id
        ∷ head
        ∷ media
        ∷ render_camera_actions ui id path_id lang true
        ∷ html_text id
        ∷ html_text (t (text "currentStream"))
        ∷ render_camera_metrics fl ro ui c lang true
        ∷ html_text (t (text "quickActions"))
        ∷ html_text (t (text "backToOverview"))
        ∷ html_text id
        ∷ html_text (t (text "reconnectSession"))
        ∷ html_text id
        ∷ html_text (t (text "reconnectVideo"))
        ∷ html_text (t (text "cameraSettings"))
        ∷ render_device_config_form fl ui id lang
        ∷ html_text (t (text "localSettings"))
        ∷ html_text (t (text "gatewayProfileHelp"))
        ∷ render_camera_config_form fl ui config lang
        ∷ render_maintenance_panel ui id path_id lang
        ∷ [])

unfoldable pub render_camera_panel :
    {F : Type 0}
    → FloatOps F
    → RateOps F
    → UiText
    → ℕ
    → Object F
    → Option (Object F)
    → Text
    → Bool
    → Text
render_camera_panel fl ro ui now_ms c config lang detail =
    let id = sprint fl (field c (text "id")) in
    let path_id = path_escape id in
    let name = html_value fl (field c (text "name")) in
    let ip = html_value fl (field c (text "ip")) in
    let shown = state_shown fl c in
    let media = render_media id path_id name now_ms detail in
    let head = render_head id name ip (html_text (shown.0)) (html_text (shown.1)) in
    if detail
    then render_camera_detail fl ro ui c config lang id path_id head media
    else render_camera_card fl ro ui c lang id path_id head media
