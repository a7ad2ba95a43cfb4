-- ===== src/Pages/Metrics.antt =====
-- `formatBitrateValue`, `renderMetric`, `renderCameraMetrics`, `renderCameraActions` and
-- `renderMaintenancePanel` of bkcam-go/main.go.
use bk7252n_gate.Prelude.{
  [], ◌∷◌, ◌++◌, Bool, true, false, Option, none, some, if◌then◌else◌, Text, text,
}
use bk7252n_gate.Prelude.Int.{ℤ}
use bk7252n_gate.Input.{
  Value, null, bool, str, float, int, other, Object, FloatOps, sprint, first_non_empty,
}
use bk7252n_gate.Input.Strings.{trim_space}
use bk7252n_gate.Pages.{UiText, tr, html_text, html_value, sprintf, join, html, field}

-- What `formatBitrateValue` asks of a `float64`: `float64(n)`, strconv.ParseFloat, the comparisons
-- with 0 and 1000, `%.1f` of the thousandth part and `%.0f`.
pub record RateOps (F : Type 0) : Type 0 where
  pub of_int : ℤ → F
  pub parse : Text → Option F
  pub at_most_0 : F → Bool
  pub at_least_1000 : F → Bool
  pub print_thousandth : F → Text
  pub print_whole : F → Text

unfoldable pub print_rate : {F : Type 0} → RateOps F → F → Text
print_rate ro kbps =
    if ro.at_most_0 kbps
    then text "0 kbps"
    else if ro.at_least_1000 kbps
    then ro.print_thousandth kbps ++ text " Mbps"
    else ro.print_whole kbps ++ text " kbps"

unfoldable pub format_bitrate_value : {F : Type 0} → FloatOps F → RateOps F → Value F → Text
format_bitrate_value fl ro (float x) = print_rate ro x
format_bitrate_value fl ro (int n) = print_rate ro (ro.of_int n)
format_bitrate_value fl ro (str x) = elim (ro.parse (trim_space x)) [
  | none ↦ x
  | some kbps ↦ print_rate ro kbps
]
format_bitrate_value fl ro null = sprint fl null
format_bitrate_value fl ro (bool b) = sprint fl (bool b)
format_bitrate_value fl ro (other s) = sprint fl (other s)

unfoldable pub render_metric : {F : Type 0} → FloatOps F → Text → Text → Text → Value F → Text
render_metric fl id key label value =
    sprintf (text "<div><dt>%s</dt><dd data-field=\"%s:%s\">%s</dd></div>")
      (html_text label ∷ html_text id ∷ html_text key ∷ html_value fl value ∷ [])

unfoldable pub render_camera_metrics :
    {F : Type 0} → FloatOps F → RateOps F → UiText → Object F → Text → Bool → Text
render_camera_metrics fl ro ui c lang detail =
    let t = tr ui lang in
    let id = sprint fl (field c (text "id")) in
    let clients = sprintf (text "%v/%v") (
      sprint fl (field c (text "videoClients")) ∷ sprint fl (field c (text "audioClients")) ∷ []) in
    let peer = first_non_empty (
      sprint fl (field c (text "peerAddress"))
      ∷ sprint fl (field c (text "expectedAddress"))
      ∷ []) in
    let items =
      render_metric fl id (text "streamResolution") (t (text "resolution"))
        (field c (text "streamResolution"))
      ∷ render_metric fl id (text "videoFps") (t (text "fps")) (field c (text "videoFps"))
      ∷ render_metric fl id (text "videoKbps") (t (text "videoKbps"))
          (str (format_bitrate_value fl ro (field c (text "videoKbps"))))
      ∷ render_metric fl id (text "audioKbps") (t (text "audio"))
          (str (format_bitrate_value fl ro (field c (text "audioKbps"))))
      ∷ [] in
    let more =
      render_metric fl id (text "clients") (t (text "clients")) (str clients)
      ∷ render_metric fl id (text "restartCount") (t (text "restarts"))
          (field c (text "restartCount"))
      ∷ render_metric fl id (text "streamMode") (t (text "mode")) (field c (text "streamMode"))
      ∷ render_metric fl id (text "peer") (t (text "peer")) (str peer)
      ∷ [] in
    let shown = if detail then items ++ more else items in
    text "<dl class=\"stats\">" ++ (join shown [] ++ text "</dl>")

unfoldable pub render_camera_actions : UiText → Text → Text → Text → Bool → Text
render_camera_actions ui id path_id lang true =
    let t = tr ui lang in
    sprintf
      (html (
        "<div class=\"toolbar action-row\">" ∷ "      <button data-audio=\"%s\">%s</button>"
        ∷ "      <button data-live-reconnect=\"%s\">%s</button>"
        ∷ "      <a href=\"/cam/%s/snapshot.jpg\" target=\"_blank\">%s</a>"
        ∷ "      <a href=\"/cam/%s/video.mjpg\" target=\"_blank\">%s</a>"
        ∷ "      <a href=\"/cam/%s/audio.wav\" target=\"_blank\">%s</a>" ∷ "    </div>" ∷ []))
      (html_text id
        ∷ html_text (t (text "sound"))
        ∷ html_text id
        ∷ html_text (t (text "reconnectVideo"))
        ∷ path_id
        ∷ html_text (t (text "snapshot"))
        ∷ path_id
        ∷ html_text (t (text "rawMJPEG"))
        ∷ path_id
        ∷ html_text (t (text "rawWAV"))
        ∷ [])
render_camera_actions ui id path_id lang false =
    let t = tr ui lang in
    sprintf
      (html (
        "<div class=\"toolbar action-row\">" ∷ "      <a class=\"primary\" href=\"/cam/%s\">%s</a>"
        ∷ "      <button data-audio=\"%s\">%s</button>"
        ∷ "      <a href=\"/cam/%s/snapshot.jpg\" target=\"_blank\">%s</a>" ∷ "    </div>" ∷ []))
      (path_id
        ∷ html_text (t (text "openLive"))
        ∷ html_text id
        ∷ html_text (t (text "sound"))
        ∷ path_id
        ∷ html_text (t (text "snapshot"))
        ∷ [])

unfoldable pub render_maintenance_panel : UiText → Text → Text → Text → Text
render_maintenance_panel ui id path_id lang =
    let t = tr ui lang in
    sprintf
      (html (
        "<details class=\"panel service-panel\">" ∷ "      <summary>%s</summary>"
        ∷ "      <div class=\"toolbar maintenance\">"
        ∷ "        <button data-command=\"restart\" data-id=\"%s\">%s</button>"
        ∷ "        <button data-command=\"params\" data-id=\"%s\">%s</button>"
        ∷ "        <button data-command=\"reboot\" data-confirm=\"%s\" data-id=\"%s\">%s</button>"
        ∷ "      </div>" ∷ "      <form data-wifi-camera=\"%s\" class=\"config-form compact\">"
        ∷ "        <label><span>%s</span><input name=\"ssid\" autocomplete=\"off\"></label>"
        ∷ "        <label><span>%s</span><input name=\"password\" type=\"password\" autocomplete=\"new-password\"></label>"
        ∷ "        <label class=\"check\"><input name=\"reboot\" type=\"checkbox\" checked><span>%s</span></label>"
        ∷ "        <button type=\"submit\">%s</button>" ∷ "        <output></output>"
        ∷ "      </form>" ∷ "      <div class=\"toolbar export-row\">"
        ∷ "        <a href=\"/cam/%s/video.mjpg\" target=\"_blank\">%s</a>"
        ∷ "        <a href=\"/cam/%s/audio.wav\" target=\"_blank\">%s</a>" ∷ "      </div>"
        ∷ "      <div class=\"danger-zone\">" ∷ "        <h4>%s</h4>" ∷ "        <p>%s</p>"
        ∷ "        <button class=\"danger\" data-delete-camera=\"%s\" data-confirm=\"%s\">%s</button>"
        ∷ "        <output></output>" ∷ "      </div>" ∷ "    </details>" ∷ []))
      (html_text (t (text "maintenance"))
        ∷ html_text id
        ∷ html_text (t (text "reconnectSession"))
        ∷ html_text id
        ∷ html_text (t (text "refreshInfo"))
        ∷ html_text (t (text "rebootConfirm"))
        ∷ html_text id
        ∷ html_text (t (text "rebootHardware"))
        ∷ html_text id
        ∷ html_text (t (text "wifiSSID"))
        ∷ html_text (t (text "wifiPassword"))
        ∷ html_text (t (text "reboot"))
        ∷ html_text (t (text "setWifi"))
        ∷ path_id
        ∷ html_text (t (text "rawMJPEG"))
        ∷ path_id
        ∷ html_text (t (text "rawWAV"))
        ∷ html_text (t (text "dangerZone"))
        ∷ html_text (t (text "deleteCameraHelp"))
        ∷ html_text id
        ∷ html_text (t (text "deleteConfirm"))
        ∷ html_text (t (text "deleteCamera"))
        ∷ [])
