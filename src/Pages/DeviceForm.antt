-- ===== src/Pages/DeviceForm.antt =====
-- `renderDeviceConfigForm` of bkcam-go/main.go.
use bk7252n_gate.Prelude.{[], ◌∷◌, Text, text}
use bk7252n_gate.Input.{str, FloatOps}
use bk7252n_gate.Pages.{UiText, tr, html_text, concat, html}
use bk7252n_gate.Pages.Controls.{
  render_input, render_select, render_radio_group, render_bitrate_select,
}

unfoldable pub render_device_config_form : {F : Type 0} → FloatOps F → UiText → Text → Text → Text
render_device_config_form fl ui id lang =
    let t = tr ui lang in
    let leave = t (text "leave") in
    concat (
      text "<form data-device-camera=\""
      ∷ html_text id
      ∷ html (
          "\" class=\"config-form device-form\">" ∷ "\t      <p class=\"camera-device-help\">" ∷ [])
      ∷ html_text (t (text "basicDeviceHelp"))
      ∷ html ("</p>" ∷ "\t      " ∷ [])
      ∷ render_radio_group (text "preset") (t (text "cameraPreset")) (text "custom") (
          (text "custom", t (text "presetCustom"))
          ∷ (text "stable320", t (text "presetStable320"))
          ∷ (text "quality640", t (text "presetQuality640"))
          ∷ (text "stop", t (text "presetStop"))
          ∷ [])
      ∷ html ("" ∷ "\t      " ∷ [])
      ∷ render_radio_group (text "imagePreset") (t (text "imagePreset")) (text "none") (
          (text "none", leave)
          ∷ (text "auto", t (text "imageAuto"))
          ∷ (text "balanced", t (text "imageBalanced"))
          ∷ (text "dark", t (text "imageDark"))
          ∷ (text "glare", t (text "imageGlare"))
          ∷ (text "reset", t (text "imageReset"))
          ∷ [])
      ∷ html (
          ""
          ∷ "\t      <label class=\"check\"><input name=\"disablePushUpload\" type=\"checkbox\" checked><span>"
          ∷ [])
      ∷ html_text (t (text "localOnlyMode"))
      ∷ html (
          "</span></label>"
          ∷ "\t      <label class=\"check\"><input name=\"enableAudioNow\" type=\"checkbox\"><span>"
          ∷ [])
      ∷ html_text (t (text "enableAudioNow"))
      ∷ html (
          "</span></label>"
          ∷ "\t      <label class=\"check\"><input name=\"disableDetectors\" type=\"checkbox\"><span>"
          ∷ [])
      ∷ html_text (t (text "disableDetectors"))
      ∷ html ("</span></label>" ∷ "      <button type=\"submit\">" ∷ [])
      ∷ html_text (t (text "apply"))
      ∷ html
          ("</button>" ∷ "      <output></output>" ∷ "      <p class=\"camera-device-help\">" ∷ [])
      ∷ html_text (t (text "localOnlyHint"))
      ∷ html ("</p>" ∷ "      <details class=\"form-section\">" ∷ "        <summary>" ∷ [])
      ∷ html_text (t (text "advancedSettings"))
      ∷ html ("</summary>" ∷ "        <p class=\"camera-device-help\">" ∷ [])
      ∷ html_text (t (text "deviceConfigWarn"))
      ∷ html ("</p>" ∷ "        <div class=\"config-form\">" ∷ "          " ∷ [])
      ∷ render_select fl (text "streamMode") (t (text "streamProfile")) (
          ([], leave)
          ∷ (text "qvga", t (text "streamQVGA"))
          ∷ (text "vga", t (text "streamVGA"))
          ∷ (text "stop", t (text "streamStop"))
          ∷ [])
      ∷ html ("" ∷ "          " ∷ [])
      ∷ render_select fl (text "audioStream") (t (text "audioStream"))
          (([], leave) ∷ (text "on", t (text "audioOn")) ∷ (text "off", t (text "audioOff")) ∷ [])
      ∷ html ("" ∷ "          " ∷ [])
      ∷ render_bitrate_select ui fl lang
      ∷ html ("" ∷ "          " ∷ [])
      ∷ render_input fl (text "brightness") (t (text "brightness")) (str [])
          (text "type=\"number\" min=\"0\" max=\"6\" placeholder=\"4\"")
      ∷ html ("" ∷ "          " ∷ [])
      ∷ render_input fl (text "contrast") (t (text "contrast")) (str [])
          (text "type=\"number\" min=\"0\" max=\"6\" placeholder=\"2\"")
      ∷ html ("" ∷ "          " ∷ [])
      ∷ render_select fl (text "irCut") (t (text "irCut"))
          (([], leave) ∷ (text "0", text "0") ∷ (text "1", text "1") ∷ [])
      ∷ html ("" ∷ "          " ∷ [])
      ∷ render_select fl (text "lamp") (t (text "lamp"))
          (([], leave) ∷ (text "0", text "0") ∷ (text "1", text "1") ∷ [])
      ∷ html ("" ∷ "          " ∷ [])
      ∷ render_select fl (text "antiFlicker") (t (text "antiFlicker"))
          (([], leave) ∷ (text "0", text "0") ∷ (text "1", text "1") ∷ [])
      ∷ html ("" ∷ "          " ∷ [])
      ∷ render_select fl (text "rotateMirror") (t (text "rotateMirror")) (
          ([], leave)
          ∷ (text "0", text "0")
          ∷ (text "1", text "1")
          ∷ (text "2", text "2")
          ∷ (text "3", text "3")
          ∷ [])
      ∷ html (
          ""
          ∷ "          <label class=\"check\"><input name=\"resetImage\" type=\"checkbox\"><span>"
          ∷ [])
      ∷ html_text (t (text "resetImage"))
      ∷ html (
          "</span></label>" ∷ "        </div>" ∷ "        <details class=\"form-section\">"
          ∷ "          <summary>" ∷ [])
      ∷ html_text (t (text "expertSettings"))
      ∷ html ("</summary>" ∷ "          <p class=\"camera-device-help\">" ∷ [])
      ∷ html_text (t (text "deviceConfigHelp"))
      ∷ html ("</p>" ∷ "          <div class=\"config-form\">" ∷ "            " ∷ [])
      ∷ render_select fl (text "motionDetect") (t (text "motionDetect"))
          (([], leave) ∷ (text "0", text "0") ∷ (text "1", text "1") ∷ [])
      ∷ html ("" ∷ "            " ∷ [])
      ∷ render_input fl (text "motionDelay") (t (text "motionDelay")) (str [])
          (text "type=\"number\" min=\"1\" max=\"600\"")
      ∷ html ("" ∷ "            " ∷ [])
      ∷ render_select fl (text "audioDetect") (t (text "audioDetect"))
          (([], leave) ∷ (text "0", text "0") ∷ (text "1", text "1") ∷ [])
      ∷ html ("" ∷ "            " ∷ [])
      ∷ render_input fl (text "audioDelay") (t (text "audioDelay")) (str [])
          (text "type=\"number\" min=\"1\" max=\"600\"")
      ∷ html ("" ∷ "            " ∷ [])
      ∷ render_input fl (text "sleepTime") (t (text "sleepTime")) (str [])
          (text "type=\"number\" min=\"1\" max=\"86400\"")
      ∷ html ("" ∷ "            " ∷ [])
      ∷ render_input fl (text "offlineTime") (t (text "offlineTime")) (str [])
          (text "type=\"number\" min=\"1\" max=\"3600\"")
      ∷ html ("" ∷ "            " ∷ [])
      ∷ render_input fl (text "limitPush") (t (text "limitPush")) (str [])
          (text "type=\"number\" min=\"1\" max=\"100000\"")
      ∷ html ("" ∷ "            " ∷ [])
      ∷ render_select fl (text "environment") (t (text "environment")) (
          ([], leave)
          ∷ (text "0", text "0")
          ∷ (text "1", text "1")
          ∷ (text "2", text "2")
          ∷ (text "3", text "3")
          ∷ [])
      ∷ html (
          "" ∷ "          </div>" ∷ "          <details class=\"form-section\">"
          ∷ "            <summary>" ∷ [])
      ∷ html_text (t (text "rawReadback"))
      ∷ html ("</summary>" ∷ "            <p class=\"camera-device-help\">" ∷ [])
      ∷ html_text (t (text "deviceReadHint"))
      ∷ html (
          "</p>" ∷ "            <pre class=\"device-output\"></pre>" ∷ "          </details>"
          ∷ "        </details>" ∷ "      </details>" ∷ "    </form>" ∷ [])
      ∷ [])
