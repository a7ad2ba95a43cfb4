-- ===== src/Pages/CameraForm.antt =====
-- `renderCameraConfigForm` of bkcam-go/main.go.
use bk7252n_gate.Prelude.{[], ◌∷◌, true, false, Option, none, some, Text, text}
use bk7252n_gate.Input.{Object, str, FloatOps, as_bool_value}
use bk7252n_gate.Pages.{UiText, tr, map_bool, html_text, html_value, concat, html, field}
use bk7252n_gate.Pages.Controls.{render_input, render_select_value}

-- The form of a configuration; `camera == nil` is `none`.
unfoldable pub camera_form : {F : Type 0} → FloatOps F → UiText → Object F → Text → Text
camera_form fl ui camera lang =
    let t = tr ui lang in
    concat (
      text "<form data-update-camera=\""
      ∷ html_value fl (field camera (text "id"))
      ∷ html (
          "\" class=\"config-form profile-form\">" ∷ "      <section class=\"form-block\">"
          ∷ "        <h4>" ∷ [])
      ∷ html_text (t (text "connectionGroup"))
      ∷ html ("</h4>" ∷ "        " ∷ [])
      ∷ render_input fl (text "name") (t (text "name")) (field camera (text "name")) []
      ∷ html ("" ∷ "        " ∷ [])
      ∷ render_input fl (text "ip") (t (text "cameraIP")) (field camera (text "ip"))
          (text "inputmode=\"numeric\" autocomplete=\"off\"")
      ∷ html ("" ∷ "        " ∷ [])
      ∷ render_input fl (text "discovery") (t (text "discovery")) (field camera (text "discovery"))
          (text "inputmode=\"numeric\" autocomplete=\"off\"")
      ∷ html ("" ∷ "        " ∷ [])
      ∷ render_input fl (text "width") (t (text "width")) (field camera (text "width"))
          (text "type=\"number\" min=\"1\"")
      ∷ html ("" ∷ "        " ∷ [])
      ∷ render_input fl (text "height") (t (text "height")) (field camera (text "height"))
          (text "type=\"number\" min=\"1\"")
      ∷ html ("" ∷ "        <label class=\"check\"><input name=\"enabled\" type=\"checkbox\" " ∷ [])
      ∷ map_bool (as_bool_value fl (field camera (text "enabled")) true) (text "checked") []
      ∷ text "><span>"
      ∷ html_text (t (text "enabled"))
      ∷ html (
          "</span></label>"
          ∷ "        <label class=\"check\"><input name=\"avStream\" type=\"checkbox\" " ∷ [])
      ∷ map_bool (as_bool_value fl (field camera (text "avStream")) true) (text "checked") []
      ∷ text "><span>"
      ∷ html_text (t (text "requestAV"))
      ∷ html (
          "</span></label>" ∷ "      </section>" ∷ "      <section class=\"form-block\">"
          ∷ "        <h4>" ∷ [])
      ∷ html_text (t (text "overlayGroup"))
      ∷ html (
          "</h4>" ∷ "        <label class=\"check\"><input name=\"overlayName\" type=\"checkbox\" "
          ∷ [])
      ∷ map_bool (as_bool_value fl (field camera (text "overlayName")) false) (text "checked") []
      ∷ text "><span>"
      ∷ html_text (t (text "overlayName"))
      ∷ html (
          "</span></label>"
          ∷ "        <label class=\"check\"><input name=\"overlayTime\" type=\"checkbox\" " ∷ [])
      ∷ map_bool (as_bool_value fl (field camera (text "overlayTime")) false) (text "checked") []
      ∷ text "><span>"
      ∷ html_text (t (text "overlayTime"))
      ∷ html (
          "</span></label>"
          ∷ "        <label class=\"check\"><input name=\"overlayDiag\" type=\"checkbox\" " ∷ [])
      ∷ map_bool (as_bool_value fl (field camera (text "overlayDiag")) false) (text "checked") []
      ∷ text "><span>"
      ∷ html_text (t (text "overlayDiag"))
      ∷ html ("</span></label>" ∷ "        " ∷ [])
      ∷ render_select_value fl (text "overlaySize") (t (text "overlaySize"))
          (field camera (text "overlaySize"))
          ((text "1", t (text "overlaySmall"))
            ∷ (text "2", t (text "overlayMedium"))
            ∷ (text "3", t (text "overlayLarge"))
            ∷ [])
      ∷ html (
          "" ∷ "      </section>" ∷ "      <details class=\"form-section\">" ∷ "        <summary>"
          ∷ [])
      ∷ html_text (t (text "expertConnection"))
      ∷ html ("</summary>" ∷ "        <div class=\"config-form\">" ∷ "          " ∷ [])
      ∷ render_input fl (text "localAddress") (t (text "localBind"))
          (field camera (text "localAddress")) (text "inputmode=\"numeric\" autocomplete=\"off\"")
      ∷ html ("" ∷ "          " ∷ [])
      ∷ render_input fl (text "psk") (t (text "psk")) (field camera (text "psk"))
          (text "autocomplete=\"off\"")
      ∷ html ("" ∷ "          " ∷ [])
      ∷ render_input fl (text "username") (t (text "user")) (field camera (text "username"))
          (text "autocomplete=\"off\"")
      ∷ html ("" ∷ "          " ∷ [])
      ∷ render_input fl (text "password") (t (text "password")) (str [])
          (text "type=\"password\" placeholder=\"keep current\" autocomplete=\"new-password\"")
      ∷ html ("" ∷ "          " ∷ [])
      ∷ render_input fl (text "ackRepeats") (t (text "ackRepeats"))
          (field camera (text "ackRepeats")) (text "type=\"number\" min=\"1\" max=\"9\"")
      ∷ html ("" ∷ "        </div>" ∷ "      </details>" ∷ "      <button type=\"submit\">" ∷ [])
      ∷ html_text (t (text "save"))
      ∷ html ("</button>" ∷ "      <output></output>" ∷ "    </form>" ∷ [])
      ∷ [])

unfoldable pub render_camera_config_form :
    {F : Type 0} → FloatOps F → UiText → Option (Object F) → Text → Text
render_camera_config_form fl ui none lang = []
render_camera_config_form fl ui (some camera) lang = camera_form fl ui camera lang
