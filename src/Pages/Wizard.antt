-- ===== src/Pages/Wizard.antt =====
-- `renderWizard` of bkcam-go/main.go.
use bk7252n_gate.Prelude.{[], ◌∷◌, Text, text}
use bk7252n_gate.Pages.{UiText, tr, html_text, concat, html}

unfoldable pub render_wizard : UiText → Text → Text → Text
render_wizard ui lan_discovery lang =
    let t = tr ui lang in
    concat (
      html (
        "<section class=\"wizard setup-wizard\">" ∷ "      <header class=\"section-head\">"
        ∷ "        <div>" ∷ "          <h2>" ∷ [])
      ∷ html_text (t (text "wizardTitle"))
      ∷ html ("</h2>" ∷ "          <p class=\"meta\">" ∷ [])
      ∷ html_text (t (text "wizardMeta"))
      ∷ html (
          "</p>" ∷ "        </div>" ∷ "      </header>" ∷ "      <div class=\"steps\">"
          ∷ "        <section class=\"step\">" ∷ "          <strong>" ∷ [])
      ∷ html_text (t (text "wizardStep1"))
      ∷ html ("</strong>" ∷ "          <p>" ∷ [])
      ∷ html_text (t (text "wizardStep1Text"))
      ∷ html (
          "</p>" ∷ "        </section>" ∷ "        <section class=\"step\">" ∷ "          <strong>"
          ∷ [])
      ∷ html_text (t (text "wizardStep2"))
      ∷ html ("</strong>" ∷ "          <p>" ∷ [])
      ∷ html_text (t (text "wizardStep2Text"))
      ∷ html (
          "</p>" ∷ "\t          <form data-provision-camera class=\"config-form\">"
          ∷ "\t            <label><span>ID</span><input name=\"id\" required pattern=\"[A-Za-z0-9_-]+\" autocomplete=\"off\" placeholder=\"a9_front\"></label>"
          ∷ "\t            <label><span>" ∷ [])
      ∷ html_text (t (text "name"))
      ∷ html (
          "</span><input name=\"name\" autocomplete=\"off\" placeholder=\"Front door\"></label>"
          ∷ "\t            <label><span>" ∷ [])
      ∷ html_text (t (text "currentIP"))
      ∷ html (
          "</span><input name=\"setupIp\" placeholder=\"192.168.4.1\" inputmode=\"numeric\" autocomplete=\"off\"></label>"
          ∷ "\t            <label><span>" ∷ [])
      ∷ html_text (t (text "targetSSID"))
      ∷ html (
          "</span><input name=\"ssid\" autocomplete=\"off\"></label>"
          ∷ "\t            <label><span>" ∷ [])
      ∷ html_text (t (text "targetPassword"))
      ∷ html (
          "</span><input name=\"wifiPassword\" type=\"password\" autocomplete=\"new-password\"></label>"
          ∷ "\t            <label><span>" ∷ [])
      ∷ html_text (t (text "finalIP"))
      ∷ html (
          "</span><input name=\"finalIp\" placeholder=\"optional\" inputmode=\"numeric\" autocomplete=\"off\"></label>"
          ∷ "\t            <label class=\"check\"><input name=\"reboot\" type=\"checkbox\" checked><span>"
          ∷ [])
      ∷ html_text (t (text "reboot"))
      ∷ html (
          "</span></label>" ∷ "\t            <details class=\"form-section\">"
          ∷ "\t              <summary>" ∷ [])
      ∷ html_text (t (text "advancedSettings"))
      ∷ html (
          "</summary>" ∷ "\t              <div class=\"config-form\">"
          ∷ "\t                <label><span>" ∷ [])
      ∷ html_text (t (text "currentDiscovery"))
      ∷ html (
          "</span><input name=\"setupDiscovery\" placeholder=\"255.255.255.255\" inputmode=\"numeric\" autocomplete=\"off\"></label>"
          ∷ "\t                <label><span>" ∷ [])
      ∷ html_text (t (text "finalDiscovery"))
      ∷ text "</span><input name=\"finalDiscovery\" placeholder=\""
      ∷ html_text lan_discovery
      ∷ html (
          "\" inputmode=\"numeric\" autocomplete=\"off\"></label>"
          ∷ "\t                <label><span>" ∷ [])
      ∷ html_text (t (text "psk"))
      ∷ html (
          "</span><input name=\"psk\" value=\"SHIX\" autocomplete=\"off\"></label>"
          ∷ "\t                <label><span>" ∷ [])
      ∷ html_text (t (text "user"))
      ∷ html (
          "</span><input name=\"username\" value=\"admin\" autocomplete=\"off\"></label>"
          ∷ "\t                <label><span>" ∷ [])
      ∷ html_text (t (text "cameraPassword"))
      ∷ html (
          "</span><input name=\"password\" type=\"password\" value=\"6666\" autocomplete=\"new-password\"></label>"
          ∷ "\t                <label><span>ACK</span><input name=\"ackRepeats\" type=\"number\" min=\"1\" max=\"9\" value=\"3\"></label>"
          ∷ "\t              </div>" ∷ "\t            </details>"
          ∷ "\t            <button type=\"submit\">" ∷ [])
      ∷ html_text (t (text "writeAndSave"))
      ∷ html (
          "</button>" ∷ "\t            <output></output>" ∷ "\t          </form>"
          ∷ "        </section>" ∷ "        <section class=\"step\">" ∷ "          <strong>" ∷ [])
      ∷ html_text (t (text "wizardStep3"))
      ∷ html ("</strong>" ∷ "          <p>" ∷ [])
      ∷ html_text (t (text "wizardStep3Text"))
      ∷ html (
          "</p>" ∷ "        </section>" ∷ "        <section class=\"step\">" ∷ "          <strong>"
          ∷ [])
      ∷ html_text (t (text "wizardStep4"))
      ∷ html ("</strong>" ∷ "          <p>" ∷ [])
      ∷ html_text (t (text "wizardStep4Text"))
      ∷ html ("</p>" ∷ "        </section>" ∷ "      </div>" ∷ "    </section>" ∷ [])
      ∷ [])
