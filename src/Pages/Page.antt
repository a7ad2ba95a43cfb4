-- ===== src/Pages/Page.antt =====
-- `renderPage` of bkcam-go/main.go, and what it uses of strconv; `now_ms` is the clock in milliseconds.
use bk7252n_gate.Prelude.{
  ℕ, List, [], ◌∷◌, ◌++◌, Bool, true, false, ◌&&◌, ◌||◌, not, Option, none, some, ltb, ◌==◌,
  if◌then◌else◌, Text, text, text_eq, is_empty,
}
use bk7252n_gate.Audio.Wav.{audio_sample_rate}
use bk7252n_gate.Input.{Object, FloatOps, sprint}
use bk7252n_gate.Pages.{
  UiText, tr, map_bool, html_text, concat, join, html, decimal, field, hex_escape,
}
use bk7252n_gate.Pages.Metrics.{RateOps}
use bk7252n_gate.Pages.Panel.{render_camera_panel}
use bk7252n_gate.Pages.Wizard.{render_wizard}
use bk7252n_gate.Pages.Style.{page_style}
use bk7252n_gate.Pages.Script.{script_players, script_sound}
use bk7252n_gate.Pages.Actions.{script_forms, script_poll}

-- What strconv.Quote writes for a byte of a printable text.
unfoldable pub quote_char : ℕ → Text
quote_char c =
    if (c == b'"') || (c == b'\\')
    then b'\\' ∷ c ∷ []
    else if c == 10
    then text "\\n"
    else if c == 13
    then text "\\r"
    else if c == 9
    then text "\\t"
    else if c == 7
    then text "\\a"
    else if c == 8
    then text "\\b"
    else if c == 11
    then text "\\v"
    else if c == 12
    then text "\\f"
    else if ltb c 32 || (c == 127)
    then hex_escape c
    else c ∷ []

unfoldable pub quote_chars : Text → Text
quote_chars [] = []
quote_chars (c ∷ s) = quote_char c ++ quote_chars s

-- strconv.Quote
unfoldable pub quote : Text → Text
quote s = b'"' ∷ (quote_chars s ++ (b'"' ∷ []))

-- `configs[id]`; the last configuration with an id is the one that is kept.
unfoldable pub config_of : {F : Type 0} → FloatOps F → Text → List (Object F) → Option (Object F)
config_of fl id [] = none
config_of fl id (cfg ∷ configs) = elim (config_of fl id configs) [
  | some later ↦ some later
  | none ↦ if text_eq (sprint fl (field cfg (text "id"))) id then some cfg else none
]

-- The statuses that the page shows.
unfoldable pub shown_statuses : {F : Type 0} → FloatOps F → Text → List (Object F) → List (Object F)
shown_statuses fl camera_id [] = []
shown_statuses fl camera_id (st ∷ statuses) =
    let rest = shown_statuses fl camera_id statuses in
    if not (is_empty camera_id) && not (text_eq (sprint fl (field st (text "id"))) camera_id)
    then rest
    else st ∷ rest

unfoldable pub render_manager : UiText → Text → Text → Text → Bool → Text
render_manager ui lang lan_discovery camera_id true = render_wizard ui lan_discovery lang
render_manager ui lang lan_discovery camera_id false =
    let t = tr ui lang in
    let overview = concat (
      html ("<section class=\"overview-head\">" ∷ "\t        <div>" ∷ "\t          <h2>" ∷ [])
      ∷ html_text (t (text "dashboard"))
      ∷ html ("</h2>" ∷ "\t          <p class=\"meta\">" ∷ [])
      ∷ html_text (t (text "overviewMeta"))
      ∷ html ("</p>" ∷ "\t        </div>" ∷ "\t        <a class=\"primary\" href=\"/setup\">" ∷ [])
      ∷ html_text (t (text "openWizard"))
      ∷ html ("</a>" ∷ "\t      </section>" ∷ [])
      ∷ []) in
    if is_empty camera_id then overview else []

-- The text around the cameras' panels.
unfoldable pub page_frame : UiText → Text → Text → Text → List Text → Text
page_frame ui lang camera_id manager cards =
    let t = tr ui lang in
    concat (
      html ("<!doctype html>" ∷ "<html lang=\"" ∷ [])
      ∷ html_text lang
      ∷ page_style
      ∷ html_text (t (text "dashboard"))
      ∷ html ("</a>" ∷ "      <a href=\"/setup\">" ∷ [])
      ∷ html_text (t (text "setup"))
      ∷ html ("</a>" ∷ "      <a href=\"/api/status\">" ∷ [])
      ∷ html_text (t (text "status"))
      ∷ html (
          "</a>" ∷ "      <a href=\"/frigate.yml\">Frigate</a>"
          ∷ "      <a href=\"/go2rtc.yml\">go2rtc</a>" ∷ "      <a href=\"?lang=ru\">RU</a>"
          ∷ "      <a href=\"?lang=en\">EN</a>" ∷ "    </nav>" ∷ "  </header>" ∷ "  <main>" ∷ [])
      ∷ manager
      ∷ text "<div class=\"grid "
      ∷ map_bool (not (is_empty camera_id)) (text "detail-grid") []
      ∷ text "\">"
      ∷ join cards []
      ∷ html ("</div></main>" ∷ "  <script>" ∷ "    const UI = {" ∷ "      saved: " ∷ [])
      ∷ quote (t (text "saved"))
      ∷ html ("," ∷ "      sent: " ∷ [])
      ∷ quote (t (text "sent"))
      ∷ html ("," ∷ "      writing: " ∷ [])
      ∷ quote (t (text "writing"))
      ∷ html ("," ∷ "      read: " ∷ [])
      ∷ quote (t (text "read"))
      ∷ html ("," ∷ "      autoRead: " ∷ [])
      ∷ quote (t (text "autoRead"))
      ∷ html ("," ∷ "      autoReadOk: " ∷ [])
      ∷ quote (t (text "autoReadOk"))
      ∷ html ("," ∷ "      autoReadTimeout: " ∷ [])
      ∷ quote (t (text "autoReadTimeout"))
      ∷ html ("," ∷ "      deleted: " ∷ [])
      ∷ quote (t (text "deleted"))
      ∷ html ("," ∷ "      sound: " ∷ [])
      ∷ quote (t (text "sound"))
      ∷ html ("," ∷ "      stop: " ∷ [])
      ∷ quote (t (text "stop"))
      ∷ script_players
      ∷ decimal audio_sample_rate
      ∷ script_sound
      ∷ script_forms
      ∷ script_poll
      ∷ [])

module _ {F : Type 0} (fl : FloatOps F) (ro : RateOps F) (ui : UiText) (now_ms : ℕ) where
  unfoldable pub render_cards : List (Object F) → Text → Bool → List (Object F) → List Text
  render_cards configs lang detail [] = []
  render_cards configs lang detail (c ∷ cameras) =
      render_camera_panel fl ro ui now_ms c (config_of fl (sprint fl (field c (text "id"))) configs)
        lang detail
      ∷ render_cards configs lang detail cameras

  unfoldable pub render_page :
      (statuses configs : List (Object F)) (lang lan_discovery camera_id : Text) (is_setup : Bool)
      → Text
  render_page statuses configs lang lan_discovery camera_id is_setup =
      let cameras = if is_setup then [] else shown_statuses fl camera_id statuses in
      page_frame ui lang camera_id (render_manager ui lang lan_discovery camera_id is_setup)
        (render_cards configs lang (not (is_empty camera_id)) cameras)
