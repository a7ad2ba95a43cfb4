-- ===== src/Pages/Controls.antt =====
-- The controls of the forms: `renderInput`, `renderSelect`, `renderSelectValue`, `renderRadioGroup`,
-- `renderBitrateSelect` of bkcam-go/main.go. What `strings.Builder` collects is the texts in a row.
use bk7252n_gate.Prelude.{List, [], ◌∷◌, Text, text, text_eq}
use bk7252n_gate.Input.{Value, str, FloatOps, sprint}
use bk7252n_gate.Pages.{UiText, tr, map_bool, html_text, html_value, sprintf, concat}

unfoldable pub render_input : {F : Type 0} → FloatOps F → Text → Text → Value F → Text → Text
render_input fl name label value attrs =
    sprintf (text "<label><span>%s</span><input name=\"%s\" value=\"%s\" %s></label>")
      (html_text label ∷ html_text name ∷ html_value fl value ∷ attrs ∷ [])

abbrev pub Options : Type 0
Options = List (Text × Text)

-- The loop of `renderSelectValue`
unfoldable pub render_options : Text → Options → Text
render_options selected_value [] = []
render_options selected_value ((value, label) ∷ options) = concat (
    text "<option value=\""
    ∷ html_text value
    ∷ text "\""
    ∷ map_bool (text_eq value selected_value) (text " selected") []
    ∷ text ">"
    ∷ html_text label
    ∷ text "</option>"
    ∷ render_options selected_value options
    ∷ [])

unfoldable pub render_select_value :
    {F : Type 0} → FloatOps F → Text → Text → Value F → Options → Text
render_select_value fl name label selected options = concat (
    text "<label><span>"
    ∷ html_text label
    ∷ text "</span><select name=\""
    ∷ html_text name
    ∷ text "\">"
    ∷ render_options (sprint fl selected) options
    ∷ text "</select></label>"
    ∷ [])

unfoldable pub render_select : {F : Type 0} → FloatOps F → Text → Text → Options → Text
render_select fl name label options = render_select_value fl name label (str []) options

-- The loop of `renderRadioGroup`
unfoldable pub render_radios : Text → Text → Options → Text
render_radios name selected [] = []
render_radios name selected ((value, label) ∷ options) = concat (
    text "<label class=\"segment\"><input type=\"radio\" name=\""
    ∷ html_text name
    ∷ text "\" value=\""
    ∷ html_text value
    ∷ text "\""
    ∷ map_bool (text_eq value selected) (text " checked") []
    ∷ text "><span>"
    ∷ html_text label
    ∷ text "</span></label>"
    ∷ render_radios name selected options
    ∷ [])

unfoldable pub render_radio_group : Text → Text → Text → Options → Text
render_radio_group name label selected options = concat (
    text "<fieldset class=\"segmented\"><legend>"
    ∷ html_text label
    ∷ text "</legend>"
    ∷ render_radios name selected options
    ∷ text "</fieldset>"
    ∷ [])

unfoldable pub render_bitrate_select : UiText → {F : Type 0} → FloatOps F → Text → Text
render_bitrate_select ui fl lang =
    let t = tr ui lang in
    render_select fl (text "bitrateKbps") (t (text "bitrate")) (
      ([], t (text "leave"))
      ∷ (text "400", text "400 kbps")
      ∷ (text "600", text "600 kbps")
      ∷ (text "800", text "800 kbps")
      ∷ (text "1000", text "1.0 Mbps")
      ∷ (text "1300", text "1.3 Mbps")
      ∷ (text "1600", text "1.6 Mbps")
      ∷ (text "2000", text "2.0 Mbps")
      ∷ (text "2600", text "2.6 Mbps")
      ∷ [])
