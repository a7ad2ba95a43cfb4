-- ===== src/Pages/Safe.antt =====
-- The markup of the pages' parts does not depend on the values that are shown.
use bk7252n_gate.Prelude.{◌≡◌, refl, sym, [], ◌∷◌, Bool, true, false, Text, text}
use bk7252n_gate.Input.{Value, str, Object, FloatOps, sprint}
use bk7252n_gate.Pages.{UiText, map_bool}
use bk7252n_gate.Pages.Marks.{is_mark, marks, page_laws}
use bk7252n_gate.Pages.Controls.{
  Options, render_input, render_options, render_select_value, render_select, render_radios,
  render_radio_group, render_bitrate_select,
}
use bk7252n_gate.Pages.CameraForm.{camera_form}
use bk7252n_gate.Pages.DeviceForm.{render_device_config_form}
use bk7252n_gate.Pages.Wizard.{render_wizard}

-- As many options.
abbrev pub SameSize : Options → Options → Type 0
SameSize [] [] = Unit
SameSize [] (b ∷ ys) = ⊥
SameSize (a ∷ xs) [] = ⊥
SameSize (a ∷ xs) (b ∷ ys) = SameSize xs ys

pub choice-marks :
    (b c : Bool) (s : Text) → marks s ≡ [] → marks (map_bool b s []) ≡ marks (map_bool c s [])
unfolding map_bool marks
choice-marks true true s h = refl
choice-marks false false s h = refl
choice-marks true false s h = h
choice-marks false true s h = sym h

checked_plain : marks (text "checked") ≡ []
unfolding marks is_mark
checked_plain = refl

checked_marked : marks (text " checked") ≡ []
unfolding marks is_mark
checked_marked = refl

selected_plain : marks (text " selected") ≡ []
unfolding marks is_mark
selected_plain = refl

render_options-marks :
    (s t : Text) (xs ys : Options)
    → SameSize xs ys
    → marks (render_options s xs) ≡ marks (render_options t ys)
unfolding render_options
render_options-marks s t [] [] h = refl
render_options-marks s t [] (b ∷ ys) h = absurd h
render_options-marks s t (a ∷ xs) [] h = absurd h
render_options-marks s t (a ∷ xs) (b ∷ ys) h =
    search (page_laws, choice-marks, selected_plain, render_options-marks s t xs ys h) depth 20

render_radios-marks :
    (n n' s t : Text) (xs ys : Options)
    → SameSize xs ys
    → marks (render_radios n s xs) ≡ marks (render_radios n' t ys)
unfolding render_radios
render_radios-marks n n' s t [] [] h = refl
render_radios-marks n n' s t [] (b ∷ ys) h = absurd h
render_radios-marks n n' s t (a ∷ xs) [] h = absurd h
render_radios-marks n n' s t (a ∷ xs) (b ∷ ys) h =
    search (page_laws, choice-marks, checked_marked, render_radios-marks n n' s t xs ys h) depth 20

render_radio_group-marks :
    (n n' l l' s t : Text) (xs ys : Options)
    → SameSize xs ys
    → marks (render_radio_group n l s xs) ≡ marks (render_radio_group n' l' t ys)
unfolding render_radio_group
render_radio_group-marks n n' l l' s t xs ys h =
    search (page_laws, render_radios-marks n n' s t xs ys h) depth 20

module _ {F : Type 0} (fl : FloatOps F) where
  render_input-marks :
      (n n' l l' : Text) (v w : Value F) (attrs : Text)
      → marks (render_input fl n l v attrs) ≡ marks (render_input fl n' l' w attrs)
  unfolding render_input
  render_input-marks n n' l l' v w attrs = search page_laws depth 20

  render_select_value-marks :
      (n n' l l' : Text) (v w : Value F) (xs ys : Options)
      → SameSize xs ys
      → marks (render_select_value fl n l v xs) ≡ marks (render_select_value fl n' l' w ys)
  unfolding render_select_value
  render_select_value-marks n n' l l' v w xs ys h =
      search (page_laws, render_options-marks (sprint fl v) (sprint fl w) xs ys h) depth 20

  render_select-marks :
      (n n' l l' : Text) (xs ys : Options)
      → SameSize xs ys
      → marks (render_select fl n l xs) ≡ marks (render_select fl n' l' ys)
  unfolding render_select
  render_select-marks n n' l l' xs ys h =
      render_select_value-marks n n' l l' (str []) (str []) xs ys h

  render_bitrate_select-marks :
      (ui ui' : UiText) (lang lang' : Text)
      → marks (render_bitrate_select ui fl lang) ≡ marks (render_bitrate_select ui' fl lang')
  unfolding render_bitrate_select
  render_bitrate_select-marks ui ui' lang lang' = search (render_select-marks) depth 20

  ruleset form_laws = (
    page_laws, choice-marks, checked_plain, render_input-marks, render_select_value-marks,
    render_select-marks, render_bitrate_select-marks, render_radio_group-marks,
  )

  pub camera_form-marks :
      (ui ui' : UiText) (c d : Object F) (lang lang' : Text)
      → marks (camera_form fl ui c lang) ≡ marks (camera_form fl ui' d lang')
  unfolding camera_form
  camera_form-marks ui ui' c d lang lang' = search form_laws depth 100 fits 20000

  pub render_device_config_form-marks :
      (ui ui' : UiText) (id id' lang lang' : Text)
      → marks (render_device_config_form fl ui id lang)
        ≡ marks (render_device_config_form fl ui' id' lang')
  unfolding render_device_config_form
  render_device_config_form-marks ui ui' id id' lang lang' =
      search (form_laws, tt) depth 200 fits 20000

pub render_wizard-marks :
    (ui ui' : UiText) (lan lan' lang lang' : Text)
    → marks (render_wizard ui lan lang) ≡ marks (render_wizard ui' lan' lang')
unfolding render_wizard
render_wizard-marks ui ui' lan lan' lang lang' = search page_laws depth 200 fits 20000
