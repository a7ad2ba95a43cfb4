-- ===== src/Pages/SafePage.antt =====
-- The markup of the whole overview does not depend on the values that are shown.
use bk7252n_gate.Prelude.{ℕ, ◌≡◌, refl, [], ◌∷◌, List, length, false, Text, is_empty, arith}
use bk7252n_gate.Input.{Object, FloatOps}
use bk7252n_gate.Pages.{UiText}
use bk7252n_gate.Pages.Marks.{marks, SameMarks, done, next, join-SameMarks, page_laws}
use bk7252n_gate.Pages.Metrics.{RateOps}
use bk7252n_gate.Pages.Page.{shown_statuses, render_manager, page_frame, render_cards, render_page}
use bk7252n_gate.Pages.SafePanel.{render_camera_card-marks}

page_frame-marks :
    (ui : UiText) (lang camera_id manager : Text) (xs ys : List Text)
    → SameMarks xs ys
    → marks (page_frame ui lang camera_id manager xs)
      ≡ marks (page_frame ui lang camera_id manager ys)
unfolding page_frame
page_frame-marks ui lang camera_id manager xs ys h = search (page_laws, join-SameMarks) depth 100

module _ {F : Type 0} (fl : FloatOps F) (ro : RateOps F) (ui : UiText) where
  render_cards-SameMarks :
      (now now' : ℕ) (configs configs' cs ds : List (Object F)) (lang : Text)
      → length cs ≡ length ds
      → SameMarks
          (render_cards fl ro ui now configs lang false cs)
          (render_cards fl ro ui now' configs' lang false ds)
  unfolding render_cards
  render_cards-SameMarks now now' configs configs' [] [] lang h = done
  render_cards-SameMarks now now' configs configs' [] (d ∷ ds) lang h = absurd (omega arith)
  render_cards-SameMarks now now' configs configs' (c ∷ cs) [] lang h = absurd (omega arith)
  render_cards-SameMarks now now' configs configs' (c ∷ cs) (d ∷ ds) lang h =
      next (render_camera_card-marks fl ro ui ui now now' c d _ _ lang lang)
        (render_cards-SameMarks now now' configs configs' cs ds lang (omega arith))

  shown_all : (statuses : List (Object F)) → shown_statuses fl [] statuses ≡ statuses
  unfolding shown_statuses is_empty
  shown_all [] = refl
  shown_all (st ∷ statuses) = rw (shown_all statuses) refl

  -- Two overviews of as many cameras have the same markup characters in the same order, whatever the
  -- cameras report, whatever their configurations hold, and at whatever times.
  pub render_page-marks :
      (now now' : ℕ) (statuses statuses' configs configs' : List (Object F)) (lang lan lan' : Text)
      → length statuses ≡ length statuses'
      → marks (render_page fl ro ui now statuses configs lang lan [] false)
        ≡ marks (render_page fl ro ui now' statuses' configs' lang lan' [] false)
  unfolding render_page is_empty render_manager
  render_page-marks now now' statuses statuses' configs configs' lang lan lan' h =
      rw (shown_all statuses, shown_all statuses')
        (page_frame-marks ui lang [] _ _ _
          (render_cards-SameMarks now now' configs configs' statuses statuses' lang h))
