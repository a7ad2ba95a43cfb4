-- ===== src/Router/Root.antt =====
-- `handleRoot` and `handleCamera` of bkcam-go/main.go. `Site` is what they ask of the pages and runtimes.
use bk7252n_gate.Prelude.{
  ℕ, [], Bool, true, false, Option, none, some, drop, length, has_prefix, if◌then◌else◌, Text, text,
  text_eq, is_empty,
}
use bk7252n_gate.Input.{Object, FloatOps}
use bk7252n_gate.Pages.{normalize_lang}
use bk7252n_gate.Router.{Reply, Api, handle_api}
use bk7252n_gate.Router.Body.{Request, base_url}
use bk7252n_gate.Router.Paths.{split_path}

-- The handlers of one camera's media.
pub data Media : Type 0 where
  video : Media  -- ServeVideo
  audio : Bool → Media  -- ServeAudio, with the header of a WAV file or without
  snapshot : Bool → Media  -- ServeSnapshot, of a fresh picture or of what there is

-- What handles a request: an answer in JSON, a text with its content type, or the media of a camera.
pub data Handled : Type 0 where
  api : Reply → Handled
  failed : ℕ → Text → Handled
  page : Text → Text → Handled  -- a page of renderPage
  listing : Text → Text → Handled  -- the configuration of Frigate or go2rtc
  media : Text → Media → Handled

pub record Site (S : Type 0) : Type 0 where
  pub is_running : S → Text → Bool  -- `a.runtime(id) != nil`
  pub all_statuses : S → S  -- what allStatuses does, which renderPage calls
  pub render_page : S → Request → Text → Bool → Text
  pub render_frigate : S → Text → Text
  pub render_go2rtc : S → Text → Text

abbrev html_type : Text
html_type = text "text/html; charset=utf-8"

abbrev yaml_type : Text
yaml_type = text "text/yaml; charset=utf-8"

module _ {S : Type 0} (site : Site S) where
  unfoldable pub handle_endpoint : S → Request → Text → Text → Handled
  handle_endpoint s r id action =
      if is_empty action
      then page (site.render_page s r id false) html_type
      else if text_eq action (text "video.mjpg")
      then media id video
      else if text_eq action (text "audio.wav")
      then media id (audio true)
      else if text_eq action (text "audio.raw")
      then media id (audio false)
      else if text_eq action (text "snapshot.jpg")
      then media id (snapshot true)
      else if text_eq action (text "preview.jpg")
      then media id (snapshot false)
      else failed 404 (text "unknown camera endpoint")

  unfoldable pub handle_camera : S → Request → Handled
  handle_camera s r = elim (split_path (drop (length (text "/cam/")) r.path)) [
    | none ↦ failed 400 (text "bad camera id")
    | some (id, action) ↦
        if site.is_running s id
        then handle_endpoint s r id action
        else failed 404 (text "unknown camera")
  ]

  -- The paths outside `/api/`
  unfoldable pub handle_page : S → Request → Handled
  handle_page s r =
      if text_eq r.path (text "/")
      then page (site.render_page s r [] false) html_type
      else if text_eq r.path (text "/frigate.yml")
      then listing (site.render_frigate s (base_url r)) yaml_type
      else if text_eq r.path (text "/go2rtc.yml")
      then listing (site.render_go2rtc s (base_url r)) yaml_type
      else if text_eq r.path (text "/setup")
      then page (site.render_page s r [] true) html_type
      else if has_prefix r.path (text "/cam/")
      then handle_camera s r
      else failed 404 (text "not found")

  -- The state once the request has been handled; `ServeVideo` and the like run on.
  unfoldable pub state_after : S → Handled → S
  state_after s (page body kind) = site.all_statuses s
  state_after s (listing body kind) = s
  state_after s (api reply) = s
  state_after s (failed status msg) = s
  state_after s (media id m) = s

  -- The language that is set as a cookie, if any, the state and what handles the request.
  unfoldable pub handle_root :
      {F : Type 0}
      → Api S F
      → FloatOps F
      → (Text → Option (Option (Object F)))
      → S
      → Request
      → Text × S × Handled
  handle_root handlers fl unmarshal s r =
      let cookie = normalize_lang r.query_lang in
      let answer = handle_api handlers fl unmarshal s r in
      let handled = handle_page s r in
      if has_prefix r.path (text "/api/")
      then (cookie, answer.0, api answer.1)
      else (cookie, state_after s handled, handled)
