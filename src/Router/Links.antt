-- ===== src/Router/Links.antt =====
-- The links that the pages write for a camera lead back to it.
use bk7252n_gate.Prelude.{
  ◌≡◌, refl, [], ◌∷◌, ◌++◌, true, false, Option, some, has_prefix, if◌then◌else◌, Text, text,
  text_eq, arith,
}
use bk7252n_gate.Input.{valid_id_char, all_id_chars, valid_camera_id, Object, FloatOps}
use bk7252n_gate.Pages.{is_path_char, path_escape_char, path_escape, contains}
use bk7252n_gate.Router.{Api, handle_one, handle_parts, handle_api}
use bk7252n_gate.Router.Body.{Request}
use bk7252n_gate.Router.Paths.{
  put_first, path_unescape, url_path_unescape, split_slash, with_id, unescape_first, split_path,
}
use bk7252n_gate.Router.Root.{Site, failed, handle_endpoint, handle_camera, handle_page}

path_escape_id : (id : Text) → all_id_chars id ≡ true → path_escape id ≡ id
unfolding path_escape path_escape_char is_path_char all_id_chars
path_escape_id [] h = refl
path_escape_id (c ∷ s) h = ground (arith, path_escape_id s)

path_unescape_id : (id : Text) → all_id_chars id ≡ true → path_unescape id ≡ some id
unfolding path_unescape put_first all_id_chars valid_id_char
path_unescape_id [] h = refl
path_unescape_id (c ∷ []) h = ground arith
path_unescape_id (c ∷ d ∷ []) h = ground (arith, path_unescape_id (d ∷ []))
path_unescape_id (c ∷ d ∷ e ∷ s) h = ground (arith, path_unescape_id (d ∷ e ∷ s))

no_slash : (id : Text) → all_id_chars id ≡ true → contains id (text "/") ≡ false
unfolding contains has_prefix all_id_chars valid_id_char
no_slash [] h = refl
no_slash (c ∷ s) h = ground (arith, no_slash s)

split_slash-id :
    (id action : Text) → all_id_chars id ≡ true → split_slash (id ++ (b'/' ∷ action)) ≡ (id, action)
unfolding split_slash all_id_chars valid_id_char
split_slash-id [] action h = refl
split_slash-id (c ∷ s) action h = ground (arith, split_slash-id s action)

pub split_path-link :
    (id action : Text)
    → valid_camera_id id ≡ true
    → split_path (path_escape id ++ (b'/' ∷ action)) ≡ some (id, action)
unfolding split_path url_path_unescape valid_camera_id unescape_first with_id
split_path-link id action h =
    let chars : all_id_chars id ≡ true = ground arith in
    let parts : split_slash (path_escape id ++ (b'/' ∷ action)) ≡ (id, action) =
      rw (path_escape_id id chars) (split_slash-id id action chars) in
    rw
      (
        split_path,
        parts,
        unescape_first,
        url_path_unescape,
        path_unescape_id id chars,
        no_slash id chars,
        with_id,
      )
      refl

split_slash-whole : (id : Text) → all_id_chars id ≡ true → split_slash id ≡ (id, [])
unfolding split_slash all_id_chars valid_id_char
split_slash-whole [] h = refl
split_slash-whole (c ∷ s) h = ground (arith, split_slash-whole s)

-- A path that ends with the id has the empty action.
pub split_path-id :
    (id : Text) → valid_camera_id id ≡ true → split_path (path_escape id) ≡ some (id, [])
unfolding split_path url_path_unescape valid_camera_id unescape_first with_id
split_path-id id h =
    let chars : all_id_chars id ≡ true = ground arith in
    let parts : split_slash (path_escape id) ≡ (id, []) =
      rw (path_escape_id id chars) (split_slash-whole id chars) in
    rw
      (
        split_path,
        parts,
        unescape_first,
        url_path_unescape,
        path_unescape_id id chars,
        no_slash id chars,
        with_id,
      )
      refl

abbrev pub link_path : Text → Text → Text → Text
link_path prefix id action = prefix ++ (path_escape id ++ (b'/' ∷ action))

abbrev pub follow : Request → Text → Text → Text → Request
follow r prefix id action = record r { path = link_path prefix id action }

module _ {S : Type 0} (site : Site S) where
  -- A link of a page to one of the endpoints of a camera whose id is valid is served by this camera, if it runs, and
  -- is answered with status 404 if it does not.
  pub handle_page-link :
      (s : S) (r : Request) (id action : Text)
      → valid_camera_id id ≡ true
      → handle_page site s (follow r (text "/cam/") id action) ≡ (
          if site.is_running s id
          then handle_endpoint site s (follow r (text "/cam/") id action) id action
          else failed 404 (text "unknown camera"))
  unfolding handle_page handle_camera text_eq has_prefix
  handle_page-link s r id action h = rw (handle_camera, split_path-link id action h) refl

module _ {S F : Type 0} (api : Api S F) (fl : FloatOps F)
    (unmarshal : Text → Option (Option (Object F))) where
  -- A request to the path of a camera's action reaches the handlers of this camera.
  pub handle_api-link :
      (s : S) (r : Request) (id action : Text)
      → valid_camera_id id ≡ true
      → handle_api api fl unmarshal s (follow r (text "/api/cameras/") id action)
        ≡ handle_one api fl unmarshal s
            (follow r (text "/api/cameras/") id action)
            id
            action
            (api.find s id)
  unfolding handle_api handle_parts text_eq has_prefix
  handle_api-link s r id action h = rw (handle_parts, split_path-link id action h) refl
