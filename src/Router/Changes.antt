-- ===== src/Router/Changes.antt =====
-- Which requests to the API can change the program's state.
use bk7252n_gate.Prelude.{
  ◌≡◌, refl, ◌⊎◌, inl, inr, Bool, true, ◌||◌, Option, none, some, drop, length, Text, text, text_eq,
  arith,
}
use bk7252n_gate.Input.{Object, FloatOps, Result-cases, ok}
use bk7252n_gate.Router.{
  Reply, Api, Found, unknown, idle, camera, read_map, with_body, handle_update, handle_action,
  handle_found, handle_one, handle_parts, handle_cameras, handle_api,
}
use bk7252n_gate.Router.Body.{Request, read_json_body}
use bk7252n_gate.Router.Paths.{split_path}

module _ {S F : Type 0} (api : Api S F) (fl : FloatOps F)
    (unmarshal : Text → Option (Option (Object F))) (s : S) (r : Request) where
  -- A body that was read: within the limit, and blank or well-formed JSON.
  abbrev pub HasBody : Type 0
  HasBody = (body : Option (Object F)) × (read_json_body unmarshal r.body ≡ ok body)

  abbrev pub is_write : Bool
  is_write =
      text_eq r.method (text "POST")
      || (text_eq r.method (text "PATCH") || text_eq r.method (text "PUT"))

  -- The request removes a camera, or it is a write with a body.
  abbrev pub MayChange : Type 0
  MayChange = (text_eq r.method (text "DELETE") ≡ true) ⊎ ((is_write ≡ true) × HasBody)

  with_body-guarded :
      (handler : Option (Object F) → S × Reply)
      → ((with_body api fl unmarshal s r handler).0 ≡ s) ⊎ HasBody
  unfolding with_body
  with_body-guarded handler = elim (Result-cases (read_json_body unmarshal r.body)) [
    | inl (e, h) ↦ inl (rw (with_body, h) refl)
    | inr (body, h) ↦ inr (body, h)
  ]

  -- What a GET leaves of the state, if the statuses that it answers with leave that.
  module _ (IsSeen : S → Type 0) (all : IsSeen (api.all_statuses s))
      (configs : IsSeen (api.configs_with_status s))
      (one : (id : Text) → IsSeen (api.status s id)) where
    abbrev pub IsLeft : S → Type 0
    IsLeft end = (end ≡ s) ⊎ (((text_eq r.method (text "GET") ≡ true) × IsSeen end) ⊎ MayChange)

    handle_found-IsLeft :
        (id action : Text) → IsLeft (handle_found api fl unmarshal s r id action).0
    unfolding handle_found
    handle_found-IsLeft id action = ground (
      arith,
      one id,
      with_body-guarded (handle_update api fl unmarshal s id),
      with_body-guarded (λ body. handle_action api fl unmarshal s id action (read_map body)),
    )

    handle_parts-IsLeft :
        (parts : Option (Text × Text)) → IsLeft (handle_parts api fl unmarshal s r parts).0
    unfolding handle_parts handle_one
    handle_parts-IsLeft none = inl refl
    handle_parts-IsLeft (some (id, action)) = go (api.find s id)
      where
        go : (found : Found) → IsLeft (handle_one api fl unmarshal s r id action found).0
        go unknown = inl refl
        go idle = inl refl
        go (camera _) = handle_found-IsLeft id action

    handle_cameras-IsLeft : IsLeft (handle_cameras api fl unmarshal s r).0
    unfolding handle_cameras
    handle_cameras-IsLeft =
        ground (arith, configs, with_body-guarded (λ body. api.create s (read_map body)))

    -- A request leaves the state as it is, or is a GET and does what the statuses do, or may change it.
    pub handle_api-IsLeft : IsLeft (handle_api api fl unmarshal s r).0
    unfolding handle_api
    handle_api-IsLeft = ground (
      arith,
      all,
      handle_cameras-IsLeft,
      with_body-guarded (λ body. api.provision s (read_map body)),
      handle_parts-IsLeft (split_path (drop (length (text "/api/cameras/")) r.path)),
    )
