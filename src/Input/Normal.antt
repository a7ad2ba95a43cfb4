-- ===== src/Input/Normal.antt =====
-- What `normalizeCamera` accepts, and what it returns.
use bk7252n_gate.Config
use bk7252n_gate.Config.{CameraConfig}
use mathlib.Core.Path.{subst}
use bk7252n_gate.Prelude.{
  ◌≡◌, refl, ap, ◌↔◌, [], ◌∷◌, Bool, true, false, not, ◌&&◌, Option, some, Text, text, is_empty,
  arith,
}
use bk7252n_gate.Prelude.Int.{ℤ, pos, ◌≤ℤ◌}
use bk7252n_gate.Input.{
  Object, FloatOps, ok, ◌>>◌, require, bad_request, valid_camera_id, input_string, input_int,
}
use bk7252n_gate.Input.Camera.{clamp, base_camera, merge_camera, normalize_camera}

-- A camera that may be saved.
pub record IsNormal (cam : CameraConfig) : Type 0 where
  pub valid_id : valid_camera_id cam.id ≡ true
  pub switched : (b : Bool) × (cam.enabled ≡ some b)
  pub streaming : (b : Bool) × (cam.av_stream ≡ some b)
  pub acks : (pos 1 ≤ℤ cam.ack_repeats) × (cam.ack_repeats ≤ℤ pos 9)
  pub overlay : (pos 1 ≤ℤ cam.overlay_size) × (cam.overlay_size ≤ℤ pos 3)
  pub reachable : (is_empty cam.ip && is_empty cam.discovery) ≡ false

pub valid_camera_id-filled : (id : Text) → valid_camera_id id ≡ true → is_empty id ≡ false
unfolding valid_camera_id is_empty
valid_camera_id-filled [] h = cc
valid_camera_id-filled (x ∷ id) h = refl

clamp_bounds : (lo hi x : ℤ) → lo ≤ℤ hi → (lo ≤ℤ clamp lo hi x) × (clamp lo hi x ≤ℤ hi)
unfolding clamp
clamp_bounds lo hi x h = ground arith

not-true : (b : Bool) → not b ≡ true → b ≡ false
not-true false h = refl
not-true true h = cc

-- Three checks in a row that pass.
checks :
    {A : Type 0} (a b c : Bool) (s t u : Text) {x y : A}
    → (require a bad_request s >> (require b bad_request t >> (require c bad_request u >> ok x)))
      ≡ ok y
    → (a ≡ true) × (b ≡ true) × (c ≡ true) × (x ≡ y)
checks false b c s t u h = cc
checks true false c s t u h = cc
checks true true false s t u h = cc
checks true true true s t u h = (refl, refl, refl, cc)

module _ {F : Type 0} (fl : FloatOps F) (input : Object F) (existing : Option CameraConfig) where
  abbrev request_id : Text
  request_id = input_string fl input (text "id") (base_camera existing).id

  abbrev merged : CameraConfig
  merged = merge_camera fl input (base_camera existing) request_id

  -- Normalising gives a camera exactly when the id of the request, or else of the existing
  -- camera, is one or more letters, digits, `_` and `-`, the merged camera has an address or a
  -- discovery address, and it is the merged camera.
  pub normalize_camera-ok_iff :
      (cam : CameraConfig)
      → (normalize_camera fl input existing ≡ ok cam) ↔ (
          (valid_camera_id request_id ≡ true)
          × ((is_empty merged.ip && is_empty merged.discovery) ≡ false)
          × (merged ≡ cam))
  unfolding normalize_camera
  normalize_camera-ok_iff cam = (λ h. accepted h, λ h. accepting h)
    where
      filled : valid_camera_id request_id ≡ true → is_empty request_id ≡ false
      filled v = ground (arith, valid_camera_id-filled request_id)

      accepting :
          (valid_camera_id request_id ≡ true)
            × ((is_empty merged.ip && is_empty merged.discovery) ≡ false)
            × (merged ≡ cam)
          → normalize_camera fl input existing ≡ ok cam
      accepting (v, r, e) = rw (filled v) (rw v (rw r (ap ok e)))

      accepted :
          normalize_camera fl input existing ≡ ok cam
          → (valid_camera_id request_id ≡ true)
            × ((is_empty merged.ip && is_empty merged.discovery) ≡ false)
            × (merged ≡ cam)
      accepted h =
          let (a, b, c, e) =
            checks (not (is_empty request_id)) (valid_camera_id request_id)
              (not (is_empty merged.ip && is_empty merged.discovery)) (text "camera id is required")
              (text "camera id must match /^[A-Za-z0-9_-]+$/")
              (text "camera ip or discovery address is required") h in
          (b, not-true (is_empty merged.ip && is_empty merged.discovery) c, e)

  merged-IsNormal :
      valid_camera_id request_id ≡ true
      → (is_empty merged.ip && is_empty merged.discovery) ≡ false
      → IsNormal merged
  unfolding merge_camera
  merged-IsNormal v r = record {
    valid_id = v;
    switched = (_, refl);
    streaming = (_, refl);
    acks =
        clamp_bounds (pos 1) (pos 9)
          (input_int fl input (text "ackRepeats") (Config.ack_repeats (base_camera existing)))
          (omega arith);
    overlay =
        clamp_bounds (pos 1) (pos 3)
          (input_int fl input (text "overlaySize") (Config.overlay_size (base_camera existing)))
          (omega arith);
    reachable = r;
  }

  -- A camera that is returned has a valid id, both switches set, 1 to 9 acknowledgements, an overlay
  -- scale of 1 to 3 and an address or a discovery address, whatever the request held.
  pub normalize_camera-IsNormal :
      (cam : CameraConfig) → normalize_camera fl input existing ≡ ok cam → IsNormal cam
  normalize_camera-IsNormal cam h =
      let (v, r, e) = (normalize_camera-ok_iff cam).0 h in subst IsNormal e (merged-IsNormal v r)
