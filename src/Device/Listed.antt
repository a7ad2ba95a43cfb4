-- ===== src/Device/Listed.antt =====
-- A list of cameras with one put in, and the id of a provisioning request.
use bk7252n_gate.Prelude.{
  ◌≡◌, refl, sym, ◌∙◌, ap, inl, inr, List, [], Bool, true, false, not, some, Option-cases,
  if◌then◌else◌, Text, text, text_eq, is_empty, arith,
}
use bk7252n_gate.Config.{CameraConfig}
use bk7252n_gate.Input.{
  Object, FloatOps, Result, ok, err, ◌>>◌, require, bad_request, valid_camera_id, input_string,
  input_password,
}
use bk7252n_gate.App.{camera_index}
use bk7252n_gate.App.Cameras.{IsUnique, IsUnique-append, index_from-none}
use bk7252n_gate.App.Listing.{find_camera, find_camera-append, find_camera-put_at, IsUnique-put_at}
use bk7252n_gate.Device.Provision.{World, Provisioning, read_provisioning, with_camera}

-- `cams'` is `cams` with a camera of this id put in.
pub record IsListed (id : Text) (cams cams' : List CameraConfig) : Type 0 where
  pub camera : CameraConfig
  pub named : camera.id ≡ id
  pub lists :
      (k : Text) → find_camera k cams' ≡ (if text_eq id k then some camera else find_camera k cams)
  pub unique : IsUnique cams'

-- A success lists the camera, and a failure changes nothing.
abbrev pub IsAllOrNothing : Text → List CameraConfig → World × Result (Unit {0}) → Type 0
IsAllOrNothing id cams r = elim r.1 [
  | ok _ ↦ IsListed id cams r.0.0.cameras
  | err e ↦ r.0.0.cameras ≡ cams
]

pub with_camera-IsListed :
    (id : Text) (cam : CameraConfig) (cams : List CameraConfig)
    → cam.id ≡ id
    → IsUnique cams
    → IsListed id cams (with_camera id cam cams)
unfolding with_camera camera_index
with_camera-IsListed id cam cams e u = elim (Option-cases (camera_index id cams)) [
  | inl free ↦
      let away = index_from-none 0 id cams free in
      rw (free, with_camera)
        (record {
          camera = cam;
          named = e;
          lists = λ k. find_camera-append cams cam k (rw (sym e) at away) ∙ rw e refl;
          unique = IsUnique-append cams cam (rw (sym e) at away) u;
        })
  | inr (i, found) ↦
      let at : camera_index cam.id cams ≡ some i = rw e found in
      rw (found, with_camera)
        (record {
          camera = cam;
          named = e;
          lists = λ k. find_camera-put_at 0 i cam cams k at (omega arith) ∙ rw e refl;
          unique = IsUnique-put_at 0 i cam cams at (omega arith) u;
        })
]

-- Four checks in a row that pass.
four_checks :
    {A : Type 0} (a b c d : Bool) (s t u v : Text) {x y : A}
    → (require a bad_request s
        >> (require b bad_request t
            >> (require c bad_request u >> (require d bad_request v >> ok x))))
      ≡ ok y
    → (b ≡ true) × (x ≡ y)
four_checks false b c d s t u v h = cc
four_checks true false c d s t u v h = cc
four_checks true true false d s t u v h = cc
four_checks true true true false s t u v h = cc
four_checks true true true true s t u v h = (refl, cc)

-- The id of an accepted request.
pub read_provisioning-id :
    {F : Type 0} (fl : FloatOps F) (body : Object F) (p : Provisioning)
    → read_provisioning fl body ≡ ok p
    → (p.id ≡ input_string fl body (text "id") []) × (valid_camera_id p.id ≡ true)
unfolding read_provisioning
read_provisioning-id fl body p h =
    let id = input_string fl body (text "id") [] in
    let ssid = input_string fl body (text "ssid") [] in
    let wifi_password = input_password fl body (text "wifiPassword") [] in
    let (v, e) =
      four_checks (not (is_empty id)) (valid_camera_id id) (not (is_empty ssid))
        (not (is_empty wifi_password)) (text "camera id is required")
        (text "camera id must match /^[A-Za-z0-9_-]+$/") (text "target SSID is required")
        (text "target Wi-Fi password is required") h in
    let same : id ≡ p.id = ap (λ (q : Provisioning). q.id) e in (sym same, rw same at v)
