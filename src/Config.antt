-- ===== src/Config.antt =====
-- `CameraConfig` of bkcam-go/main.go with its accessors, `expectedAddress`, `isUnicastIPv4` and the
-- `existing…` helpers. A `*bool` is an `Option Bool`, an `int` an integer.
pub mod Existing
pub mod Public
pub mod Shown
pub mod Bounds
use bk7252n_gate.Prelude.{
  ℕ, ◌+◌, Bool, true, false, ◌&&◌, ◌||◌, not, Option, none, some, ltb, leb, ◌==◌, if◌then◌else◌,
  Text, text, text_eq, is_empty, [],
}
use bk7252n_gate.Prelude.Int.{ℤ, pos, negsuc, ltb_ℤ, pos_part, neg_part}

pub record CameraConfig : Type 0 where
  pub id : Text
  pub name : Text
  pub ip : Text
  pub discovery : Text
  pub local_address : Text
  pub psk : Text
  pub username : Text
  pub password : Text
  pub width : ℤ
  pub height : ℤ
  pub enabled : Option Bool
  pub verbose : Bool
  pub ack_repeats : ℤ
  pub av_stream : Option Bool
  pub overlay_name : Bool
  pub overlay_time : Bool
  pub overlay_diag : Bool
  pub overlay_size : ℤ

-- `CameraConfig{}`
abbrev pub blank : CameraConfig
blank = record {
  id = [];
  name = [];
  ip = [];
  discovery = [];
  local_address = [];
  psk = [];
  username = [];
  password = [];
  width = pos 0;
  height = pos 0;
  enabled = none;
  verbose = false;
  ack_repeats = pos 0;
  av_stream = none;
  overlay_name = false;
  overlay_time = false;
  overlay_diag = false;
  overlay_size = pos 0;
}

-- An unset switch is on.
unfoldable pub flag_or_true : Option Bool → Bool
flag_or_true none = true
flag_or_true (some b) = b

unfoldable pub enabled : CameraConfig → Bool
unfolding flag_or_true
enabled c = flag_or_true c.enabled

unfoldable pub av_stream : CameraConfig → Bool
unfolding flag_or_true
av_stream c = flag_or_true c.av_stream

unfoldable pub name : CameraConfig → Text
name c = if is_empty c.name then c.id else c.name

unfoldable pub psk : CameraConfig → Text
psk c = if is_empty c.psk then text "SHIX" else c.psk

unfoldable pub username : CameraConfig → Text
username c = if is_empty c.username then text "admin" else c.username

unfoldable pub password : CameraConfig → Text
password c = if is_empty c.password then text "6666" else c.password

unfoldable pub width : CameraConfig → ℤ
width c = if ltb_ℤ (pos 0) c.width then c.width else pos 640

unfoldable pub height : CameraConfig → ℤ
height c = if ltb_ℤ (pos 0) c.height then c.height else pos 480

unfoldable pub video_mode : CameraConfig → ℕ
unfolding width height
video_mode c = if not (ltb_ℤ (pos 320) (width c)) || not (ltb_ℤ (pos 240) (height c)) then 2 else 1

unfoldable pub overlay_size : CameraConfig → ℤ
overlay_size c =
    if ltb_ℤ c.overlay_size (pos 1)
    then pos 1
    else (if ltb_ℤ (pos 3) c.overlay_size then pos 3 else c.overlay_size)

unfoldable pub ack_repeats : CameraConfig → ℤ
ack_repeats c =
    if ltb_ℤ c.ack_repeats (pos 1)
    then pos 3
    else (if ltb_ℤ (pos 9) c.ack_repeats then pos 9 else c.ack_repeats)

unfoldable pub discovery : CameraConfig → Text
discovery c =
    if not (is_empty c.discovery)
    then c.discovery
    else (if not (is_empty c.ip) then c.ip else text "255.255.255.255")

-- The four bytes of an IPv4 address.
pub record Ip4 : Type 0 where
  pub b0 : ℕ
  pub b1 : ℕ
  pub b2 : ℕ
  pub b3 : ℕ

-- `parse_ip4` is `net.ParseIP(value).To4()`, `none` for its nil.
module _ (parse_ip4 : Text → Option Ip4) where
  unfoldable pub is_unicast_ipv4 : Text → Bool
  is_unicast_ipv4 value = elim (parse_ip4 value) [
    | none ↦ false
    | some v4 ↦
        not (v4.b0 == 0)
        && (ltb v4.b0 224
            && (not (v4.b3 == 0)
                && (not (v4.b3 == 255)
                    && not (
                        (v4.b0 == 255) && ((v4.b1 == 255) && ((v4.b2 == 255) && (v4.b3 == 255)))))))
  ]

  unfoldable pub expected_address : CameraConfig → Text
  expected_address c =
      if is_unicast_ipv4 c.ip
      then c.ip
      else (if is_unicast_ipv4 c.discovery then c.discovery else [])
