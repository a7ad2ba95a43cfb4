-- ===== src/Config/Existing.antt =====
-- The `existing…` helpers: what a camera that is being set up again keeps, with the defaults of one
-- that is new.
use bk7252n_gate.Config
use bk7252n_gate.Config.{CameraConfig}
use bk7252n_gate.Prelude.{Bool, true, false, Option, none, some, Text, []}
use bk7252n_gate.Prelude.Int.{ℤ, pos}

unfoldable pub existing_name : Option CameraConfig → Text
existing_name none = []
existing_name (some c) = c.name

unfoldable pub existing_local_address : Option CameraConfig → Text
existing_local_address none = []
existing_local_address (some c) = c.local_address

unfoldable pub existing_psk : Option CameraConfig → Text
existing_psk none = []
existing_psk (some c) = c.psk

unfoldable pub existing_username : Option CameraConfig → Text
existing_username none = []
existing_username (some c) = c.username

unfoldable pub existing_password : Option CameraConfig → Text
existing_password none = []
existing_password (some c) = c.password

unfoldable pub existing_width : Option CameraConfig → ℤ
existing_width none = pos 640
existing_width (some c) = Config.width c

unfoldable pub existing_height : Option CameraConfig → ℤ
existing_height none = pos 480
existing_height (some c) = Config.height c

unfoldable pub existing_ack_repeats : Option CameraConfig → ℤ
existing_ack_repeats none = pos 3
existing_ack_repeats (some c) = Config.ack_repeats c

unfoldable pub existing_av_stream : Option CameraConfig → Bool
existing_av_stream none = true
existing_av_stream (some c) = Config.av_stream c

unfoldable pub existing_overlay_name : Option CameraConfig → Bool
existing_overlay_name none = false
existing_overlay_name (some c) = c.overlay_name

unfoldable pub existing_overlay_time : Option CameraConfig → Bool
existing_overlay_time none = false
existing_overlay_time (some c) = c.overlay_time

unfoldable pub existing_overlay_diag : Option CameraConfig → Bool
existing_overlay_diag none = false
existing_overlay_diag (some c) = c.overlay_diag

unfoldable pub existing_overlay_size : Option CameraConfig → ℤ
existing_overlay_size none = pos 1
existing_overlay_size (some c) = Config.overlay_size c

unfoldable pub existing_verbose : Option CameraConfig → Bool
existing_verbose none = false
existing_verbose (some c) = c.verbose
