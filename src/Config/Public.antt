-- ===== src/Config/Public.antt =====
-- `publicConfig` of bkcam-go/main.go: what the interface shows of a camera's configuration.
use bk7252n_gate.Prelude.{◌≡◌, refl, [], ◌∷◌, not, Text, text, is_empty}
use bk7252n_gate.Prelude.Int.{pos}
use bk7252n_gate.Config
use bk7252n_gate.Config.{CameraConfig}
use bk7252n_gate.Input.{Object, str, int, bool}

unfoldable pub public_config : {F : Type 0} → CameraConfig → Object F
public_config cam =
    (text "id", str cam.id)
    ∷ (text "name", str (Config.name cam))
    ∷ (text "ip", str cam.ip)
    ∷ (text "discovery", str cam.discovery)
    ∷ (text "localAddress", str cam.local_address)
    ∷ (text "psk", str (Config.psk cam))
    ∷ (text "username", str (Config.username cam))
    ∷ (text "hasPassword", bool (not (is_empty cam.password)))
    ∷ (text "width", int (Config.width cam))
    ∷ (text "height", int (Config.height cam))
    ∷ (text "videoMode", int (pos (Config.video_mode cam)))
    ∷ (text "enabled", bool (Config.enabled cam))
    ∷ (text "verbose", bool cam.verbose)
    ∷ (text "avStream", bool (Config.av_stream cam))
    ∷ (text "overlayName", bool cam.overlay_name)
    ∷ (text "overlayTime", bool cam.overlay_time)
    ∷ (text "overlayDiag", bool cam.overlay_diag)
    ∷ (text "overlaySize", int (Config.overlay_size cam))
    ∷ (text "ackRepeats", int (Config.ack_repeats cam))
    ∷ []

-- What is shown of two configurations that differ in the password only is the same, if both have one or neither
-- has: the password itself is never shown.
public_config_hides :
    {F : Type 0} (cam : CameraConfig) (password : Text)
    → is_empty password ≡ is_empty cam.password
    → public_config {F = F} (record cam { password = password }) ≡ public_config cam
unfolding public_config Config.name Config.psk Config.username Config.width Config.height
    Config.video_mode Config.enabled Config.av_stream Config.overlay_size Config.ack_repeats
public_config_hides cam password h = rw h refl
