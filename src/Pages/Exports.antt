-- ===== src/Pages/Exports.antt =====
-- `renderFrigate` and `renderGo2RTC` of bkcam-go/main.go.
use bk7252n_gate.Prelude.{List, [], ◌∷◌, ◌++◌, if◌then◌else◌, Text, text}
use bk7252n_gate.Prelude.Int.{ℤ}
use bk7252n_gate.Config
use bk7252n_gate.Runtime.{CameraRuntime}
use bk7252n_gate.Pages.{sprintf, join, html, yaml_quote}

unfoldable pub video_source : Text → Text → Text
video_source base id =
    yaml_quote (sprintf (text "ffmpeg:%s/cam/%s/video.mjpg#video=h264") (base ∷ id ∷ []))

unfoldable pub audio_source : Text → Text → Text
audio_source base id =
    yaml_quote (sprintf (text "ffmpeg:%s/cam/%s/audio.wav#audio=aac#audio=opus") (base ∷ id ∷ []))

-- The cameras that are exported.
unfoldable pub enabled_runtimes : List CameraRuntime → List CameraRuntime
enabled_runtimes [] = []
enabled_runtimes (rt ∷ rts) =
    let rest = enabled_runtimes rts in if Config.enabled rt.cfg then rt ∷ rest else rest

unfoldable pub go2rtc_streams : Text → List CameraRuntime → List Text
go2rtc_streams base [] = []
go2rtc_streams base (rt ∷ rts) =
    sprintf (html ("  %s:" ∷ "    - %s" ∷ "    - %s" ∷ []))
      (rt.cfg.id ∷ video_source base rt.cfg.id ∷ audio_source base rt.cfg.id ∷ [])
    ∷ go2rtc_streams base rts

-- `sorted` is what `sortedRuntimes` gives.
unfoldable pub render_go2rtc : Text → List CameraRuntime → Text
render_go2rtc base sorted =
    html ("streams:" ∷ "" ∷ [])
    ++ (join (go2rtc_streams base (enabled_runtimes sorted)) (10 ∷ []) ++ (10 ∷ []))

unfoldable pub frigate_streams : Text → List CameraRuntime → List Text
frigate_streams base [] = []
frigate_streams base (rt ∷ rts) =
    sprintf (html ("    %s:" ∷ "      - %s" ∷ "      - %s" ∷ []))
      (rt.cfg.id ∷ video_source base rt.cfg.id ∷ audio_source base rt.cfg.id ∷ [])
    ∷ frigate_streams base rts

-- `print_int` is the verb `%d`.
unfoldable pub frigate_cameras : (ℤ → Text) → List CameraRuntime → List Text
frigate_cameras print_int [] = []
frigate_cameras print_int (rt ∷ rts) =
    let source = sprintf (text "rtsp://127.0.0.1:8554/%s?video=h264&audio=aac") (rt.cfg.id ∷ []) in
    sprintf
      (html (
        "  %s:" ∷ "    ffmpeg:" ∷ "      inputs:" ∷ "        - path: %s"
        ∷ "          input_args: preset-rtsp-restream" ∷ "          roles:" ∷ "            - detect"
        ∷ "            - record" ∷ "    detect:" ∷ "      width: %d" ∷ "      height: %d" ∷ []))
      (rt.cfg.id
        ∷ yaml_quote source
        ∷ print_int (Config.width rt.cfg)
        ∷ print_int (Config.height rt.cfg)
        ∷ [])
    ∷ frigate_cameras print_int rts

unfoldable pub render_frigate : (ℤ → Text) → Text → List CameraRuntime → Text
render_frigate print_int base sorted =
    let shown = enabled_runtimes sorted in
    html (
      "ffmpeg:" ∷ "  output_args:" ∷ "    record: preset-record-generic-audio-aac" ∷ "" ∷ "go2rtc:"
      ∷ "  streams:" ∷ "" ∷ [])
    ++ (join (frigate_streams base shown) (10 ∷ [])
        ++ (html ("" ∷ "" ∷ "cameras:" ∷ "" ∷ [])
            ++ (join (frigate_cameras print_int shown) (10 ∷ []) ++ (10 ∷ []))))
