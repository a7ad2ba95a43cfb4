-- ===== src/Device.antt =====
-- The settings of the camera itself in bkcam-go/main.go: `ApplyDeviceConfig`, `imagePresetControls` and
-- `bitrateKbpsToRateBit`. The other requests for the camera are in the children Requests and Provision.
-- `exchange` is `commandWithResponse` on a state `S`: Runtime/Commands models it, and Examples puts it in.
pub mod Actions
pub mod Fields
pub mod Rules
pub mod Ranges
pub mod Allowed
pub mod Keeps
pub mod Outcomes
pub mod Requests
pub mod Analysis
pub mod Reads
pub mod Provision
pub mod Listed
pub mod Provisioned
use bk7252n_gate.Prelude.{
  ℕ, List, [], ◌∷◌, ◌++◌, Bool, true, false, not, ◌&&◌, ◌||◌, Option, none, some, if◌then◌else◌,
  Text, text, text_eq, is_empty, ◌==◌,
}
use bk7252n_gate.Prelude.Int.{pos}
use bk7252n_gate.Input.{
  Object, FloatOps, Result, ok, err, ApiError, bad_request, input_string, input_bool,
}
use bk7252n_gate.Input.Strings.{trim_space}
use bk7252n_gate.Runtime.{Command, num, txt}
use bk7252n_gate.Runtime.Commands.{CommandResult, no_error, failed}
use Actions.{Entry, Progress, Action, ◌>>=◌, ◌>>◌, pure, check, note, issue}
use Fields.{Args, put_arg, control_fields, alarm_fields, system_fields, read_fields}

abbrev pub command : ℕ → Text → Args → Command
command cmd pro args = record { cmd = cmd; pro = pro; args = args }

abbrev pub stream : Text → ℕ → Command
stream key value = command 111 (text "stream") ((key, num value) ∷ [])

abbrev pub refuse : {A : Type 0} → Text → Result A
refuse why = err (record { status = bad_request; msg = why })

-- What the choice of the preset `auto` asks of a frame's analysis: Mean < 70, Mean > 175, StdDev < 28.
pub record Light : Type 0 where
  pub is_dim : Bool
  pub is_bright : Bool
  pub is_flat : Bool

abbrev pub balanced : Args
balanced = (text "bright", num 4) ∷ (text "contrast", num 2) ∷ (text "anti_flicker", num 1) ∷ []

abbrev pub dark : Args
dark =
    (text "bright", num 5)
    ∷ (text "contrast", num 2)
    ∷ (text "lamp", num 1)
    ∷ (text "anti_flicker", num 1)
    ∷ []

abbrev pub glare : Args
glare =
    (text "bright", num 3)
    ∷ (text "contrast", num 3)
    ∷ (text "lamp", num 0)
    ∷ (text "anti_flicker", num 1)
    ∷ []

-- The preset `auto`; `none` is a frame that cannot be analysed.
unfoldable pub auto_controls : Option Light → Args
auto_controls none = balanced
auto_controls (some light) =
    if light.is_dim
    then dark
    else (if light.is_bright
        then glare
        else (if light.is_flat
            then (text "bright", num 4)
              ∷ (text "contrast", num 3)
              ∷ (text "anti_flicker", num 1)
              ∷ []
            else balanced))

-- `imagePresetControls`, without the data for the answer, which are none exactly if the controls are.
unfoldable pub image_preset_controls : Option Light → Text → Result Args
image_preset_controls light preset =
    if is_empty preset || text_eq preset (text "none")
    then ok []
    else (if text_eq preset (text "balanced")
        then ok balanced
        else (if text_eq preset (text "dark")
            then ok dark
            else (if text_eq preset (text "glare")
                then ok glare
                else (if text_eq preset (text "reset")
                    then ok ((text "resetrb", num 1) ∷ [])
                    else (if text_eq preset (text "auto")
                        then ok (auto_controls light)
                        else refuse (
                            text
                              "imagePreset must be auto, balanced, dark, glare, reset or none"))))))

abbrev pub fine : CommandResult
fine = record { ok = true; error = no_error; timeout = false; result = pos 0 }

-- `for key, value := range controls { devControl[key] = value }`
unfoldable pub put_args : Args → Args → Args
unfolding put_arg
put_args [] args = args
put_args ((key, value) ∷ rest) args = put_args rest (put_arg key value args)

-- `if flag { args[key] = value }`
unfoldable pub put_if : Bool → Text → ℕ → Args → Args
put_if true key value args = put_arg key (num value) args
put_if false key value args = args

module _ {F : Type 0} (fl : FloatOps F) {S : Type 0}
    (exchange : S → Command → S × CommandResult) where
  -- The preset, and the bit rate that it asks for, 0 for none.
  unfoldable pub apply_preset : Text → Action S ℕ
  apply_preset preset =
      if is_empty preset
      then pure 0
      else (if text_eq preset (text "stable320")
          then (do
            issue exchange (text "preset.stable320.video") (stream (text "video") 2)
            pure 12)
          else (if text_eq preset (text "quality640")
              then (do
                issue exchange (text "preset.quality640.video") (stream (text "video") 1)
                pure 26)
              else (if text_eq preset (text "stop")
                  then (do
                    issue exchange (text "preset.stop.video") (stream (text "video") 0)
                    pure 0)
                  else (if text_eq preset (text "custom")
                      then pure 0
                      else check
                          (refuse (text "preset must be stable320, quality640, stop or custom"))))))

  unfoldable pub apply_stream_mode : Text → Action S (Unit {0})
  apply_stream_mode mode =
      if is_empty mode
      then pure tt
      else (if text_eq mode (text "stop")
          then issue exchange (text "stream.video") (stream (text "video") 0)
          else (if text_eq mode (text "vga")
              then issue exchange (text "stream.video") (stream (text "video") 1)
              else (if text_eq mode (text "qvga")
                  then issue exchange (text "stream.video") (stream (text "video") 2)
                  else check (refuse (text "streamMode must be qvga, vga or stop")))))

  unfoldable pub apply_audio_stream : Text → Action S (Unit {0})
  apply_audio_stream mode =
      if is_empty mode
      then pure tt
      else (if text_eq mode (text "off")
          then issue exchange (text "stream.audio") (stream (text "audio") 0)
          else (if text_eq mode (text "on")
              then issue exchange (text "stream.audio") (stream (text "audio") 1)
              else check (refuse (text "audioStream must be on or off"))))

  -- A command that is sent only if it has something to set.
  unfoldable pub issue_filled : Text → Command → Action S (Unit {0})
  issue_filled name c = if is_empty c.args then pure tt else issue exchange name c

  unfoldable pub issue_if : Bool → Text → Command → Action S (Unit {0})
  issue_if b name c = if b then issue exchange name c else pure tt

  -- The image preset: its controls, and an entry for the answer if there are any.
  unfoldable pub apply_image_preset : Option Light → Text → Action S Args
  apply_image_preset light preset = if is_empty preset then pure [] else (do
    controls ← check (image_preset_controls light preset)
    (if is_empty controls then pure tt else note (text "image_preset") fine)
    pure controls)

  module _ (light : Option Light) (input : Object F) where
    -- From the image preset to the command `dev_control`.
    unfoldable pub apply_controls : ℕ → Action S (Unit {0})
    apply_controls preset_bitrate = do
      controls ← apply_image_preset light (input_string fl input (text "imagePreset") [])
      let started =
          put_if (not (preset_bitrate == 0)) (text "rate_bit") preset_bitrate (put_args controls [])
      dev_control ← check (read_fields fl input control_fields started)
      let reset =
          put_if (input_bool fl input (text "resetImage") false) (text "resetrb") 1 dev_control
      issue_filled (text "dev_control") (command 102 (text "dev_control") reset)

    unfoldable pub apply_alarm : Action S (Unit {0})
    apply_alarm = do
      let off = input_bool fl input (text "disableDetectors") false
      let started = put_if off (text "audioDetect") 0 (put_if off (text "motionDetect") 0 [])
      alarm ← check (read_fields fl input alarm_fields started)
      issue_filled (text "set_cyalarm") (command 108 (text "set_cyalarm") alarm)

    unfoldable pub apply_system : Action S (Unit {0})
    apply_system = do
      system ← check (read_fields fl input system_fields [])
      issue_filled (text "set_sysparms") (command 9100 (text "set_sysparms") system)

    unfoldable pub apply_streams : Action S ℕ
    apply_streams = do
      bitrate ← apply_preset (input_string fl input (text "preset") [])
      apply_stream_mode (input_string fl input (text "streamMode") [])
      apply_audio_stream (input_string fl input (text "audioStream") [])
      issue_if (input_bool fl input (text "enableAudioNow") false) (text "stream.audio")
          (stream (text "audio") 1)
      pure bitrate

    -- `len(commands) == 0`
    unfoldable pub require_commands : Action S (Unit {0})
    require_commands p =
        (if is_empty p.commands then refuse (text "no camera settings selected") else ok tt, p)

    -- What comes after the command `dev_control`.
    unfoldable pub apply_rest : Action S (Unit {0})
    apply_rest = do
      apply_alarm
      apply_system
      issue_if (input_bool fl input (text "disablePushUpload") false) (text "set_cypush") (
          command 9105 (text "set_cypush")
            ((text "isPushPic", num 0) ∷ (text "isPushVideo", num 0) ∷ []))
      require_commands

    unfoldable pub apply_device_config : Action S (Unit {0})
    apply_device_config = do bitrate ← apply_streams; apply_controls bitrate; apply_rest
