-- ===== src/Device/Keeps.antt =====
-- What each command keeps, a whole request keeps.
use bk7252n_gate.Prelude.{
  ℕ, ◌≡◌, refl, ◌⊎◌, inl, inr, [], ◌∷◌, Bool, true, false, not, Option, if◌then◌else◌, Text, text,
  text_eq, is_empty, All, arith, ◌==◌,
}
use bk7252n_gate.Input.{err-ne-ok, Object, FloatOps, input_string, input_bool}
use bk7252n_gate.Runtime.{Command, num}
use bk7252n_gate.Runtime.Commands.{CommandResult}
use bk7252n_gate.Device.Actions.{Progress, ◌>>◌, pure, check, note, issue}
use bk7252n_gate.Device.Fields.{Args, control_fields, alarm_fields, system_fields, read_fields}
use bk7252n_gate.Device.Rules.{Ensures, bind-Ensures, pure-Ensures, check-Ensures, if-Ensures}
use bk7252n_gate.Device.Allowed.{
  stream_video-All, stream_audio-All, reset-All, image_preset_controls-All, put_args-All,
  put_if-All, off-All, push-All, rate_12, rate_26,
}
use bk7252n_gate.Device.Ranges.{
  IsAllowed, read_fields-All, control_fields-All, alarm_fields-All, system_fields-All,
}
use bk7252n_gate.Device.{
  command, stream, Light, fine, image_preset_controls, put_args, put_if, apply_preset,
  apply_stream_mode, apply_audio_stream, issue_filled, issue_if, apply_image_preset, apply_controls,
  apply_alarm, apply_system, apply_streams, require_commands, apply_rest, apply_device_config,
}

abbrev pub Any : {A : Type 0} → A → Type 0
Any _ = Unit {0}

-- A bit rate that is set only if it is not 0.
abbrev IsBitrate : ℕ → Type 0
IsBitrate n = (n ≡ 0) ⊎ IsAllowed (text "rate_bit", num n)

module _ {F : Type 0} (fl : FloatOps F) {S : Type 0} (exchange : S → Command → S × CommandResult)
    (Inv : Progress S → Type 0)
    (issue_keeps : (name : Text) (c : Command) (p : Progress S)
      → All IsAllowed c.args
      → Inv p
      → Inv (issue exchange name c p).1)
    (note_keeps : (name : Text) (p : Progress S) → Inv p → Inv (note name fine p).1) where
  issue-Ensures :
      (name : Text) (c : Command) → All IsAllowed c.args → Ensures Inv (issue exchange name c) Any
  issue-Ensures name c safe p i = (issue_keeps name c p safe i, λ a h. tt)

  issue_then-Ensures :
      (name : Text) (c : Command) (n : ℕ)
      → All IsAllowed c.args
      → IsBitrate n
      → Ensures Inv (issue exchange name c >> pure n) IsBitrate
  issue_then-Ensures name c n safe h =
      bind-Ensures Inv (issue exchange name c) (λ _. pure n) Any IsBitrate
        (issue-Ensures name c safe) (λ a _. pure-Ensures Inv n IsBitrate h)

  apply_preset-Ensures : (preset : Text) → Ensures Inv (apply_preset fl exchange preset) IsBitrate
  unfolding apply_preset
  apply_preset-Ensures preset =
      if-Ensures Inv (is_empty preset) _ _ IsBitrate (pure-Ensures Inv 0 IsBitrate (inl refl)) (
        if-Ensures Inv (text_eq preset (text "stable320")) _ _ IsBitrate
          (issue_then-Ensures _ _ 12 (stream_video-All 2 (omega arith)) (inr rate_12))
          (if-Ensures Inv (text_eq preset (text "quality640")) _ _ IsBitrate
            (issue_then-Ensures _ _ 26 (stream_video-All 1 (omega arith)) (inr rate_26))
            (if-Ensures Inv (text_eq preset (text "stop")) _ _ IsBitrate
              (issue_then-Ensures _ _ 0 (stream_video-All 0 (omega arith)) (inl refl))
              (if-Ensures Inv (text_eq preset (text "custom")) _ _ IsBitrate
                (pure-Ensures Inv 0 IsBitrate (inl refl))
                (check-Ensures Inv _ IsBitrate (λ a h. absurd (err-ne-ok h)))))))

  apply_stream_mode-Ensures : (mode : Text) → Ensures Inv (apply_stream_mode fl exchange mode) Any
  unfolding apply_stream_mode
  apply_stream_mode-Ensures mode =
      if-Ensures Inv (is_empty mode) _ _ Any (pure-Ensures Inv tt Any tt) (
        if-Ensures Inv (text_eq mode (text "stop")) _ _ Any
          (issue-Ensures _ _ (stream_video-All 0 (omega arith)))
          (if-Ensures Inv (text_eq mode (text "vga")) _ _ Any
            (issue-Ensures _ _ (stream_video-All 1 (omega arith)))
            (if-Ensures Inv (text_eq mode (text "qvga")) _ _ Any
              (issue-Ensures _ _ (stream_video-All 2 (omega arith)))
              (check-Ensures Inv _ Any (λ a h. tt)))))

  apply_audio_stream-Ensures : (mode : Text) → Ensures Inv (apply_audio_stream fl exchange mode) Any
  unfolding apply_audio_stream
  apply_audio_stream-Ensures mode =
      if-Ensures Inv (is_empty mode) _ _ Any (pure-Ensures Inv tt Any tt) (
        if-Ensures Inv (text_eq mode (text "off")) _ _ Any
          (issue-Ensures _ _ (stream_audio-All 0 (omega arith)))
          (if-Ensures Inv (text_eq mode (text "on")) _ _ Any
            (issue-Ensures _ _ (stream_audio-All 1 (omega arith)))
            (check-Ensures Inv _ Any (λ a h. tt))))

  issue_filled-Ensures :
      (name : Text) (c : Command)
      → All IsAllowed c.args
      → Ensures Inv (issue_filled fl exchange name c) Any
  unfolding issue_filled
  issue_filled-Ensures name c safe =
      if-Ensures Inv (is_empty c.args) _ _ Any (pure-Ensures Inv tt Any tt)
        (issue-Ensures name c safe)

  issue_if-Ensures :
      (b : Bool) (name : Text) (c : Command)
      → All IsAllowed c.args
      → Ensures Inv (issue_if fl exchange b name c) Any
  unfolding issue_if
  issue_if-Ensures b name c safe =
      if-Ensures Inv b _ _ Any (issue-Ensures name c safe) (pure-Ensures Inv tt Any tt)

  note_filled-Ensures :
      (controls : Args)
      → Ensures Inv (if is_empty controls then pure tt else note (text "image_preset") fine) Any
  note_filled-Ensures controls =
      if-Ensures Inv (is_empty controls) _ _ Any (pure-Ensures Inv tt Any tt)
        (λ p i. (note_keeps (text "image_preset") p i, λ a h. tt))

  apply_image_preset-Ensures :
      (light : Option Light) (preset : Text)
      → Ensures Inv (apply_image_preset fl exchange light preset) (All IsAllowed)
  unfolding apply_image_preset
  apply_image_preset-Ensures light preset =
      if-Ensures Inv (is_empty preset) _ _ (All IsAllowed) (pure-Ensures Inv [] (All IsAllowed) tt)
        (bind-Ensures Inv (check (image_preset_controls light preset)) _ (All IsAllowed)
          (All IsAllowed)
          (check-Ensures Inv _ (All IsAllowed) (image_preset_controls-All light preset))
          (λ controls safe.
            bind-Ensures Inv _ (λ _. pure controls) Any (All IsAllowed)
              (note_filled-Ensures controls)
              (λ a _. pure-Ensures Inv controls (All IsAllowed) safe)))

  module _ (light : Option Light) (input : Object F) where
    apply_controls-Ensures :
        (bitrate : ℕ)
        → IsBitrate bitrate
        → Ensures Inv (apply_controls fl exchange light input bitrate) Any
    unfolding apply_controls
    apply_controls-Ensures bitrate h =
        bind-Ensures Inv
          (apply_image_preset fl exchange light (input_string fl input (text "imagePreset") [])) _
          (All IsAllowed) Any
          (apply_image_preset-Ensures light (input_string fl input (text "imagePreset") []))
          (λ controls safe.
            bind-Ensures Inv
              (check (
                read_fields fl input control_fields
                  (put_if (not (bitrate == 0)) (text "rate_bit") bitrate (put_args controls []))))
              (λ out. issue_filled fl exchange (text "dev_control") (
                command 102 (text "dev_control")
                  (put_if (input_bool fl input (text "resetImage") false) (text "resetrb") 1 out)))
              (All IsAllowed) Any
              (check-Ensures Inv _ (All IsAllowed) (λ out returned.
                read_fields-All fl input control_fields
                  (put_if (not (bitrate == 0)) (text "rate_bit") bitrate (put_args controls [])) out
                  control_fields-All
                  (put_if-All (not (bitrate == 0)) (text "rate_bit") bitrate (put_args controls [])
                    (rate h) (put_args-All controls [] safe tt))
                  returned))
              (λ out safe'.
                issue_filled-Ensures (text "dev_control")
                  (command 102 (text "dev_control")
                    (put_if (input_bool fl input (text "resetImage") false) (text "resetrb") 1 out))
                  (put_if-All (input_bool fl input (text "resetImage") false) (text "resetrb") 1 out
                    (λ _. reset-All.0) safe')))
      where
        rate :
            IsBitrate bitrate → not (bitrate == 0) ≡ true → IsAllowed (text "rate_bit", num bitrate)
        rate (inl e) k = absurd (ground arith)
        rate (inr a) k = a

    apply_alarm-Ensures : Ensures Inv (apply_alarm fl exchange light input) Any
    unfolding apply_alarm
    apply_alarm-Ensures =
        let off = input_bool fl input (text "disableDetectors") false in
        let started = put_if off (text "audioDetect") 0 (put_if off (text "motionDetect") 0 []) in
        bind-Ensures Inv (check (read_fields fl input alarm_fields started))
          (λ out.
            issue_filled fl exchange (text "set_cyalarm") (command 108 (text "set_cyalarm") out))
          (All IsAllowed) Any
          (check-Ensures Inv _ (All IsAllowed) (λ out returned.
            read_fields-All fl input alarm_fields started out alarm_fields-All
              (put_if-All off (text "audioDetect") 0 _ (λ _. off-All.0)
                (put_if-All off (text "motionDetect") 0 [] (λ _. off-All.1.0) tt))
              returned))
          (λ out safe. issue_filled-Ensures (text "set_cyalarm") _ safe)

    apply_system-Ensures : Ensures Inv (apply_system fl exchange light input) Any
    unfolding apply_system
    apply_system-Ensures =
        bind-Ensures Inv (check (read_fields fl input system_fields []))
          (λ out.
            issue_filled fl exchange (text "set_sysparms") (command 9100 (text "set_sysparms") out))
          (All IsAllowed) Any
          (check-Ensures Inv _ (All IsAllowed) (λ out returned.
            read_fields-All fl input system_fields [] out system_fields-All tt returned))
          (λ out safe. issue_filled-Ensures (text "set_sysparms") _ safe)

    apply_streams-Ensures : Ensures Inv (apply_streams fl exchange light input) IsBitrate
    unfolding apply_streams
    apply_streams-Ensures =
        bind-Ensures Inv (apply_preset fl exchange (input_string fl input (text "preset") [])) _
          IsBitrate IsBitrate (apply_preset-Ensures (input_string fl input (text "preset") []))
          (λ bitrate h.
            bind-Ensures Inv
              (apply_stream_mode fl exchange (input_string fl input (text "streamMode") [])) _ Any
              IsBitrate (apply_stream_mode-Ensures (input_string fl input (text "streamMode") []))
              (λ _ _.
                bind-Ensures Inv
                  (apply_audio_stream fl exchange (input_string fl input (text "audioStream") [])) _
                  Any IsBitrate
                  (apply_audio_stream-Ensures (input_string fl input (text "audioStream") []))
                  (λ _ _.
                    bind-Ensures Inv
                      (issue_if fl exchange (input_bool fl input (text "enableAudioNow") false)
                        (text "stream.audio") (stream (text "audio") 1))
                      (λ _. pure bitrate) Any IsBitrate
                      (issue_if-Ensures (input_bool fl input (text "enableAudioNow") false)
                        (text "stream.audio") _ (stream_audio-All 1 (omega arith)))
                      (λ _ _. pure-Ensures Inv bitrate IsBitrate h))))

    require_commands-Ensures : Ensures Inv (require_commands fl exchange light input) Any
    unfolding require_commands
    require_commands-Ensures p i = (i, λ a h. tt)

    apply_rest-Ensures : Ensures Inv (apply_rest fl exchange light input) Any
    unfolding apply_rest
    apply_rest-Ensures =
        bind-Ensures Inv (apply_alarm fl exchange light input) _ Any Any apply_alarm-Ensures (λ _ _.
          bind-Ensures Inv (apply_system fl exchange light input) _ Any Any apply_system-Ensures
            (λ _ _.
              bind-Ensures Inv
                (issue_if fl exchange (input_bool fl input (text "disablePushUpload") false)
                  (text "set_cypush")
                  (command 9105 (text "set_cypush")
                    ((text "isPushPic", num 0) ∷ (text "isPushVideo", num 0) ∷ [])))
                (λ _. require_commands fl exchange light input) Any Any
                (issue_if-Ensures (input_bool fl input (text "disablePushUpload") false)
                  (text "set_cypush") _ push-All)
                (λ _ _. require_commands-Ensures)))

    pub apply_device_config-Ensures : Ensures Inv (apply_device_config fl exchange light input) Any
    unfolding apply_device_config
    apply_device_config-Ensures =
        bind-Ensures Inv (apply_streams fl exchange light input)
          (λ bitrate.
            apply_controls fl exchange light input bitrate >> apply_rest fl exchange light input)
          IsBitrate Any apply_streams-Ensures
          (λ bitrate h.
            bind-Ensures Inv (apply_controls fl exchange light input bitrate)
              (λ _. apply_rest fl exchange light input) Any Any (apply_controls-Ensures bitrate h)
              (λ _ _. apply_rest-Ensures))
