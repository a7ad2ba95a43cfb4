-- ===== src/Device/Outcomes.antt =====
-- What a request for settings sends and answers.
use bk7252n_gate.Prelude.{
  ◌≡◌, refl, ◌∙◌, List, [], ◌∷◌, ◌++◌, Bool, true, false, ◌&&◌, Option, none, some, Text, text,
  text_eq, is_empty, All, arith,
}
use bk7252n_gate.Input.{Object, FloatOps, ok, err, ApiError, input_string, input_bool}
use bk7252n_gate.Runtime.{Command}
use bk7252n_gate.Runtime.Commands.{CommandResult}
use bk7252n_gate.Device.Actions.{Entry, Progress, note, issue, ◌>>=◌, ◌>>◌}
use bk7252n_gate.Device.Rules.{bind_ok, bind_err}
use bk7252n_gate.Device.Fields.{control_fields, read_fields}
use bk7252n_gate.Device.Ranges.{IsAllowed}
use bk7252n_gate.Device.Keeps.{apply_device_config-Ensures}
use bk7252n_gate.Device.{
  stream, Light, fine, put_args, put_if, apply_preset, apply_stream_mode, apply_audio_stream,
  issue_if, apply_image_preset, apply_controls, apply_streams, apply_rest, apply_device_config,
}

-- What an entry of the answer was sent with.
abbrev pub IsSafeEntry : Entry → Type 0
IsSafeEntry e = elim e.sent [ none ↦ Unit {0} | some c ↦ All IsAllowed c.args ]

-- `out["ok"]` and `commands` before the first command.
abbrev pub unsent : {S : Type 0} → S → Progress S
unsent s = record { world = s; all_ok = true; commands = [] }

unfoldable pub all_fine : List Entry → Bool
all_fine [] = true
all_fine (e ∷ es) = e.result.ok && all_fine es

safe_snoc :
    (es : List Entry) (e : Entry)
    → All IsSafeEntry es
    → IsSafeEntry e
    → All IsSafeEntry (es ++ (e ∷ []))
safe_snoc [] e a h = (h, tt)
safe_snoc (x ∷ es) e a h = (a.0, safe_snoc es e a.1 h)

all_fine-snoc :
    (es : List Entry) (e : Entry) → all_fine (es ++ (e ∷ [])) ≡ all_fine es && e.result.ok
unfolding all_fine
all_fine-snoc [] e = ground arith
all_fine-snoc (x ∷ es) e = rw (all_fine-snoc es e) (ground arith)

module _ {F : Type 0} (fl : FloatOps F) {S : Type 0} (exchange : S → Command → S × CommandResult)
    (light : Option Light) (input : Object F) (s : S) where
  -- Every number that a request for settings sends to the camera, from a preset, from the analysis of a frame or from
  -- the request itself, is within the gateway's own range for that setting, which `limits` writes out, and
  -- nothing but such numbers is sent, whatever the request says, whatever the camera answers and wherever the
  -- request is refused. That the camera heeds each value is not claimed.
  pub apply_device_config-IsSafe :
      All IsSafeEntry (apply_device_config fl exchange light input (unsent s)).1.commands
  unfolding issue note
  apply_device_config-IsSafe =
      (apply_device_config-Ensures fl exchange (λ p. All IsSafeEntry p.commands) sent noted light
        input (unsent s) tt).0
    where
      sent :
          (name : Text) (c : Command) (p : Progress S)
          → All IsAllowed c.args
          → All IsSafeEntry p.commands
          → All IsSafeEntry (issue exchange name c p).1.commands
      sent name c p safe a =
          safe_snoc p.commands
            record { name = name; sent = some c; result = (exchange p.world c).1 } a safe

      noted :
          (name : Text) (p : Progress S)
          → All IsSafeEntry p.commands
          → All IsSafeEntry (note name fine p).1.commands
      noted name p a = safe_snoc p.commands record { name = name; sent = none; result = fine } a tt

  -- The answer's `ok` is true exactly if every command of the answer was answered well.
  apply_device_config-all_ok :
      let p = (apply_device_config fl exchange light input (unsent s)).1 in
      p.all_ok ≡ all_fine p.commands
  unfolding all_fine issue note
  apply_device_config-all_ok =
      (apply_device_config-Ensures fl exchange (λ p. p.all_ok ≡ all_fine p.commands) sent noted
        light input (unsent s) refl).0
    where
      sent :
          (name : Text) (c : Command) (p : Progress S)
          → All IsAllowed c.args
          → p.all_ok ≡ all_fine p.commands
          → (issue exchange name c p).1.all_ok ≡ all_fine (issue exchange name c p).1.commands
      sent name c p safe a = rw (all_fine-snoc, a) refl

      noted :
          (name : Text) (p : Progress S)
          → p.all_ok ≡ all_fine p.commands
          → (note name fine p).1.all_ok ≡ all_fine (note name fine p).1.commands
      noted name p a = rw (all_fine-snoc, a) refl

  -- `input` chooses the preset `stop` and no other stream, and no image preset.
  abbrev pub IsStopOnly : Type 0
  IsStopOnly =
      (input_string fl input (text "preset") [] ≡ text "stop")
      × (input_string fl input (text "streamMode") [] ≡ [])
      × (input_string fl input (text "audioStream") [] ≡ [])
      × (input_bool fl input (text "enableAudioNow") false ≡ false)
      × (input_string fl input (text "imagePreset") [] ≡ [])

  streams_stop :
      (p : Progress S)
      → IsStopOnly
      → apply_streams fl exchange light input p
        ≡ (ok 0, (issue exchange (text "preset.stop.video") (stream (text "video") 0) p).1)
  unfolding apply_streams apply_preset apply_stream_mode apply_audio_stream issue_if text_eq
      is_empty issue
  streams_stop p h = rw (h.0, h.1, h.2, h.3) refl

  controls_refused :
      (e : ApiError) (p : Progress S)
      → IsStopOnly
      → read_fields fl input control_fields [] ≡ err e
      → apply_controls fl exchange light input 0 p ≡ (err e, p)
  unfolding apply_controls apply_image_preset put_args put_if is_empty
  controls_refused e p h refused = rw h.4 (rw (refused, ◌>>=◌) refl)

  -- A request with the preset `stop`, no stream mode, no audio stream and no image preset, one of
  -- whose image settings is refused, is answered with that refusal alone, though the camera has
  -- been told to stop the stream.
  pub apply_device_config-refused :
      (e : ApiError)
      → IsStopOnly
      → read_fields fl input control_fields [] ≡ err e
      → let halt = stream (text "video") 0 in
        let r = apply_device_config fl exchange light input (unsent s) in
        (r.0 ≡ err e)
        × (r.1.world ≡ (exchange s halt).0)
        × (r.1.commands
            ≡ record {
              name = text "preset.stop.video";
              sent = some halt;
              result = (exchange s halt).1;
            }
              ∷ [])
  unfolding apply_device_config issue
  apply_device_config-refused e h refused =
      let p = (issue exchange (text "preset.stop.video") (stream (text "video") 0) (unsent s)).1 in
      let run : apply_device_config fl exchange light input (unsent s) ≡ (err e, p) =
        bind_ok (apply_streams fl exchange light input)
          (λ bitrate.
            apply_controls fl exchange light input bitrate >> apply_rest fl exchange light input)
          (unsent s) p 0 (streams_stop (unsent s) h)
        ∙ bind_err (apply_controls fl exchange light input 0)
            (λ _. apply_rest fl exchange light input) p p e (controls_refused e p h refused) in
      rw run (refl, refl, refl)
