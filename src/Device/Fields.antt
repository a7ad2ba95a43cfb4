-- ===== src/Device/Fields.antt =====
-- The fields of a request that become arguments of a command: one row of a table for each
-- `optionalInt` and `optionalEnumInt` of `ApplyDeviceConfig`, in the order of the code.
use bk7252n_gate.Prelude.{
  ℕ, ◌+◌, ◌/◌, List, [], ◌∷◌, not, ◌&&◌, Option, none, some, ltb, if◌then◌else◌, Text, text,
  text_eq,
}
use bk7252n_gate.Prelude.Int.{ℤ, pos, pos_part, ltb_ℤ}
use bk7252n_gate.Input.{Object, FloatOps, Result, ok, err, optional_int, optional_enum_int}
use bk7252n_gate.Runtime.{Arg, num}

abbrev pub Args : Type 0
Args = List (Text × Arg)

-- `args[key] = value`
unfoldable pub put_arg : Text → Arg → Args → Args
put_arg key value [] = (key, value) ∷ []
put_arg key value ((k, v) ∷ args) =
    if text_eq k key then (key, value) ∷ args else (k, v) ∷ put_arg key value args

-- `bitrateKbpsToRateBit`; math.Round of a quotient by 50 is exact at these sizes.
unfoldable pub bitrate_kbps_to_rate_bit : ℤ → ℕ
bitrate_kbps_to_rate_bit kbps =
    let value = (pos_part kbps + 25) / 50 in
    if ltb_ℤ kbps (pos 50)
    then 1
    else (if ltb value 1 then 1 else (if ltb 64 value then 64 else value))

-- `optionalInt` with its bounds, or `optionalEnumInt` with the numbers from 0 on.
pub data Accepts : Type 0 where
  between : ℤ → ℤ → Accepts
  up_to : ℕ → Accepts

pub record Field : Type 0 where
  pub key : Text
  pub accepts : Accepts
  pub name : Text
  pub convert : ℤ → ℕ  -- no accepted value is negative

abbrev plain : Text → Accepts → Text → Field
plain key accepts name = record { key = key; accepts = accepts; name = name; convert = pos_part }

abbrev pub control_fields : List Field
control_fields =
    record {
      key = text "bitrateKbps";
      accepts = between (pos 50) (pos 3200);
      name = text "rate_bit";
      convert = bitrate_kbps_to_rate_bit;
    }
    ∷ plain (text "bitrate") (between (pos 1) (pos 64)) (text "rate_bit")
    ∷ plain (text "brightness") (between (pos 0) (pos 6)) (text "bright")
    ∷ plain (text "contrast") (between (pos 0) (pos 6)) (text "contrast")
    ∷ plain (text "irCut") (up_to 1) (text "icut")
    ∷ plain (text "lamp") (up_to 1) (text "lamp")
    ∷ plain (text "antiFlicker") (up_to 1) (text "anti_flicker")
    ∷ plain (text "rotateMirror") (up_to 3) (text "rotmir")
    ∷ []

abbrev pub alarm_fields : List Field
alarm_fields =
    plain (text "motionDetect") (up_to 1) (text "motionDetect")
    ∷ plain (text "motionDelay") (between (pos 1) (pos 600)) (text "motionDelay")
    ∷ plain (text "audioDetect") (up_to 1) (text "audioDetect")
    ∷ plain (text "audioDelay") (between (pos 1) (pos 600)) (text "audioDelay")
    ∷ []

abbrev pub system_fields : List Field
system_fields =
    plain (text "sleepTime") (between (pos 1) (pos 86400)) (text "sleep_time")
    ∷ plain (text "offlineTime") (between (pos 1) (pos 3600)) (text "offline_time")
    ∷ plain (text "limitPush") (between (pos 1) (pos 100000)) (text "limit_push")
    ∷ plain (text "environment") (up_to 3) (text "environment")
    ∷ []

unfoldable pub store : Field → Option ℤ → Args → Args
store f none args = args
store f (some v) args = put_arg f.name (num (f.convert v)) args

module _ {F : Type 0} (fl : FloatOps F) where
  unfoldable pub read_field : Object F → Text → Accepts → Result (Option ℤ)
  read_field input key (between lo hi) = optional_int fl input key lo hi
  read_field input key (up_to n) =
      optional_enum_int fl input key (λ v. not (ltb_ℤ v (pos 0)) && not (ltb_ℤ (pos n) v))

  -- The first field that is refused ends the request.
  unfoldable pub read_fields : Object F → List Field → Args → Result Args
  read_fields input [] args = ok args
  read_fields input (f ∷ fs) args = elim (read_field input f.key f.accepts) [
    | err e ↦ err e
    | ok value ↦ read_fields input fs (store f value args)
  ]
