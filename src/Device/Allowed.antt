-- ===== src/Device/Allowed.antt =====
-- The arguments that a request puts together are within the limits.
use bk7252n_gate.Prelude.{
  ℕ, ◌≤◌, ◌≡◌, refl, [], ◌∷◌, Bool, true, false, Option, none, some, if◌then◌else◌, Text, text,
  text_eq, is_empty, All, arith, ◌||◌,
}
use mathlib.Core.Path.{subst}
use bk7252n_gate.Input.{err-ne-ok, Result, ok}
use bk7252n_gate.Runtime.{num}
use bk7252n_gate.Device.Fields.{Args, put_arg}
use bk7252n_gate.Device.Ranges.{in_limits, IsAllowed, put_arg-All}
use bk7252n_gate.Device.{
  stream, Light, balanced, dark, glare, auto_controls, image_preset_controls, put_args, put_if,
  refuse,
}

pub stream_video-All : (v : ℕ) → v ≤ 2 → All IsAllowed (stream (text "video") v).args
unfolding in_limits text_eq
stream_video-All v h = (ground arith, tt)

pub stream_audio-All : (v : ℕ) → v ≤ 1 → All IsAllowed (stream (text "audio") v).args
unfolding in_limits text_eq
stream_audio-All v h = (ground arith, tt)

pub balanced-All : All IsAllowed balanced
unfolding in_limits text_eq
balanced-All = (refl, (refl, (refl, tt)))

pub dark-All : All IsAllowed dark
unfolding in_limits text_eq
dark-All = (refl, (refl, (refl, (refl, tt))))

pub glare-All : All IsAllowed glare
unfolding in_limits text_eq
glare-All = (refl, (refl, (refl, (refl, tt))))

pub reset-All : All IsAllowed ((text "resetrb", num 1) ∷ [])
unfolding in_limits text_eq
reset-All = (refl, tt)

pub auto_controls-All : (light : Option Light) → All IsAllowed (auto_controls light)
unfolding auto_controls in_limits text_eq
auto_controls-All none = (refl, (refl, (refl, tt)))
auto_controls-All (some light) = ground arith

-- A result that holds allowed settings, if any.
abbrev Gives : Result Args → Type 0
Gives r = (controls : Args) → r ≡ ok controls → All IsAllowed controls

pub ok-Gives : (args : Args) → All IsAllowed args → Gives (ok args)
ok-Gives args a controls h = let e : args ≡ controls = cc in subst (All IsAllowed) e a

pub if-Gives : (b : Bool) (r s : Result Args) → Gives r → Gives s → Gives (if b then r else s)
if-Gives true r s hr hs = hr
if-Gives false r s hr hs = hs

pub image_preset_controls-All :
    (light : Option Light) (preset : Text) → Gives (image_preset_controls light preset)
unfolding image_preset_controls
image_preset_controls-All light preset =
    if-Gives (is_empty preset || text_eq preset (text "none")) _ _ (ok-Gives [] tt) (
      if-Gives (text_eq preset (text "balanced")) _ _ (ok-Gives balanced balanced-All) (
        if-Gives (text_eq preset (text "dark")) _ _ (ok-Gives dark dark-All) (
          if-Gives (text_eq preset (text "glare")) _ _ (ok-Gives glare glare-All) (
            if-Gives (text_eq preset (text "reset")) _ _
              (ok-Gives ((text "resetrb", num 1) ∷ []) reset-All)
              (if-Gives (text_eq preset (text "auto")) _
                (refuse (text "imagePreset must be auto, balanced, dark, glare, reset or none"))
                (ok-Gives (auto_controls light) (auto_controls-All light))
                (λ controls h. absurd (err-ne-ok h)))))))

pub put_args-All :
    (more args : Args)
    → All IsAllowed more
    → All IsAllowed args
    → All IsAllowed (put_args more args)
unfolding put_args
put_args-All [] args m a = a
put_args-All ((key, value) ∷ more) args m a =
    put_args-All more (put_arg key value args) m.1 (put_arg-All key value args m.0 a)

pub put_if-All :
    (b : Bool) (key : Text) (value : ℕ) (args : Args)
    → (b ≡ true → IsAllowed (key, num value))
    → All IsAllowed args
    → All IsAllowed (put_if b key value args)
unfolding put_if
put_if-All true key value args h a = put_arg-All key (num value) args (h refl) a
put_if-All false key value args h a = a

pub off-All : All IsAllowed ((text "audioDetect", num 0) ∷ (text "motionDetect", num 0) ∷ [])
unfolding in_limits text_eq
off-All = (refl, (refl, tt))

pub push-All : All IsAllowed ((text "isPushPic", num 0) ∷ (text "isPushVideo", num 0) ∷ [])
unfolding in_limits text_eq
push-All = (refl, (refl, tt))

pub rate_12 : IsAllowed (text "rate_bit", num 12)
unfolding in_limits text_eq
rate_12 = refl

pub rate_26 : IsAllowed (text "rate_bit", num 26)
unfolding in_limits text_eq
rate_26 = refl
