-- ===== src/Config/Bounds.antt =====
-- The accessors on any configuration file.
use bk7252n_gate.Config
use bk7252n_gate.Config.{CameraConfig}
use bk7252n_gate.Prelude.{◌≡◌, ◌⊎◌, arith}
use bk7252n_gate.Prelude.Int.{pos, ◌≤ℤ◌}

-- For every stored configuration the effective frame size is positive, acknowledgements are sent 1
-- to 9 times, the overlay scale is 1 to 3, and the video mode is 1 or 2.
accessor_bounds :
    (c : CameraConfig)
    → (pos 1 ≤ℤ Config.width c)
      × (pos 1 ≤ℤ Config.height c)
      × ((pos 1 ≤ℤ Config.ack_repeats c) × (Config.ack_repeats c ≤ℤ pos 9))
      × ((pos 1 ≤ℤ Config.overlay_size c) × (Config.overlay_size c ≤ℤ pos 3))
      × ((Config.video_mode c ≡ 1) ⊎ (Config.video_mode c ≡ 2))
unfolding Config.width Config.height Config.ack_repeats Config.overlay_size Config.video_mode
accessor_bounds c = (
  ground arith,
  ground arith,
  (ground arith, ground arith),
  (ground arith, ground arith),
  ground arith,
)
