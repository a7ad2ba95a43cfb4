-- ===== src/Examples/Viewers.antt =====
-- Clients of a camera's video and audio, and a request for a picture, on concrete events.
use bk7252n_gate.Prelude.{
  ℕ, ◌*◌, ◌≡◌, refl, ◌⊎◌, inl, inr, List, [], ◌∷◌, ◌++◌, none, some, true, false, All, arith,
  is_empty,
}
use bk7252n_gate.Config
use bk7252n_gate.Runtime.{CameraRuntime, second, since, is_zero}
use bk7252n_gate.Runtime.Lifecycle.{new_camera_runtime}
use bk7252n_gate.Runtime.Health.{
  health, no_session, video_health, video_demand, audio_health, traffic_health,
}
use bk7252n_gate.Runtime.Streams.{snapshot_demand}
use bk7252n_gate.Viewing.{
  Happening, idle_fires, arrives, hold_fires, video_client_idle, new_viewer, video_round,
  serve_media,
}
use bk7252n_gate.Viewing.Ending.{serve_video-ends}
use bk7252n_gate.Viewing.Holding.{IsFresh, serve_video-IsFresh}
use mathlib.Core.List.{Memᴰ}
use bk7252n_gate.Viewing.Snapshot.{
  Sight, sights, IsGoodSight, Round, picture, take_look, is_good, finish_snapshot,
  finish_snapshot_fresh,
}
use bk7252n_gate.Examples.Cameras.{live}

-- Two frames, and the ticker behind each.
abbrev morning : List Happening
morning =
    record { at = 10 * second; event = arrives (1 ∷ []); is_open = true }
    ∷ record { at = 11 * second; event = hold_fires; is_open = true }
    ∷ record { at = 12 * second; event = arrives (2 ∷ 3 ∷ []); is_open = true }
    ∷ record { at = 14 * second; event = hold_fires; is_open = true }
    ∷ []

-- The last frame came after 12 s.
serve_video-ends_example :
    (serve_media video_round
      (new_viewer (9 * second) video_client_idle)
      (morning ++ (record { at = 177 * second; event = idle_fires; is_open = true } ∷ []))).0
    ≡ none
serve_video-ends_example =
    serve_video-ends (9 * second) (12 * second) morning (177 * second) true (omega arith)
      (omega arith, (tt, (omega arith, (tt, tt)))) (omega arith)

-- When the two frames came.
abbrev HasCome : ℕ → List ℕ → Type 0
HasCome s frame =
    ((s ≡ 10 * second) × (frame ≡ 1 ∷ [])) ⊎ ((s ≡ 12 * second) × (frame ≡ 2 ∷ 3 ∷ []))

serve_video-IsFresh_example :
    All
      (IsFresh HasCome)
      (serve_media video_round (new_viewer (9 * second) video_client_idle) morning).1
serve_video-IsFresh_example =
    serve_video-IsFresh HasCome (9 * second) morning
      (inl (refl, refl), (tt, (inr (refl, refl), (tt, tt))))

-- A camera whose frame came a second ago.
abbrev filming : CameraRuntime
filming = record live { latest_frame = 255 ∷ 216 ∷ []; last_video_at = some (19 * second) }

abbrev second_round : Round
second_round = record { tested_at = 19 * second; looked_at = 20 * second; seen = filming }

sees_frame : is_good (take_look filming (20 * second)) ≡ true
unfolding is_good take_look new_camera_runtime health Config.enabled no_session is_zero since
    video_health video_demand is_empty snapshot_demand audio_health traffic_health
sees_frame = refl

-- A first round that sees no frame, and a second that sees one.
finish_snapshot_fresh_example :
    let rounds =
      (record { tested_at = 18 * second; looked_at = 18 * second; seen = live } ∷ [])
      ++ (second_round ∷ []) in
    (sight : Sight) × Memᴰ sight ((live, 18 * second) ∷ sights rounds)
    × IsGoodSight sight
    × (finish_snapshot
          (λ frame. frame)
          true
          (18 * second)
          (take_look live (18 * second))
          rounds
          (21 * second)
        ≡ picture sight.0.latest_frame false)
finish_snapshot_fresh_example =
    finish_snapshot_fresh (λ frame. frame) (18 * second) live
      (record { tested_at = 18 * second; looked_at = 18 * second; seen = live } ∷ []) []
      second_round (21 * second) (λ frame. refl) (omega arith, tt) (omega arith) sees_frame
