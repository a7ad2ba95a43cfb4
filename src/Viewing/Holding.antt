-- ===== src/Viewing/Holding.antt =====
-- What a video client is shown.
use bk7252n_gate.Prelude.{
  ℕ, ◌+◌, ◌*◌, ◌≤◌, ◌≡◌, refl, inl, inr, List, [], ◌∷◌, Bool, Bool-cases, true, false, none, some,
  Option-cases, ltb, leb, All, All-append, is_empty, arith,
}
use bk7252n_gate.Runtime.{second, since}
use bk7252n_gate.Viewing.{
  video_hold_window, video_client_idle, Event, done, idle_fires, arrives, hold_fires, Happening,
  Viewer, Round, after_write, time_out, is_skipped, new_viewer, video_round, serve_media,
}

module _ (Came : ℕ → List ℕ → Type 0) where
  -- A frame that arrives, arrives in the way that `Came` says.
  abbrev pub IsArrival : Happening → Type 0
  IsArrival h = elim h.event [
    | done ↦ Unit {0}
    | idle_fires ↦ Unit {0}
    | arrives frame ↦ Came h.at frame
    | hold_fires ↦ Unit {0}
  ]

  -- What is written at a time is a frame that came at most 75 s before.
  abbrev pub IsFresh : ℕ × List ℕ → Type 0
  IsFresh (now, frame) = (s : ℕ) × Came s frame × (now ≤ s + 75 * second)

  abbrev HasFrame : Viewer → Type 0
  HasFrame v =
      is_empty v.last_raw ≡ false → (s : ℕ) × (v.last_real_frame_at ≡ some s) × Came s v.last_raw

  abbrev IsSound : Round → Type 0
  IsSound r = elim r.0 [ none ↦ Unit {0} | some v ↦ HasFrame v ] × All IsFresh r.1

  time_out-IsSound : (v : Viewer) (now : ℕ) → HasFrame v → IsSound (time_out v now)
  time_out-IsSound v now f = elim (Bool-cases (leb v.idle_at now)) [
    | inl due ↦ rw due (tt, tt)
    | inr early ↦ rw early (f, tt)
  ]

  after_write-IsSound :
      (o : Bool) (v : Viewer) (now : ℕ) (frame : List ℕ)
      → HasFrame v
      → IsFresh (now, frame)
      → IsSound (after_write o v now frame)
  after_write-IsSound true v now frame f g = (f, (g, tt))
  after_write-IsSound false v now frame f g = (tt, tt)

  held_fresh :
      (s now : ℕ) → ltb video_hold_window (since now (some s)) ≡ false → now ≤ s + 75 * second
  unfolding since
  held_fresh s now h = ground arith

  video_round-IsSound :
      (v : Viewer) (now : ℕ) (o : Bool) (e : Event)
      → HasFrame v
      → IsArrival (record { at = now; event = e; is_open = o })
      → IsSound (video_round v now o e)
  unfolding video_round
  video_round-IsSound v now o done f a = (tt, tt)
  video_round-IsSound v now o idle_fires f a = time_out-IsSound v now f
  video_round-IsSound v now o (arrives frame) f a =
      after_write-IsSound o _ now frame (λ _. (now, refl, a)) (now, a, omega arith)
  video_round-IsSound v now o hold_fires f a = elim (Bool-cases (is_skipped v now)) [
    | inl skip ↦ rw skip (f, tt)
    | inr shows ↦
        let (s, at, came) = f (ground arith) in
        let young : ltb video_hold_window (since now v.last_real_frame_at) ≡ false = ground arith in
        rw shows
          (after_write-IsSound o _ now v.last_raw f (s, came, held_fresh s now (rw at at young)))
  ]

  serve_media-IsSound :
      (v : Viewer) (hs : List Happening)
      → HasFrame v
      → All IsArrival hs
      → All IsFresh (serve_media video_round v hs).1
  unfolding serve_media
  serve_media-IsSound v [] f a = tt
  serve_media-IsSound v (h ∷ hs) f a =
      let sound = video_round-IsSound v h.at h.is_open h.event f a.0 in
      elim (Option-cases (video_round v h.at h.is_open h.event).0) [
        | inl e ↦ rw (e, serve_media) sound.1
        | inr (v', e) ↦
            let kept = sound.0 in
            rw (e, serve_media)
              (All-append IsFresh _ _ sound.1 (serve_media-IsSound v' hs (rw e at kept) a.1))
      ]

  -- If every frame that arrives for a video client came in the way that `Came` says, then every
  -- frame that it is shown, however often it is shown again, came in that way at most 75 s before.
  pub serve_video-IsFresh :
      (begin : ℕ) (hs : List Happening)
      → All IsArrival hs
      → All IsFresh (serve_media video_round (new_viewer begin video_client_idle) hs).1
  unfolding new_viewer is_empty
  serve_video-IsFresh begin hs a =
      serve_media-IsSound (new_viewer begin video_client_idle) hs (λ e. cc) a
