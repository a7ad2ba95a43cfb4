-- ===== src/Viewing/Ending.antt =====
-- A client that gets nothing new is let go.
use bk7252n_gate.Prelude.{
  ℕ, ◌+◌, ◌*◌, ◌≤◌, ◌≡◌, refl, inl, inr, List, [], ◌∷◌, ◌++◌, Bool, Bool-cases, true, false, none,
  some, Option-cases, ltb, leb, All, is_empty, arith,
}
use bk7252n_gate.Runtime.{second, since}
use bk7252n_gate.Viewing.{
  video_hold_window, video_client_idle, audio_client_idle, Event, done, idle_fires, arrives,
  hold_fires, Happening, Viewer, Round, time_out, after_write, is_skipped, new_viewer, video_round,
  audio_round, serve_media,
}

-- Nothing arrives after the time `last`.
abbrev pub IsQuiet : ℕ → Happening → Type 0
IsQuiet last h = elim h.event [
  | done ↦ Unit {0}
  | idle_fires ↦ Unit {0}
  | arrives frame ↦ h.at ≤ last
  | hold_fires ↦ Unit {0}
]

-- The timer runs out by `limit`, and the frame shown came by `last`.
pub record IsBounded (last limit : ℕ) (v : Viewer) : Type 0 where
  timer : v.idle_at ≤ limit
  frame : is_empty v.last_raw ≡ false → (s : ℕ) × (v.last_real_frame_at ≡ some s) × (s ≤ last)

-- What is left of the loop, if it goes on, satisfies `P`.
abbrev Goes : (Viewer → Type 0) → Round → Type 0
Goes P r = elim r.0 [ none ↦ Unit {0} | some v ↦ P v ]

module _ (P : Viewer → Type 0) (round : Viewer → ℕ → Bool → Event → Round) (Q : Happening → Type 0)
    (keeps : (v : Viewer) (h : Happening)
      → P v
      → Q h
      → Goes P (round v h.at h.is_open h.event)) where
  serve_media-Goes :
      (v : Viewer) (hs : List Happening) → P v → All Q hs → Goes P (serve_media round v hs)
  unfolding serve_media
  serve_media-Goes v [] p q = p
  serve_media-Goes v (h ∷ hs) p q = elim (Option-cases (round v h.at h.is_open h.event).0) [
    | inl e ↦ rw (e, serve_media) tt
    | inr (v', e) ↦
        rw (e, serve_media) (let k = keeps v h p q.0 in serve_media-Goes v' hs (rw e at k) q.1)
  ]

-- One more event.
serve_media-snoc :
    (round : Viewer → ℕ → Bool → Event → Round) (v : Viewer) (hs : List Happening) (h : Happening)
    → (P : Viewer → Type 0) → Goes P (serve_media round v hs)
    → ((v' : Viewer) → P v' → (round v' h.at h.is_open h.event).0 ≡ none)
    → (serve_media round v (hs ++ (h ∷ []))).0 ≡ none
unfolding serve_media
serve_media-snoc round v [] h P p ends = rw (ends v p, serve_media) refl
serve_media-snoc round v (x ∷ hs) h P p ends =
    elim (Option-cases (round v x.at x.is_open x.event).0) [
      | inl e ↦ rw (e, serve_media) refl
      | inr (v', e) ↦
          rw (e, serve_media) (serve_media-snoc round v' hs h P (rw (e, serve_media) at p) ends)
    ]

abbrev video_limit : ℕ → ℕ
video_limit last = last + (video_hold_window + video_client_idle)

time_out-Goes : (P : Viewer → Type 0) (v : Viewer) (now : ℕ) → P v → Goes P (time_out v now)
time_out-Goes P v now p = elim (Bool-cases (leb v.idle_at now)) [
  | inl due ↦ rw due tt
  | inr early ↦ rw early p
]

after_write-Goes :
    (P : Viewer → Type 0) (o : Bool) (v : Viewer) (now : ℕ) (frame : List ℕ)
    → P v
    → Goes P (after_write o v now frame)
after_write-Goes P true v now frame p = p
after_write-Goes P false v now frame p = tt

held_until :
    (last s now : ℕ)
    → s ≤ last
    → ltb video_hold_window (since now (some s)) ≡ false
    → now + video_client_idle ≤ video_limit last
unfolding since
held_until last s now early h = ground arith

video_round-IsBounded :
    (last : ℕ) (v : Viewer) (now : ℕ) (o : Bool) (e : Event)
    → IsBounded last (video_limit last) v
    → IsQuiet last (record { at = now; event = e; is_open = o })
    → Goes (IsBounded last (video_limit last)) (video_round v now o e)
unfolding video_round
video_round-IsBounded last v now o done b q = tt
video_round-IsBounded last v now o idle_fires b q =
    time_out-Goes (IsBounded last (video_limit last)) v now b
video_round-IsBounded last v now o (arrives frame) b q =
    after_write-Goes (IsBounded last (video_limit last)) o _ now frame
      (record { timer = omega (arith, q); frame = λ _. (now, refl, q) })
video_round-IsBounded last v now o hold_fires b q = elim (Bool-cases (is_skipped v now)) [
  | inl skip ↦ rw skip b
  | inr shows ↦
      let (s, at, early) = b.frame (ground arith) in
      let fresh : ltb video_hold_window (since now v.last_real_frame_at) ≡ false = ground arith in
      rw shows (
        after_write-Goes (IsBounded last (video_limit last)) o _ now v.last_raw
          (record { timer = held_until last s now early (rw at at fresh); frame = b.frame }))
]

-- A video client for which no frame arrives after the time `last`, at its start or later, is let
-- go at the latest when its timer fires 165 s after `last` or later: 75 s for which a frame is
-- shown again, and 90 s of idling.
pub serve_video-ends :
    (begin last : ℕ) (hs : List Happening) (now : ℕ) (o : Bool)
    → begin ≤ last
    → All (IsQuiet last) hs
    → last + 165 * second ≤ now
    → (serve_media video_round
        (new_viewer begin video_client_idle)
        (hs ++ (record { at = now; event = idle_fires; is_open = o } ∷ []))).0
      ≡ none
unfolding new_viewer video_round is_empty
serve_video-ends begin last hs now o h q late =
    serve_media-snoc video_round (new_viewer begin video_client_idle) hs _
      (IsBounded last (video_limit last))
      (serve_media-Goes (IsBounded last (video_limit last)) video_round (IsQuiet last)
        (λ v x p r. video_round-IsBounded last v x.at x.is_open x.event p r)
        (new_viewer begin video_client_idle) hs (record { timer = omega arith; frame = λ e. cc }) q)
      (λ v p. let due : leb v.idle_at now ≡ true = ground (arith, p.timer) in rw due refl)

audio_round-idle :
    (last : ℕ) (v : Viewer) (now : ℕ) (o : Bool) (e : Event)
    → v.idle_at ≤ last + audio_client_idle
    → IsQuiet last (record { at = now; event = e; is_open = o })
    → Goes (λ u. u.idle_at ≤ last + audio_client_idle) (audio_round v now o e)
unfolding audio_round
audio_round-idle last v now o done b q = tt
audio_round-idle last v now o idle_fires b q =
    time_out-Goes (λ u. u.idle_at ≤ last + audio_client_idle) v now b
audio_round-idle last v now o (arrives pcm) b q =
    after_write-Goes (λ u. u.idle_at ≤ last + audio_client_idle) o _ now pcm (omega (arith, q))
audio_round-idle last v now o hold_fires b q = b

-- An audio client for which no samples arrive after the time `last`, at its start or later, is let
-- go at the latest when its timer fires 30 s after `last` or later.
serve_audio-ends :
    (begin last : ℕ) (hs : List Happening) (now : ℕ) (o : Bool)
    → begin ≤ last
    → All (IsQuiet last) hs
    → last + 30 * second ≤ now
    → (serve_media audio_round
        (new_viewer begin audio_client_idle)
        (hs ++ (record { at = now; event = idle_fires; is_open = o } ∷ []))).0
      ≡ none
unfolding new_viewer audio_round
serve_audio-ends begin last hs now o h q late =
    let P = λ (u : Viewer). u.idle_at ≤ last + audio_client_idle in
    serve_media-snoc audio_round (new_viewer begin audio_client_idle) hs _ P
      (serve_media-Goes P audio_round (IsQuiet last)
        (λ v x p r. audio_round-idle last v x.at x.is_open x.event p r)
        (new_viewer begin audio_client_idle) hs (omega arith) q)
      (λ v p. let due : leb v.idle_at now ≡ true = ground (arith, p) in rw due refl)
