-- ===== src/Viewing.antt =====
-- `ServeVideo` and `ServeAudio` of bkcam-go/main.go from the client's first place in the queue on: each
-- round of their `select` is one event, and the responses are what is written. `ServeSnapshot` is in
-- Viewing/Snapshot.
pub mod Ending
pub mod Holding
pub mod Snapshot
pub mod Joining
use bk7252n_gate.Prelude.{
  ℕ, ◌+◌, ◌*◌, List, [], ◌∷◌, ◌++◌, Bool, true, false, ◌||◌, Option, none, some, ltb, leb,
  if◌then◌else◌, Text, text, is_empty, length,
}
use bk7252n_gate.Runtime.{second, since}

abbrev pub video_hold_interval : ℕ
video_hold_interval = second

abbrev pub video_hold_window : ℕ
video_hold_window = 75 * second

abbrev pub video_client_idle : ℕ
video_client_idle = 90 * second

abbrev pub audio_client_idle : ℕ
audio_client_idle = 30 * second

-- What the `select` takes: the request is over, the timer `idle` fires, data arrives, the ticker `hold`
-- fires.
pub data Event : Type 0 where
  done : Event
  idle_fires : Event
  arrives : List ℕ → Event
  hold_fires : Event

-- An event with its time, and whether the response still takes what is written.
pub record Happening : Type 0 where
  pub at : ℕ
  pub event : Event
  pub is_open : Bool

-- The variables of the loop; `idle_at` is when the timer `idle` is to fire.
pub record Viewer : Type 0 where
  pub last_raw : List ℕ
  pub last_real_frame_at : Option ℕ
  pub last_write_at : Option ℕ
  pub idle_at : ℕ

-- A frame or a block of samples that is written, and when.
abbrev pub Written : Type 0
Written = List (ℕ × List ℕ)

-- `none` is a return.
abbrev pub Round : Type 0
Round = Option Viewer × Written

-- A write that fails ends the loop.
abbrev pub after_write : Bool → Viewer → ℕ → List ℕ → Round
after_write true v now frame = (some v, (now, frame) ∷ [])
after_write false v now frame = (none, [])

-- `v` is let go if its timer has run out; a timer that has not does not fire.
abbrev pub time_out : Viewer → ℕ → Round
time_out v now = if leb v.idle_at now then (none, []) else (some v, [])

-- `ServeVideo` before the loop.
unfoldable pub new_viewer : ℕ → ℕ → Viewer
new_viewer now idle = record {
  last_raw = [];
  last_real_frame_at = none;
  last_write_at = none;
  idle_at = now + idle;
}

-- What makes the ticker do nothing.
abbrev pub is_skipped : Viewer → ℕ → Bool
is_skipped v now =
    is_empty v.last_raw
    || ltb video_hold_window (since now v.last_real_frame_at)
    || ltb (since now v.last_write_at) video_hold_interval

unfoldable pub video_round : Viewer → ℕ → Bool → Event → Round
video_round v now o done = (none, [])
video_round v now o idle_fires = time_out v now
video_round v now o (arrives frame) =
    let shown : Viewer = record {
      last_raw = frame;
      last_real_frame_at = some now;
      last_write_at = some now;
      idle_at = now + video_client_idle;
    } in
    after_write o shown now frame
video_round v now o hold_fires =
    if is_skipped v now
    then (some v, [])
    else (let held : Viewer = record v {
      last_write_at = some now;
      idle_at = now + video_client_idle;
    } in
        after_write o held now v.last_raw)

-- `ServeAudio` has no ticker.
unfoldable pub audio_round : Viewer → ℕ → Bool → Event → Round
audio_round v now o done = (none, [])
audio_round v now o idle_fires = time_out v now
audio_round v now o (arrives pcm) =
    after_write o (record v { idle_at = now + audio_client_idle }) now pcm
audio_round v now o hold_fires = (some v, [])

-- The loop, until it returns.
unfoldable pub serve_media : (Viewer → ℕ → Bool → Event → Round) → Viewer → List Happening → Round
serve_media round v [] = (some v, [])
serve_media round v (h ∷ hs) =
    let r = round v h.at h.is_open h.event in
    elim r.0 [
      | none ↦ (none, r.1)
      | some v' ↦ (let rest = serve_media round v' hs in (rest.0, r.1 ++ rest.1))
    ]

-- `writeMJPEGFrame`; `decimal` is the verb `%d`.
unfoldable pub mjpeg_frame : (ℕ → Text) → List ℕ → Text
mjpeg_frame decimal frame =
    let line = 13 ∷ 10 ∷ [] in
    text "--frame"
    ++ (line
        ++ (text "Content-Type: image/jpeg"
            ++ (line
                ++ (text "Content-Length: "
                    ++ (decimal (length frame) ++ (line ++ (line ++ (frame ++ line))))))))
