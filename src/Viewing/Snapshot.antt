-- ===== src/Viewing/Snapshot.antt =====
-- `ServeSnapshot` of bkcam-go/main.go. `output` is `frameForOutput`, which draws with packages for images.
-- The rounds of the wait are given with the times that the clock showed in them and the runtime that
-- they saw.
use bk7252n_gate.Prelude.{
  ℕ, ◌+◌, ◌*◌, ◌<◌, ◌≡◌, ◌∙◌, inl, inr, List, [], ◌∷◌, ◌++◌, Bool, Bool-cases, true, false, not,
  ◌&&◌, ◌||◌, Option, some, ltb, leb, if◌then◌else◌, Text, is_empty, All, map, ◌≤◌, arith, refl,
}
use mathlib.Core.List.{Memᴰ}
use mathlib.Core.List.Memᴰ.{head, tail}
use bk7252n_gate.Config.{Ip4}
use bk7252n_gate.Runtime.{CameraRuntime, Command, Step, second, since, is_zero, video_stale_window}
use bk7252n_gate.Runtime.Lifecycle.{start}
use bk7252n_gate.Runtime.Streams.{request_streams, recover_video_for_client}
use bk7252n_gate.Runtime.Health.{State, disabled, connecting, online, stale, offline, health}
use bk7252n_gate.Viewing.{video_hold_window}

-- The variables `frame`, `frameAt`, `fresh` and `state`.
pub record Look : Type 0 where
  pub frame : List ℕ
  pub frame_at : Option ℕ
  pub is_fresh : Bool
  pub state : State

abbrev pub is_disabled : State → Bool
is_disabled disabled = true
is_disabled connecting = false
is_disabled online = false
is_disabled stale = false
is_disabled offline = false

abbrev pub is_offline : State → Bool
is_offline disabled = false
is_offline connecting = false
is_offline online = false
is_offline stale = false
is_offline offline = true

unfoldable pub take_look : CameraRuntime → ℕ → Look
take_look rt now = record {
  frame = rt.latest_frame;
  frame_at = rt.last_video_at;
  is_fresh = not (is_zero rt.last_video_at) && leb (since now rt.last_video_at) video_stale_window;
  state = (health rt now).state;
}

-- A look that needs no waiting.
unfoldable pub is_good : Look → Bool
is_good look =
    not (is_empty look.frame)
    && look.is_fresh
    && not (is_offline look.state)
    && not (is_disabled look.state)

-- A round of the wait: when the deadline is tested, and the look that follows.
pub record Round : Type 0 where
  pub tested_at : ℕ
  pub looked_at : ℕ
  pub seen : CameraRuntime

unfoldable pub wait_for_frame : ℕ → List Round → Look → Look
wait_for_frame deadline [] look = look
wait_for_frame deadline (r ∷ rs) look =
    let next = take_look r.seen r.looked_at in
    let later = wait_for_frame deadline rs next in
    if ltb r.tested_at deadline then (if is_good next then next else later) else look

-- Status 503 with the state, or a picture and whether it is marked as stale.
pub data Picture : Type 0 where
  not_ready : State → Picture
  invalid : State → Picture
  picture : List ℕ → Bool → Picture

unfoldable pub answer : (List ℕ → List ℕ) → ℕ → Look → Picture
answer output now look =
    let holdable =
      not (is_empty look.frame)
      && not (is_zero look.frame_at)
      && leb (since now look.frame_at) video_hold_window
      && not (is_disabled look.state) in
    if is_empty look.frame || (not look.is_fresh && not holdable) || is_disabled look.state
    then not_ready look.state
    else (if is_empty (output look.frame)
        then invalid look.state
        else picture (output look.frame) (not look.is_fresh || is_offline look.state))

module _ (parse_ip4 : Text → Option Ip4) (marshal : Command → List ℕ) where
  -- Up to the wait: the demand is noted, and streams are asked for.
  unfoldable pub begin_snapshot : CameraRuntime → ℕ → Bool → Step × Look
  begin_snapshot rt now false =
      let started = start parse_ip4 rt now in (started, take_look started.0 now)
  begin_snapshot rt now true =
      let started = start parse_ip4 rt now in
      let demanded = record started.0 { last_snapshot_demand = some now } in
      let look = take_look demanded now in
      let asked = request_streams marshal demanded now false false in
      let recovered = recover_video_for_client marshal asked.0 now in
      if is_good look
      then ((asked.0, started.1 ++ asked.1), look)
      else ((recovered.0, started.1 ++ (asked.1 ++ recovered.1)), look)

-- From the first look to the answer, at the time `later`.
unfoldable pub finish_snapshot : (List ℕ → List ℕ) → Bool → ℕ → Look → List Round → ℕ → Picture
finish_snapshot output force now look rounds later =
    answer output later
      (if force && not (is_good look) then wait_for_frame (now + 5 * second) rounds look else look)

is_good-filled : (look : Look) → is_good look ≡ true → is_empty look.frame ≡ false
unfolding is_good
is_good-filled look g = ground arith

-- The runtime as a look sees it, and the time of the look.
abbrev pub Sight : Type 0
Sight = CameraRuntime × ℕ

abbrev pub sights : List Round → List Sight
sights rounds = map (λ r. (r.seen, r.looked_at)) rounds

-- A look that needs no waiting, in terms of what it sees.
pub record IsGoodSight (sight : Sight) : Type 0 where
  pub filled : is_empty sight.0.latest_frame ≡ false
  pub recent : since sight.1 sight.0.last_video_at ≤ 8 * second
  pub some_video : is_zero sight.0.last_video_at ≡ false
  pub reachable : is_offline (health sight.0 sight.1).state ≡ false
  pub wanted : is_disabled (health sight.0 sight.1).state ≡ false

take_look-IsGoodSight :
    (sight : Sight) → is_good (take_look sight.0 sight.1) ≡ true → IsGoodSight sight
unfolding is_good take_look
take_look-IsGoodSight sight g = record {
  filled = ground arith;
  recent = ground arith;
  some_video = ground arith;
  reachable = ground arith;
  wanted = ground arith;
}

-- The wait ends with a good look of one of its rounds, if there is one in time.
wait_for_frame-is_good :
    (deadline : ℕ) (before after : List Round) (r : Round) (look : Look)
    → All (λ x. x.tested_at < deadline) before
    → r.tested_at < deadline
    → is_good (take_look r.seen r.looked_at) ≡ true
    → (sight : Sight) × Memᴰ sight (sights (before ++ (r ∷ after)))
      × (is_good (take_look sight.0 sight.1) ≡ true)
      × (wait_for_frame deadline (before ++ (r ∷ after)) look ≡ take_look sight.0 sight.1)
unfolding wait_for_frame
wait_for_frame-is_good deadline [] after r look b t g =
    let early : ltb r.tested_at deadline ≡ true = ground arith in
    ((r.seen, r.looked_at), head refl, g, rw early (rw g refl))
wait_for_frame-is_good deadline (x ∷ before) after r look b t g =
    let early : ltb x.tested_at deadline ≡ true = ground (arith, b.0) in
    elim (Bool-cases (is_good (take_look x.seen x.looked_at))) [
      | inl good ↦ ((x.seen, x.looked_at), head refl, good, rw early (rw good refl))
      | inr bad ↦
          let (sight, there, found, same) =
            wait_for_frame-is_good deadline before after r (take_look x.seen x.looked_at) b.1 t g in
          (sight, tail there, found, rw early (rw bad same))
    ]

module _ (output : List ℕ → List ℕ) where
  answer_good :
      (now : ℕ) (look : Look)
      → is_good look ≡ true
      → is_empty (output look.frame) ≡ false
      → answer output now look ≡ picture (output look.frame) false
  unfolding answer is_good
  answer_good now look g o = ground arith

  -- A forced request for a picture, whose first look is at the runtime `rt` at the time `now`, is answered with
  -- a picture that is not marked as stale and is drawn from the latest frame of `rt` or of what one of the
  -- rounds of its wait sees, a frame that came at most eight seconds before that look, on a camera neither
  -- offline nor disabled; if one round makes such a look, that round and those before it begin within the five
  -- seconds of the wait, and drawing on a frame gives nothing only for an empty one.
  pub finish_snapshot_fresh :
      (now : ℕ) (rt : CameraRuntime) (before after : List Round) (r : Round) (later : ℕ)
      → ((frame : List ℕ) → is_empty (output frame) ≡ is_empty frame)
      → All (λ x. x.tested_at < now + 5 * second) before
      → r.tested_at < now + 5 * second
      → is_good (take_look r.seen r.looked_at) ≡ true
      → (sight : Sight) × Memᴰ sight ((rt, now) ∷ sights (before ++ (r ∷ after)))
        × IsGoodSight sight
        × (finish_snapshot output true now (take_look rt now) (before ++ (r ∷ after)) later
            ≡ picture (output sight.0.latest_frame) false)
  unfolding finish_snapshot take_look
  finish_snapshot_fresh now rt before after r later draws b t g =
      elim (Bool-cases (is_good (take_look rt now))) [
        | inl good ↦ (
          (rt, now),
          head refl,
          take_look-IsGoodSight (rt, now) good,
          rw good (answer_good later (take_look rt now) good (drawn (take_look rt now) good)),
        )
        | inr bad ↦
            let (sight, there, good, same) =
              wait_for_frame-is_good (now + 5 * second) before after r (take_look rt now) b t g in
            let look = take_look sight.0 sight.1 in
            (
              sight,
              tail there,
              take_look-IsGoodSight sight good,
              rw bad (rw same (answer_good later look good (drawn look good))),
            )
      ]
    where
      drawn : (l : Look) → is_good l ≡ true → is_empty (output l.frame) ≡ false
      drawn l good = draws l.frame ∙ is_good-filled l good

  -- A picture is never that of a disabled camera, and what it is drawn from is a frame that was fresh
  -- when it was looked at, or that came at most 75 s before the answer; it goes unmarked
  -- only if it was fresh and the camera not offline.
  pub answer-IsShown :
      (now : ℕ) (look : Look) (frame : List ℕ) (marked : Bool)
      → answer output now look ≡ picture frame marked
      → (is_disabled look.state ≡ false)
        × (is_empty look.frame ≡ false)
        × (frame ≡ output look.frame)
        × ((look.is_fresh || leb (since now look.frame_at) video_hold_window) ≡ true)
        × (marked ≡ (not look.is_fresh || is_offline look.state))
  unfolding answer
  answer-IsShown now look frame marked h = ground arith
