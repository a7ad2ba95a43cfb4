-- ===== src/Runtime/Cooldown/Nudges.antt =====
-- `nudgeStreams` twice in a row.
use bk7252n_gate.Prelude.{
  ℕ, ◌+◌, ◌<◌, ◌≡◌, refl, inl, inr, [], true, false, Bool-cases, some, Option-cases, ltb, arith,
}
use bk7252n_gate.Runtime.{CameraRuntime, since, is_zero, media_nudge_cooldown}
use bk7252n_gate.Runtime.Streams.{nudge_streams}

nudge_cooling :
    (rt : CameraRuntime) (at now : ℕ)
    → rt.last_media_nudge ≡ some at
    → now < at + media_nudge_cooldown
    → nudge_streams rt now ≡ ((rt, []), false)
unfolding nudge_streams
nudge_cooling rt at now h k =
    let timed : is_zero rt.last_media_nudge ≡ false = unfold is_zero in rw h refl in
    let cool : ltb (since now rt.last_media_nudge) media_nudge_cooldown ≡ true =
      unfold since in rw h (ground arith) in
    rw (timed, cool)
      (elim (Option-cases rt.pppp) [
        | inl e ↦ rw e refl
        | inr (pp, e) ↦
            rw e (elim (Bool-cases (is_zero rt.connected_at)) [
              | inl z ↦ rw z refl
              | inr z ↦ rw z refl
            ])
      ])

nudged_at :
    (rt : CameraRuntime) (now : ℕ)
    → (nudge_streams rt now).1 ≡ true
    → (nudge_streams rt now).0.0.last_media_nudge ≡ some now
unfolding nudge_streams
nudged_at rt now h = ground arith

-- After a media nudge that went out, another within eight seconds is refused, sends nothing and
-- changes nothing.
nudge_streams_twice :
    (rt : CameraRuntime) (now now' : ℕ)
    → (nudge_streams rt now).1 ≡ true
    → now' < now + media_nudge_cooldown
    → nudge_streams (nudge_streams rt now).0.0 now' ≡ (((nudge_streams rt now).0.0, []), false)
nudge_streams_twice rt now now' h k =
    nudge_cooling (nudge_streams rt now).0.0 now now' (nudged_at rt now h) k
