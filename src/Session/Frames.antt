-- ===== src/Session/Frames.antt =====
-- The video frames that a session hands on.
use bk7252n_gate.Prelude.{
  ℕ, zero, suc, ◌≤◌, inl, inr, List, [], ◌∷◌, Bool, true, false, Bool-cases, Option-cases, All,
  All-append, ltb, ◌==◌, length, if◌then◌else◌,
}
use bk7252n_gate.Cipher.{decrypt}
use bk7252n_gate.Packet.{
  Packet, parse_packet, msg_punch, msg_p2p_rdy, msg_alive, msg_alive_ack, msg_close, msg_drw,
  control, drw_ack,
}
use bk7252n_gate.Video.{max_frame}
use bk7252n_gate.Video.Invariant.{IsSound, handle_video-IsSound}
use bk7252n_gate.Session.{
  Addr, Effect, write, on_packet, on_connected, on_video, on_audio, on_command, shut_down, Session,
  Step, accepts_peer, set_remote, send_enc, send_times, send_drw_ack, handle_drw, dispatch,
  handle_packet, receive, run,
}

-- A frame, if it is one, of at most 512 KiB.
abbrev pub IsSmall : Effect → Type 0
IsSmall (on_video frame index) = length frame ≤ max_frame
IsSmall (write d a) = Unit
IsSmall (on_packet p a) = Unit
IsSmall (on_connected a) = Unit
IsSmall (on_audio samples index) = Unit
IsSmall (on_command t) = Unit
IsSmall shut_down = Unit

-- A step that keeps the frame under assembly sound and hands on no frame of more than 512 KiB.
abbrev pub IsTame : Step → Type 0
IsTame r = IsSound r.0.video_frame × All IsSmall r.1

send_enc-IsSmall : (s : Session) (plain : List ℕ) → All IsSmall (send_enc s plain)
unfolding send_enc
send_enc-IsSmall s plain = elim (Option-cases s.remote) [
  | inl e ↦ rw (e, send_enc) tt
  | inr (r, e) ↦ rw (e, send_enc) (tt, tt)
]

send_times-IsSmall : (n : ℕ) (s : Session) (plain : List ℕ) → All IsSmall (send_times n s plain)
unfolding send_times
send_times-IsSmall zero s plain = tt
send_times-IsSmall (suc n) s plain =
    All-append IsSmall (send_enc s plain) (send_times n s plain) (send_enc-IsSmall s plain)
      (send_times-IsSmall n s plain)

if-IsSmall : (b : Bool) (e : Effect) → IsSmall e → All IsSmall (if b then [] else e ∷ [])
if-IsSmall true e h = tt
if-IsSmall false e h = (h, tt)

command-IsSmall : (b : Bool) (t : List ℕ) → All IsSmall (if b then on_command t ∷ [] else [])
command-IsSmall true t = (tt, tt)
command-IsSmall false t = tt

module _ (filter : List ℕ → List ℕ) where
  handle_drw-IsTame :
      (s : Session) (pkt : Packet) → IsSound s.video_frame → IsTame (handle_drw filter s pkt)
  unfolding handle_drw
  handle_drw-IsTame s pkt h = elim (Bool-cases (pkt.channel == 0)) [
    | inl c ↦ rw c (h, command-IsSmall _ _)
    | inr c ↦ elim (Bool-cases (pkt.channel == 1)) [
      | inl d ↦
          let v = handle_video-IsSound s.video_frame pkt h in rw (c, d) (v.0, if-IsSmall _ _ v.1)
      | inr d ↦ elim (Bool-cases (pkt.channel == 2)) [
        | inl e ↦ rw (c, d, e) (h, if-IsSmall _ _ tt)
        | inr e ↦ rw (c, d, e) (h, tt)
      ]
    ]
  ]

  dispatch-IsTame :
      (s : Session) (pkt : Packet) (d : List ℕ) (addr : Addr)
      → IsSound s.video_frame
      → IsTame (dispatch filter s pkt d addr)
  unfolding dispatch send_drw_ack
  dispatch-IsTame s pkt d addr h = elim (Bool-cases (pkt.type == msg_punch)) [
    | inl a ↦ elim (Bool-cases (ltb s.punch_count 5)) [
      | inl low ↦ rw (a, low) (h, (tt, tt))
      | inr full ↦ rw (a, full) (h, tt)
    ]
    | inr a ↦ elim (Bool-cases (pkt.type == msg_p2p_rdy)) [
      | inl b ↦ rw (a, b) (unfold set_remote in h, if-IsSmall _ _ tt)
      | inr b ↦ elim (Bool-cases (pkt.type == msg_alive)) [
        | inl c ↦ rw (a, b, c) (h, send_enc-IsSmall s (control msg_alive_ack))
        | inr c ↦ elim (Bool-cases (pkt.type == msg_close)) [
          | inl e ↦ rw (a, b, c, e) (h, send_times-IsSmall 3 s (control msg_alive))
          | inr e ↦ elim (Bool-cases (pkt.type == msg_drw)) [
            | inl f ↦
                let t = handle_drw-IsTame s pkt h in
                rw (a, b, c, e, f)
                  (
                    t.0,
                    All-append IsSmall _ _
                        (send_times-IsSmall s.ack_repeats s (drw_ack pkt.channel pkt.index)) t.1,
                  )
            | inr f ↦ rw (a, b, c, e, f) (h, tt)
          ]
        ]
      ]
    ]
  ]

  receive-IsTame :
      (s : Session) (d : List ℕ) (addr : Addr)
      → IsSound s.video_frame
      → IsTame (receive filter s d addr)
  unfolding receive handle_packet
  receive-IsTame s d addr h = elim (Bool-cases (accepts_peer s addr)) [
    | inr e ↦ rw e (h, tt)
    | inl e ↦ elim (Option-cases (parse_packet (decrypt d s.key))) [
      | inl f ↦ rw (e, f) (h, tt)
      | inr (pkt, f) ↦ let t = dispatch-IsTame s pkt d addr h in rw (e, f) (t.0, (tt, t.1))
    ]
  ]

  -- Whatever datagrams arrive, from a session with a sound frame under assembly or none, the
  -- frame under assembly is sound or none again, and no frame that is handed on is larger than
  -- 512 KiB.
  pub run-IsTame :
      (s : Session) (traffic : List (List ℕ × Addr))
      → IsSound s.video_frame
      → IsTame (run filter s traffic)
  unfolding run
  run-IsTame s [] h = (h, tt)
  run-IsTame s ((d, addr) ∷ rest) h =
      let r = receive-IsTame s d addr h in
      let more = run-IsTame (receive filter s d addr).0 rest r.0 in
      (more.0, All-append IsSmall _ _ r.1 more.1)
