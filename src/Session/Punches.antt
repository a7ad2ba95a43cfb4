-- ===== src/Session/Punches.antt =====
-- What an unconnected session sends.
use bk7252n_gate.Prelude.{
  ℕ, zero, suc, ◌+◌, ◌≤◌, ◌≡◌, refl, inl, inr, List, [], ◌∷◌, ◌++◌, Bool-cases, Option-cases, none,
  arith,
}
use bk7252n_gate.Cipher.{decrypt}
use bk7252n_gate.Packet.{Packet, parse_packet, msg_alive, msg_alive_ack, control, drw_ack}
use bk7252n_gate.Session.{
  Addr, Effect, write, on_packet, on_connected, on_video, on_audio, on_command, shut_down, Session,
  Step, accepts_peer, set_remote, send_enc, send_times, send_drw_ack, handle_drw, dispatch,
  handle_packet, receive, run,
}

-- The datagrams among the effects.
unfoldable pub writes : List Effect → ℕ
writes [] = 0
writes (write d a ∷ es) = suc (writes es)
writes (_ ∷ es) = writes es

send_enc_alone : (s : Session) (plain : List ℕ) → s.remote ≡ none → send_enc s plain ≡ []
unfolding send_enc
send_enc_alone s plain h = rw (h, send_enc) refl

send_times_alone :
    (n : ℕ) (s : Session) (plain : List ℕ) → s.remote ≡ none → send_times n s plain ≡ []
unfolding send_times
send_times_alone zero s plain h = refl
send_times_alone (suc n) s plain h = rw (send_enc_alone s plain h) (send_times_alone n s plain h)

writes-append : (xs ys : List Effect) → writes (xs ++ ys) ≡ writes xs + writes ys
unfolding writes
writes-append [] ys = omega arith
writes-append (write d a ∷ xs) ys = omega (arith, writes-append xs ys)
writes-append (on_packet p a ∷ xs) ys = writes-append xs ys
writes-append (on_connected a ∷ xs) ys = writes-append xs ys
writes-append (on_video f i ∷ xs) ys = writes-append xs ys
writes-append (on_audio f i ∷ xs) ys = writes-append xs ys
writes-append (on_command t ∷ xs) ys = writes-append xs ys
writes-append (shut_down ∷ xs) ys = writes-append xs ys

module _ (filter : List ℕ → List ℕ) where
  handle_drw-writes :
      (s : Session) (pkt : Packet)
      → (writes (handle_drw filter s pkt).1 ≡ 0)
        × ((handle_drw filter s pkt).0.punch_count ≡ s.punch_count)
        × ((handle_drw filter s pkt).0.remote ≡ s.remote)
  unfolding handle_drw writes
  handle_drw-writes s pkt = ground arith

  -- What a step of an unconnected session sends, counted in its punches.
  abbrev IsCounted : Session → Step → Type 0
  IsCounted s r =
      r.0.remote ≡ none → (s.remote ≡ none) × (writes r.1 + s.punch_count ≡ r.0.punch_count)

  dispatch-IsCounted :
      (s : Session) (pkt : Packet) (d : List ℕ) (addr : Addr)
      → IsCounted s (dispatch filter s pkt d addr)
  unfolding dispatch writes set_remote send_drw_ack
  dispatch-IsCounted s pkt d addr h = ground (
    arith,
    handle_drw-writes s pkt,
    send_enc_alone s (control msg_alive_ack),
    send_times_alone 3 s (control msg_alive),
    send_times_alone s.ack_repeats s (drw_ack pkt.channel pkt.index),
  )

  dispatch-punch_count :
      (s : Session) (pkt : Packet) (d : List ℕ) (addr : Addr)
      → s.punch_count ≤ 5
      → (dispatch filter s pkt d addr).0.punch_count ≤ 5
  unfolding dispatch set_remote
  dispatch-punch_count s pkt d addr h = ground (arith, handle_drw-writes s pkt)

  receive-IsCounted :
      (s : Session) (d : List ℕ) (addr : Addr) → IsCounted s (receive filter s d addr)
  unfolding receive handle_packet writes
  receive-IsCounted s d addr = elim (Bool-cases (accepts_peer s addr)) [
    | inr e ↦ rw e (λ h. (h, omega arith))
    | inl e ↦ elim (Option-cases (parse_packet (decrypt d s.key))) [
      | inl f ↦ rw (e, f) (λ h. (h, omega arith))
      | inr (pkt, f) ↦ rw (e, f) (dispatch-IsCounted s pkt d addr)
    ]
  ]

  receive-punch_count :
      (s : Session) (d : List ℕ) (addr : Addr)
      → s.punch_count ≤ 5
      → (receive filter s d addr).0.punch_count ≤ 5
  unfolding receive handle_packet
  receive-punch_count s d addr h = elim (Bool-cases (accepts_peer s addr)) [
    | inr e ↦ rw e h
    | inl e ↦ elim (Option-cases (parse_packet (decrypt d s.key))) [
      | inl f ↦ rw (e, f) h
      | inr (pkt, f) ↦ rw (e, f) (dispatch-punch_count s pkt d addr h)
    ]
  ]

  run-IsCounted :
      (s : Session) (traffic : List (List ℕ × Addr))
      → s.punch_count ≤ 5
      → ((run filter s traffic).0.punch_count ≤ 5) × IsCounted s (run filter s traffic)
  unfolding run writes
  run-IsCounted s [] h = (h, λ k. (k, omega arith))
  run-IsCounted s ((d, addr) ∷ rest) h =
      let r = receive filter s d addr in
      let (low, counted) = run-IsCounted r.0 rest (receive-punch_count s d addr h) in
      (
        low,
        λ k. (
          (receive-IsCounted s d addr (counted k).0).0,
          omega (
            arith,
            writes-append r.1 (run filter r.0 rest).1,
            (counted k).1,
            (receive-IsCounted s d addr (counted k).0).1,
          ),
        ),
      )

  -- Whatever traffic arrives, a session that had answered no punch before it and has no peer after it has sent at
  -- most five datagrams in answer to it. The probes that `discoveryLoop` sends by the clock are not among them.
  pub run-writes_unconnected :
      (s : Session) (traffic : List (List ℕ × Addr))
      → s.punch_count ≡ 0
      → (run filter s traffic).0.remote ≡ none
      → writes (run filter s traffic).1 ≤ 5
  run-writes_unconnected s traffic h k =
      let (low, counted) = run-IsCounted s traffic (omega arith) in omega (arith, (counted k).1)
