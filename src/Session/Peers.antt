-- ===== src/Session/Peers.antt =====
-- Whom a session listens to.
use bk7252n_gate.Prelude.{
  ℕ, ◌≡◌, ◌≢◌, refl, sym, ap, ◌∙◌, ◌⊎◌, inl, inr, List, [], ◌∷◌, ◌++◌, Bool, true, false,
  Bool-cases, Option-cases, some, ◌||◌, text_eq→eq, is_empty, if◌then◌else◌, arith,
}
use bk7252n_gate.Cipher.{decrypt}
use bk7252n_gate.Packet.{Packet, parse_packet}
use bk7252n_gate.Session.{
  Addr, Session, same_addr, accepts_peer, set_remote, handle_drw, dispatch, handle_packet, receive,
  run,
}

same_addr→eq : (a b : Addr) → same_addr a b ≡ true → a ≡ b
unfolding same_addr
same_addr→eq a b h = λ i. record { ip = ips i; port = ports i }
  where
    ips : a.ip ≡ b.ip
    ips = text_eq→eq a.ip b.ip (ground arith)

    ports : a.port ≡ b.port
    ports = ground arith

-- The datagrams that come from `remote`.
unfoldable pub from_peer : Addr → List (List ℕ × Addr) → List (List ℕ × Addr)
from_peer remote [] = []
from_peer remote ((d, addr) ∷ rest) =
    if same_addr addr remote then (d, addr) ∷ from_peer remote rest else from_peer remote rest

-- If the session has a peer, and an address was configured, the peer has that address.
abbrev pub IsExpected : Session → Type 0
IsExpected s =
    (remote : Addr) → s.remote ≡ some remote → s.expected_ip ≢ [] → remote.ip ≡ s.expected_ip

some_inj : {a b : Addr} → some a ≡ some b → a ≡ b
some_inj h = cc

not_empty : {b : Bool} (t : List ℕ) → t ≢ [] → (is_empty t || b) ≡ true → b ≡ true
unfolding is_empty
not_empty [] ne h = absurd (ne refl)
not_empty (x ∷ t) ne h = h

module _ (filter : List ℕ → List ℕ) where
  handle_drw-remote :
      (s : Session) (pkt : Packet)
      → ((handle_drw filter s pkt).0.remote ≡ s.remote)
        × ((handle_drw filter s pkt).0.expected_ip ≡ s.expected_ip)
  unfolding handle_drw
  handle_drw-remote s pkt = ground arith

  dispatch-remote :
      (s : Session) (pkt : Packet) (d : List ℕ) (addr : Addr)
      → (((dispatch filter s pkt d addr).0.remote ≡ s.remote)
          ⊎ ((dispatch filter s pkt d addr).0.remote ≡ some addr))
        × ((dispatch filter s pkt d addr).0.expected_ip ≡ s.expected_ip)
  unfolding dispatch set_remote
  dispatch-remote s pkt d addr = ground (arith, handle_drw-remote s pkt)

  -- A datagram leaves the peer as it was, or its accepted sender becomes the peer.
  receive-remote :
      (s : Session) (d : List ℕ) (addr : Addr)
      → (((receive filter s d addr).0.remote ≡ s.remote)
          ⊎ (((receive filter s d addr).0.remote ≡ some addr) × (accepts_peer s addr ≡ true)))
        × ((receive filter s d addr).0.expected_ip ≡ s.expected_ip)
  unfolding receive handle_packet
  receive-remote s d addr = elim (Bool-cases (accepts_peer s addr)) [
    | inr e ↦ rw e (inl refl, refl)
    | inl e ↦ elim (Option-cases (parse_packet (decrypt d s.key))) [
      | inl f ↦ rw (e, f) (inl refl, refl)
      | inr (pkt, f) ↦
          let h = dispatch-remote s pkt d addr in
          rw (e, f) (elim h.0 [ inl k ↦ inl k | inr k ↦ inr (k, refl) ], h.1)
    ]
  ]

  receive-remote_some :
      (s : Session) (d : List ℕ) (addr remote : Addr)
      → s.remote ≡ some remote
      → (receive filter s d addr).0.remote ≡ some remote
  unfolding accepts_peer
  receive-remote_some s d addr remote h = elim (receive-remote s d addr).0 [
    | inl k ↦ k ∙ h
    | inr (k, ok) ↦ k ∙ ap some (same_addr→eq addr remote (rw h at ok))
  ]

  receive_foreign :
      (s : Session) (d : List ℕ) (addr remote : Addr)
      → s.remote ≡ some remote
      → same_addr addr remote ≡ false
      → receive filter s d addr ≡ (s, [])
  unfolding receive accepts_peer
  receive_foreign s d addr remote h e = rw h (rw e refl)

  -- Once a session has a peer, a run over any datagrams has the state and the effects of the run
  -- over those alone that come from the peer's address and port.
  pub run-from_peer :
      (s : Session) (remote : Addr) (traffic : List (List ℕ × Addr))
      → s.remote ≡ some remote
      → run filter s traffic ≡ run filter s (from_peer remote traffic)
  unfolding run from_peer
  run-from_peer s remote [] h = refl
  run-from_peer s remote ((d, addr) ∷ rest) h = elim (Bool-cases (same_addr addr remote)) [
    | inl own ↦
        let ih =
          run-from_peer (receive filter s d addr).0 remote rest
            (receive-remote_some s d addr remote h) in
        rw own (λ i. ((ih i).0, (receive filter s d addr).1 ++ (ih i).1))
    | inr foreign ↦
        rw (foreign, receive_foreign s d addr remote h foreign) (run-from_peer s remote rest h)
  ]

  accepts_peer-ip :
      (s : Session) (addr : Addr)
      → IsExpected s
      → accepts_peer s addr ≡ true
      → s.expected_ip ≢ []
      → addr.ip ≡ s.expected_ip
  accepts_peer-ip s addr h ok ne = elim (Option-cases s.remote) [
    | inl free ↦
        text_eq→eq addr.ip s.expected_ip
          (not_empty s.expected_ip ne (unfold accepts_peer in rw (free, accepts_peer) at ok))
    | inr (r, e) ↦
        ap (λ (a : Addr). a.ip)
          (same_addr→eq addr r (unfold accepts_peer in rw (e, accepts_peer) at ok))
        ∙ h r e ne
  ]

  receive-IsExpected :
      (s : Session) (d : List ℕ) (addr : Addr)
      → IsExpected s
      → IsExpected (receive filter s d addr).0
  receive-IsExpected s d addr h r e ne =
      let (moved, kept) = receive-remote s d addr in
      let ne' : s.expected_ip ≢ [] = λ z. ne (kept ∙ z) in
      elim moved [
        | inl k ↦ h r (sym k ∙ e) ne' ∙ sym kept
        | inr (k, ok) ↦
            ap (λ (a : Addr). a.ip) (some_inj (sym e ∙ k))
            ∙ accepts_peer-ip s addr h ok ne'
            ∙ sym kept
      ]

  -- If the peer of a session, where it has one and an address is configured, has that address,
  -- then so it is after any traffic: no traffic makes another host the peer.
  pub run-IsExpected :
      (s : Session) (traffic : List (List ℕ × Addr))
      → IsExpected s
      → IsExpected (run filter s traffic).0
  unfolding run
  run-IsExpected s [] h = h
  run-IsExpected s ((d, addr) ∷ rest) h =
      run-IsExpected (receive filter s d addr).0 rest (receive-IsExpected s d addr h)
