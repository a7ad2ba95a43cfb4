-- ===== src/Examples/Wire.antt =====
-- The cipher, the packets and the session on concrete datagrams.
use mathlib.Core.List.{Permᴰ}
use bk7252n_gate.Prelude.{
  ℕ, is_empty, text_eq, ◌≤◌, ◌≡◌, refl, List, [], ◌∷◌, none, some, All, text, arith, true, false,
}
use bk7252n_gate.Prelude.Int.{pos}
use bk7252n_gate.Cipher.{Key, mask, key_from_psk, encrypt, decrypt}
use bk7252n_gate.Cipher.Table.{IsByte, key_table}
use bk7252n_gate.Cipher.Keys.{key_from_psk-perm}
use bk7252n_gate.Packet.{msg_punch, msg_alive, msg_drw, control, parse_packet, drw_packet}
use bk7252n_gate.Packet.Codec.{receive-send}
use bk7252n_gate.Session.{Addr, Session, accepts_peer, dispatch, handle_packet, receive, run}
use bk7252n_gate.Session.Peers.{IsExpected, from_peer, run-from_peer, run-IsExpected}
use bk7252n_gate.Session.Frames.{IsTame, run-IsTame}
use bk7252n_gate.Session.Punches.{writes, run-writes_unconnected}

abbrev bytes : List ℕ
bytes = 1 ∷ 2 ∷ 255 ∷ []

bytes-IsByte : All IsByte bytes
bytes-IsByte = (omega arith, (omega arith, (omega arith, tt)))

abbrev test_key : Key
test_key = record { k0 = 54; k1 = 202; k2 = 101; k3 = 10 }

-- The first two bytes in the other order.
key_from_psk-perm_example : key_from_psk bytes ≡ key_from_psk (2 ∷ 1 ∷ 255 ∷ [])
key_from_psk-perm_example = key_from_psk-perm (Permᴰ.swap refl refl) bytes-IsByte

-- The same datagram under the cipher.
receive-send_example :
    parse_packet (decrypt (encrypt (drw_packet 1 300 bytes) test_key) test_key)
    ≡ some (record { type = msg_drw; size = 7; channel = 1; index = 300; payload = bytes })
receive-send_example = receive-send test_key 1 300 bytes (omega arith) (omega arith) bytes-IsByte

abbrev peer : Addr
peer = record { ip = text "10.0.0.9"; port = 32108 }

abbrev stranger : Addr
stranger = record { ip = text "10.0.0.66"; port = 32108 }

abbrev idle : Session
idle = record {
  key = test_key;
  ack_repeats = 3;
  closed = false;
  out_index = 0;
  remote = none;
  expected_ip = text "10.0.0.9";
  punch_count = 0;
  is_connected = false;
  video_frame = none;
  audio = record {
    audio = record { index = pos 0; val_pred = pos 0 };
    has_last = false;
    last_index = 0;
  };
}

abbrev connected : Session
connected = record idle { remote = some peer; is_connected = true }

abbrev no_filter : List ℕ → List ℕ
no_filter samples = samples

-- Two hosts that both send.
abbrev traffic : List (List ℕ × Addr)
traffic =
    (encrypt (control msg_punch) test_key, peer)
    ∷ (encrypt (control msg_alive) test_key, stranger)
    ∷ (encrypt (control msg_alive) test_key, peer)
    ∷ []

-- A stranger between two datagrams of the peer.
run-from_peer_example :
    run no_filter connected traffic ≡ run no_filter connected (from_peer peer traffic)
run-from_peer_example = run-from_peer no_filter connected peer traffic refl

-- A session that waits for 10.0.0.9.
run-IsExpected_example : IsExpected (run no_filter idle traffic).0
run-IsExpected_example =
    run-IsExpected no_filter idle traffic (λ remote h ne. absurd (unconnected h))
  where
    unconnected : {a : Addr} → none ≡ some a → ⊥
    unconnected h = cc

stays_unconnected : (run no_filter idle traffic).0.remote ≡ none
unfolding run receive accepts_peer is_empty text_eq parse_packet decrypt encrypt control mask
    key_table dispatch handle_packet
stays_unconnected = refl

-- Punches and keep-alives before the session has a peer.
run-writes_unconnected_example : writes (run no_filter idle traffic).1 ≤ 5
run-writes_unconnected_example =
    run-writes_unconnected no_filter idle traffic refl stays_unconnected

-- The same datagrams: a session that holds no frame.
run-IsTame_example : IsTame (run no_filter connected traffic)
run-IsTame_example = run-IsTame no_filter connected traffic tt
