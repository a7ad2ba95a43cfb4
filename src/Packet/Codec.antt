-- ===== src/Packet/Codec.antt =====
-- Parsing against building, in the clear and under the cipher.
use bk7252n_gate.Prelude.{
  ℕ, ◌+◌, ◌/◌, ◌%◌, ◌^◌, ◌<◌, ◌≡◌, refl, ap, ◌∙◌, List, [], ◌∷◌, none, some, All, arith, length,
  get_or, ◌↔◌, ◌⊎◌, ◌≢◌,
}
use bk7252n_gate.Cipher.{Key, encrypt, decrypt}
use bk7252n_gate.Cipher.Table.{IsByte}
use bk7252n_gate.Cipher.Stream.{decrypt-encrypt}
use bk7252n_gate.Packet.{mcam, msg_drw, msg_drw_ack, parse_packet, drw_packet, drw_ack}

-- A data datagram parses to its parts, for every channel, 16-bit index and payload; `size` is the
-- length of the payload and 4, modulo 2 ^ 16.
parse_packet-drw_packet :
    (channel idx : ℕ) (payload : List ℕ)
    → idx < 2 ^ 16
    → parse_packet (drw_packet channel idx payload)
      ≡ some (record {
        type = msg_drw;
        size = (length payload + 4) % 2 ^ 16;
        channel = channel;
        index = idx;
        payload = payload;
      })
unfolding parse_packet drw_packet
parse_packet-drw_packet channel idx payload h = ground arith

pub drw_packet-All :
    (channel idx : ℕ) (payload : List ℕ)
    → channel < 256
    → All IsByte payload
    → All IsByte (drw_packet channel idx payload)
unfolding drw_packet
drw_packet-All channel idx payload h p =
    let idx_bytes : All IsByte ((idx / 256 % 256) ∷ (idx % 256) ∷ payload) =
      (omega arith, (omega arith, p)) in
    (omega arith, (omega arith, (omega arith, (omega arith, (omega arith, (h, idx_bytes))))))

-- What the peer that holds the same key reads from an encrypted data datagram is what was sent,
-- for a channel of one byte, an index of 16 bits and a payload of bytes; `size` is the length of
-- the payload and 4, modulo 2 ^ 16.
pub receive-send :
    (key : Key) (channel idx : ℕ) (payload : List ℕ)
    → channel < 256
    → idx < 2 ^ 16
    → All IsByte payload
    → parse_packet (decrypt (encrypt (drw_packet channel idx payload) key) key)
      ≡ some (record {
        type = msg_drw;
        size = (length payload + 4) % 2 ^ 16;
        channel = channel;
        index = idx;
        payload = payload;
      })
receive-send key channel idx payload hc hi hp =
    ap parse_packet (
      decrypt-encrypt key (drw_packet channel idx payload)
        (drw_packet-All channel idx payload hc hp))
    ∙ parse_packet-drw_packet channel idx payload hi

-- A datagram is refused exactly when it is shorter than four bytes or does not start with 0xf1.
parse_packet-none_iff :
    (b : List ℕ) → (parse_packet b ≡ none) ↔ ((length b < 4) ⊎ (get_or b 0 0 ≢ mcam))
unfolding parse_packet
parse_packet-none_iff b = (λ h. ground arith, λ h. ground arith)

-- An acknowledgement parses to a packet of its own type with the channel of the packet that it
-- acknowledges and, as its payload, that packet's index, high byte first.
parse_packet-drw_ack :
    (channel index : ℕ)
    → parse_packet (drw_ack channel index)
      ≡ some (record {
        type = msg_drw_ack;
        size = 6;
        channel = channel;
        index = 1;
        payload = (index / 256 % 256) ∷ (index % 256) ∷ [];
      })
unfolding parse_packet drw_ack
parse_packet-drw_ack channel index = refl
