-- ===== src/Packet.antt =====
-- The PPPP wire format of bkcam-go/main.go: `Packet`, `parsePacket`, the datagrams that
-- `sendDRWPacket` and `sendDRWAck` build, and the frame that `SendCommand` puts into one.
pub mod Wire
pub mod Codec
use bk7252n_gate.Prelude.{
  ℕ, ◌+◌, ◌*◌, ◌/◌, ◌%◌, ◌^◌, List, [], ◌∷◌, ◌++◌, Option, none, some, ◌||◌, not, ltb, leb, ◌==◌,
  if◌then◌else◌, length, drop, get_or,
}
use Wire.{be16, put_be16, put_le32}

abbrev pub mcam : ℕ
mcam = 0xf1

abbrev pub mdrw : ℕ
mdrw = 0xd1

abbrev pub msg_punch : ℕ
msg_punch = 0x41

abbrev pub msg_p2p_rdy : ℕ
msg_p2p_rdy = 0x42

abbrev pub msg_drw : ℕ
msg_drw = 0xd0

abbrev pub msg_drw_ack : ℕ
msg_drw_ack = 0xd1

abbrev pub msg_alive : ℕ
msg_alive = 0xe0

abbrev pub msg_alive_ack : ℕ
msg_alive_ack = 0xe1

abbrev pub msg_close : ℕ
msg_close = 0xf0

pub record Packet : Type 0 where
  pub type : ℕ  -- byte
  pub size : ℕ
  pub channel : ℕ  -- byte
  pub index : ℕ  -- uint16
  pub payload : List ℕ  -- `Data`

-- `none` is the result `(Packet{}, false)`.
unfoldable pub parse_packet : List ℕ → Option Packet
parse_packet b =
    if ltb (length b) 4 || not (get_or b 0 0 == mcam)
    then none
    else (if leb 8 (length b)
        then some (record {
          type = get_or b 1 0;
          size = be16 (get_or b 2 0) (get_or b 3 0);
          channel = get_or b 5 0;
          index = be16 (get_or b 6 0) (get_or b 7 0);
          payload = drop 8 b;
        })
        else some (record {
          type = get_or b 1 0;
          size = be16 (get_or b 2 0) (get_or b 3 0);
          channel = 0;
          index = 0;
          payload = [];
        }))

-- The plain datagram of `sendDRWPacket` with the packet index `idx`.
unfoldable pub drw_packet : ℕ → ℕ → List ℕ → List ℕ
unfolding put_be16
drw_packet channel idx payload =
    mcam
    ∷ msg_drw
    ∷ (put_be16 ((length payload + 4) % 2 ^ 16) ++ (mdrw ∷ channel ∷ (put_be16 idx ++ payload)))

-- The plain datagram of `sendDRWAck`.
unfoldable pub drw_ack : ℕ → ℕ → List ℕ
drw_ack channel index =
    mcam ∷ msg_drw_ack ∷ 0 ∷ 6 ∷ mdrw ∷ channel ∷ 0 ∷ 1 ∷ (index / 256 % 256) ∷ (index % 256) ∷ []

-- The four-byte control messages, as `[]byte{mcam, kind, 0, 0}`.
unfoldable pub control : ℕ → List ℕ
control kind = mcam ∷ kind ∷ 0 ∷ 0 ∷ []

-- What `SendCommand` makes of the JSON text `b`.
unfoldable pub command_frame : List ℕ → List ℕ
unfolding put_le32
command_frame b = 0x06 ∷ 0x0a ∷ 0xa0 ∷ 0x80 ∷ (put_le32 (length b % 2 ^ 32) ++ b)
