-- ===== src/Session.antt =====
-- The session of one camera in bkcam-go/main.go: the type `PPPP`, `acceptsPeer`,
-- `setRemote`, `handlePacket`, `handleDRW`, `sendDRWPacket`, `sendDRWAck`, `sendEnc`, `SendCommand`,
-- `SendAlive`, `Close`, and one round of the loops of `Run` and `discoveryLoop`. A call writes datagrams and
-- runs callbacks: both are returned as a list of effects, in order.
pub mod Peers
pub mod Punches
pub mod Frames
use bk7252n_gate.Prelude.{
  ℕ, zero, suc, ◌+◌, ◌-◌, ◌%◌, ◌^◌, List, [], ◌∷◌, ◌++◌, Bool, true, false, ◌&&◌, ◌||◌, not, Option,
  none, some, ltb, leb, ◌==◌, if◌then◌else◌, length, drop, has_prefix, is_empty, Text, text_eq,
  replicate,
}
use bk7252n_gate.Cipher.{Key, encrypt, decrypt}
use bk7252n_gate.Packet.{
  Packet, msg_punch, msg_p2p_rdy, msg_drw, msg_alive, msg_alive_ack, msg_close, mcam, parse_packet,
  drw_packet, drw_ack, control, command_frame,
}
use bk7252n_gate.Video.{VideoFrame, handle_video}
use bk7252n_gate.Audio.{AudioState, take_frames, parse_audio_frames}

-- `*net.UDPAddr`: the text of the IPv4 address and the port.
pub record Addr : Type 0 where
  pub ip : Text
  pub port : ℕ

pub data Effect : Type 0 where
  write : List ℕ → Addr → Effect  -- WriteToUDP
  on_packet : Packet → Addr → Effect
  on_connected : Addr → Effect
  on_video : List ℕ → ℕ → Effect
  on_audio : List ℕ → ℕ → Effect
  on_command : Text → Effect
  shut_down : Effect  -- the context is cancelled and the socket closed

pub record Session : Type 0 where
  pub key : Key
  pub ack_repeats : ℕ  -- cfg.ackRepeats()
  pub closed : Bool
  pub out_index : ℕ  -- uint32
  pub remote : Option Addr
  pub expected_ip : Text
  pub punch_count : ℕ
  pub is_connected : Bool
  pub video_frame : Option VideoFrame
  pub audio : AudioState

abbrev pub Step : Type 0
Step = Session × List Effect

unfoldable pub same_addr : Addr → Addr → Bool
same_addr a b = text_eq a.ip b.ip && (a.port == b.port)

unfoldable pub accepts_peer : Session → Addr → Bool
accepts_peer s addr = elim s.remote [
  | some remote ↦ same_addr addr remote
  | none ↦ is_empty s.expected_ip || text_eq addr.ip s.expected_ip
]

unfoldable pub set_remote : Session → Addr → Session
set_remote s addr = record s { remote = some addr; is_connected = true }

-- `sendEnc` returns an error while there is no peer.
unfoldable pub send_enc : Session → List ℕ → List Effect
send_enc s plain = elim s.remote [
  | none ↦ []
  | some remote ↦ write (encrypt plain s.key) remote ∷ []
]

unfoldable pub send_times : ℕ → Session → List ℕ → List Effect
send_times zero s plain = []
send_times (suc n) s plain = send_enc s plain ++ send_times n s plain

unfoldable pub send_drw_ack : Session → ℕ → ℕ → List Effect
send_drw_ack s channel index = send_times s.ack_repeats s (drw_ack channel index)

-- The packet index counts modulo 2 ^ 32 and is sent modulo 2 ^ 16.
unfoldable pub send_drw_packet : Session → ℕ → List ℕ → Step
send_drw_packet s channel payload =
    let count = (s.out_index + 1) % 2 ^ 32 in
    let idx = (count + 2 ^ 32 - 1) % 2 ^ 32 % 2 ^ 16 in
    (record s { out_index = count }, send_enc s (drw_packet channel idx payload))

-- `SendCommand`, from the JSON text that it marshals.
unfoldable pub send_command : Session → List ℕ → Step
send_command s json = send_drw_packet s 0 (command_frame json)

unfoldable pub send_alive : Session → List Effect
send_alive s = send_enc s (control msg_alive)

-- `Close`: the second call does nothing.
unfoldable pub close : Session → Step
close s =
    if s.closed
    then (s, [])
    else (record s { closed = true }, send_times 3 s (control msg_close) ++ (shut_down ∷ []))

module _ (filter : List ℕ → List ℕ) where
  -- The three channels; `filter` is `AudioProcessor.Process`, which rewrites the samples in place.
  unfoldable pub handle_drw : Session → Packet → Step
  handle_drw s pkt =
      let v = handle_video s.video_frame pkt in
      let a = take_frames s.audio (parse_audio_frames pkt.payload) in
      if pkt.channel == 0
      then (
        s,
        if has_prefix pkt.payload (0x06 ∷ 0x0a ∷ []) && leb 8 (length pkt.payload)
            then on_command (drop 8 pkt.payload) ∷ []
            else [],
      )
      else (if pkt.channel == 1
          then (
            record s { video_frame = v.0 },
            if is_empty v.1 then [] else on_video v.1 pkt.index ∷ [],
          )
          else (if pkt.channel == 2
              then (
                record s { audio = a.0 },
                if is_empty a.1 then [] else on_audio (filter a.1) pkt.index ∷ [],
              )
              else (s, [])))

  -- The switch of `handlePacket`; `encrypted` is the datagram as it came, which a punch is answered with.
  unfoldable pub dispatch : Session → Packet → List ℕ → Addr → Step
  dispatch s pkt encrypted addr =
      if pkt.type == msg_punch
      then (if ltb s.punch_count 5
          then (record s { punch_count = s.punch_count + 1 }, write encrypted addr ∷ [])
          else (s, []))
      else (if pkt.type == msg_p2p_rdy
          then (set_remote s addr, if s.is_connected then [] else on_connected addr ∷ [])
          else (if pkt.type == msg_alive
              then (s, send_enc s (control msg_alive_ack))
              else (if pkt.type == msg_close
                  then (s, send_times 3 s (control msg_alive))
                  else (if pkt.type == msg_drw
                      then (
                        (handle_drw s pkt).0,
                        send_drw_ack s pkt.channel pkt.index ++ (handle_drw s pkt).1,
                      )
                      else (s, [])))))

  unfoldable pub handle_packet : Session → Packet → List ℕ → Addr → Step
  handle_packet s pkt encrypted addr =
      let r = dispatch s pkt encrypted addr in (r.0, on_packet pkt addr ∷ r.1)

  -- One datagram in the loop of `Run`: the sender, the cipher and the format are checked first.
  unfoldable pub receive : Session → List ℕ → Addr → Step
  receive s datagram addr =
      if accepts_peer s addr
      then elim (parse_packet (decrypt datagram s.key)) [
        | none ↦ (s, [])
        | some pkt ↦ handle_packet s pkt datagram addr
      ]
      else (s, [])

  unfoldable pub run : Session → List (List ℕ × Addr) → Step
  run s [] = (s, [])
  run s ((datagram, addr) ∷ rest) =
      let r = receive s datagram addr in let more = run r.0 rest in (more.0, r.1 ++ more.1)

-- One round of `discoveryLoop`: a search message, until the session is connected.
unfoldable pub discover : Session → Addr → List Effect
discover s target =
    if s.is_connected then [] else write (encrypt (mcam ∷ 0x30 ∷ 0 ∷ 0 ∷ []) s.key) target ∷ []
