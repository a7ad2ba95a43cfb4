-- ===== src/Runtime/Answers.antt =====
-- `parseCommandJSON` of bkcam-go/main.go and `OnCommand` with it: how a camera's answer gets from its datagram to the
-- command that waits for it. `unmarshal` is json.Unmarshal into a map: `none` is an error, `some none` a nil map.
use bk7252n_gate.Prelude.{
  ℕ, ◌+◌, ◌<◌, ◌^◌, ◌%◌, ◌≡◌, ◌∙◌, refl, ap, List, [], ◌∷◌, ◌++◌, true, false, Option, none, some,
  inl, inr, Bool-cases, All, length, ◌==◌, if◌then◌else◌, Text, text, has_prefix, arith,
}
use bk7252n_gate.Prelude.Int.{ℤ, pos, negsuc, eq_ℤ}
use bk7252n_gate.Packet.{Packet, msg_drw, drw_packet, command_frame}
use bk7252n_gate.Packet.Codec.{receive-send}
use bk7252n_gate.Packet.Wire.{put_le32}
use bk7252n_gate.Cipher.{encrypt}
use bk7252n_gate.Cipher.Table.{IsByte}
use bk7252n_gate.Input.{Object, FloatOps, int_from_map}
use bk7252n_gate.Input.Strings.{trim_space}
use bk7252n_gate.Session
use bk7252n_gate.Session.{
  Session, Addr, Effect, on_packet, receive, handle_packet, dispatch, handle_drw, accepts_peer,
  send_drw_ack,
}
use bk7252n_gate.Runtime.{CameraRuntime, Command}
use bk7252n_gate.Runtime.Events.{waiters_of, on_command}
use bk7252n_gate.Runtime.Commands.{send_and_wait, waiting, await, command_with_response}
use bk7252n_gate.Runtime.Commands.Waiters.{send_and_wait-waiting, waiters_of-put, eq_ℤ-refl}

-- From the first opening brace on: strings.Index and the slice
unfoldable pub from_brace : Text → Option Text
from_brace [] = none
from_brace (c ∷ s) = let rest = from_brace s in if c == b'{' then some (c ∷ s) else rest

-- Up to the last closing brace: strings.LastIndex and the slice; none if there is no such brace.
unfoldable pub up_to_brace : Text → Option Text
up_to_brace [] = none
up_to_brace (c ∷ s) = elim (up_to_brace s) [
  | some rest ↦ some (c ∷ rest)
  | none ↦ if c == b'}' then some (c ∷ []) else none
]

unfoldable pub object_text : Text → Option Text
object_text raw = elim (from_brace raw) [ none ↦ none | some s ↦ up_to_brace s ]

module _ {F : Type 0} (unmarshal : Text → Option (Option (Object F))) where
  -- `parseCommandJSON`; `none` is nil.
  unfoldable pub parse_command_json : Text → Option (Object F)
  parse_command_json raw = elim (object_text (trim_space raw)) [
    | none ↦ none
    | some s ↦ elim (unmarshal s) [ none ↦ none | some m ↦ m ]
  ]

  module _ (fl : FloatOps F) where
    -- `OnCommand`, from the text that the session hands over
    unfoldable pub hear : CameraRuntime → ℕ → Text → CameraRuntime × List ℕ
    hear rt now cmd =
        let raw = trim_space cmd in
        on_command rt now raw (int_from_map fl (parse_command_json raw) (text "cmd") (negsuc 0))

    -- What `commandWithResponse` reads of the answer
    unfoldable pub result_of : Text → ℤ
    result_of cmd = int_from_map fl (parse_command_json (trim_space cmd)) (text "result") (pos 0)

-- A send that a `select` with `default` does on a channel of capacity 1.
unfoldable pub offer : {A : Type 0} → A → Option A → Option A
offer resp none = some resp
offer resp (some held) = some held

-- What the channel `ch` holds after the loop over the waiters in `OnCommand`.
unfoldable pub deliver : {A : Type 0} → A → List ℕ → ℕ → Option A → Option A
deliver resp [] ch held = held
deliver resp (w ∷ ws) ch held = deliver resp ws ch (if w == ch then offer resp held else held)

-- The last of the waiters gets the response, on a channel that holds nothing else.
deliver-last :
    {A : Type 0} (resp : A) (ws : List ℕ) (ch : ℕ) (held : Option A)
    → offer resp held ≡ some resp
    → deliver resp (ws ++ (ch ∷ [])) ch held ≡ some resp
unfolding deliver offer
deliver-last resp [] ch held h = let same : ch == ch ≡ true = ground arith in rw (deliver, same) h
deliver-last resp (w ∷ ws) ch held h = elim (Bool-cases (w == ch)) [
  | inl hit ↦ rw (deliver, hit) (rw h (deliver-last resp ws ch (some resp) refl))
  | inr miss ↦ rw (deliver, miss) (deliver-last resp ws ch held h)
]

command_frame-All : (json : List ℕ) → All IsByte json → All IsByte (command_frame json)
unfolding command_frame put_le32
command_frame-All json h = (
  omega arith,
  (
    omega arith,
    (omega arith, (omega arith, (omega arith, (omega arith, (omega arith, (omega arith, h)))))),
  ),
)

-- What the session makes of a datagram of the camera that carries the text `json`.
abbrev answer_packet : ℕ → List ℕ → Packet
answer_packet idx json = record {
  type = msg_drw;
  size = (length (command_frame json) + 4) % 2 ^ 16;
  channel = 0;
  index = idx;
  payload = command_frame json;
}

handle_drw-command :
    (filter : List ℕ → List ℕ) (s : Session) (idx : ℕ) (json : List ℕ)
    → (handle_drw filter s (answer_packet idx json)).1 ≡ Session.on_command json ∷ []
unfolding handle_drw command_frame has_prefix put_le32
handle_drw-command filter s idx json = ground arith

receive-command :
    (filter : List ℕ → List ℕ) (s : Session) (addr : Addr) (idx : ℕ) (json : List ℕ)
    → accepts_peer s addr ≡ true
    → idx < 2 ^ 16
    → All IsByte json
    → (receive filter s (encrypt (drw_packet 0 idx (command_frame json)) s.key) addr).1
      ≡ on_packet (answer_packet idx json) addr
        ∷ (send_drw_ack s 0 idx ++ (Session.on_command json ∷ []))
unfolding receive handle_packet dispatch
receive-command filter s addr idx json accepted small bytes =
    rw
      (
        accepted,
        receive-send s.key 0 idx (command_frame json) (omega arith) small
            (command_frame-All json bytes),
      )
      (ap (λ l. on_packet (answer_packet idx json) addr ∷ (send_drw_ack s 0 idx ++ l))
        (handle_drw-command filter s idx json))

module _ {F : Type 0} (unmarshal : Text → Option (Option (Object F))) (fl : FloatOps F)
    (marshal : Command → List ℕ) (filter : List ℕ → List ℕ) where
  -- The command that was sent, its channel, the answer's text, and the number of a command in it.
  abbrev number_in : List ℕ → ℤ
  number_in json =
      int_from_map fl (parse_command_json unmarshal (trim_space json)) (text "cmd") (negsuc 0)

  woken :
      (rt : CameraRuntime) (c : Command) (ch now : ℕ) (json : List ℕ)
      → (send_and_wait marshal rt c ch).1 ≡ waiting ch
      → number_in json ≡ pos c.cmd
      → (hear unmarshal fl (send_and_wait marshal rt c ch).0.0 now json).1
        ≡ waiters_of (pos c.cmd) rt.command_waiters ++ (ch ∷ [])
  unfolding hear on_command
  woken rt c ch now json waits numbered =
      rw (numbered, send_and_wait-waiting marshal rt c ch waits)
        (waiters_of-put (pos c.cmd) (pos c.cmd) _ rt.command_waiters
          ∙ rw (eq_ℤ-refl (pos c.cmd)) refl)

  command_with_response-answered :
      (rt : CameraRuntime) (c : Command) (ch : ℕ) (result : ℤ)
      (meanwhile : CameraRuntime → CameraRuntime)
      → (send_and_wait marshal rt c ch).1 ≡ waiting ch
      → (command_with_response marshal meanwhile rt c ch (some result)).1
        ≡ (await (meanwhile (send_and_wait marshal rt c ch).0.0) c ch (some result)).1
  unfolding command_with_response
  command_with_response-answered rt c ch result meanwhile waits =
      rw (command_with_response, waits) refl

  -- A command that waits is answered by a datagram of the camera: if the session accepts the sender, and the JSON
  -- in the datagram has the command's number, then the session hands on the text; the runtime wakes the channels
  -- that waited for the same command and at last the command's own; and the command, unless its timeout comes
  -- first, reads the answer from its channel and returns its result, as a success exactly if it is 0.
  pub receive-answers :
      (s : Session) (addr : Addr) (idx : ℕ) (json : List ℕ) (rt : CameraRuntime) (c : Command)
      (ch now : ℕ)
      → accepts_peer s addr ≡ true
      → idx < 2 ^ 16
      → All IsByte json
      → (send_and_wait marshal rt c ch).1 ≡ waiting ch
      → number_in json ≡ pos c.cmd
      → let heard = hear unmarshal fl (send_and_wait marshal rt c ch).0.0 now json in
        let result = result_of unmarshal fl json in
        let returned =
          (command_with_response marshal
            (λ w. (hear unmarshal fl w now json).0)
            rt
            c
            ch
            (deliver result heard.1 ch none)).1 in
        ((front : List Effect) × ((receive filter s
              (encrypt (drw_packet 0 idx (command_frame json)) s.key)
              addr).1
            ≡ front ++ (Session.on_command json ∷ [])))
        × (heard.1 ≡ waiters_of (pos c.cmd) rt.command_waiters ++ (ch ∷ []))
        × (returned.timeout ≡ false)
        × (returned.result ≡ result)
        × (returned.ok ≡ eq_ℤ result (pos 0))
  unfolding await offer
  receive-answers s addr idx json rt c ch now accepted small bytes waits numbered =
      let all = woken rt c ch now json waits numbered in
      let read : deliver (result_of unmarshal fl json)
            (hear unmarshal fl (send_and_wait marshal rt c ch).0.0 now json).1 ch none
          ≡ some (result_of unmarshal fl json) =
        rw all (deliver-last _ (waiters_of (pos c.cmd) rt.command_waiters) ch none refl) in
      let answered =
        command_with_response-answered rt c ch (result_of unmarshal fl json)
          (λ w. (hear unmarshal fl w now json).0) waits in
      (
        (
          on_packet (answer_packet idx json) addr ∷ send_drw_ack s 0 idx,
          receive-command filter s addr idx json accepted small bytes,
        ),
        all,
        rw (read, answered) refl,
        rw (read, answered) refl,
        rw (read, answered) refl,
      )
