-- ===== src/Examples/Answers.antt =====
-- A command of a connected camera, from the request to the datagram that answers it.
use bk7252n_gate.Prelude.{
  ℕ, ◌≡◌, ◌++◌, refl, List, [], ◌∷◌, false, Option, none, some, text, text_eq, Text, arith,
}
use bk7252n_gate.Prelude.Int.{pos, eq_ℤ}
use bk7252n_gate.Packet.{drw_packet, command_frame}
use bk7252n_gate.Cipher.{encrypt}
use bk7252n_gate.Input.{Object, int, int_from_map, value_int_or, as_int_value, find_key}
use bk7252n_gate.Input.Strings.{trim_space, drop_spaces, is_space}
use bk7252n_gate.Session
use bk7252n_gate.Session.{Addr, Effect, receive, accepts_peer, same_addr}
use bk7252n_gate.Runtime.{is_zero, send_on}
use bk7252n_gate.Runtime.Events.{waiters_of}
use bk7252n_gate.Runtime.Lifecycle.{new_camera_runtime}
use bk7252n_gate.Runtime.Commands.{send_and_wait, command_with_response}
use bk7252n_gate.Runtime.Answers.{
  from_brace, up_to_brace, object_text, parse_command_json, hear, result_of, deliver,
  receive-answers,
}
use bk7252n_gate.Examples.Requests.{no_floats}
use bk7252n_gate.Examples.Cameras.{link, waited, get_params, no_json}

abbrev camera_addr : Addr
camera_addr = record { ip = text "10.0.0.9"; port = 32108 }

abbrev answer_text : Text
answer_text = text "{}"

-- A JSON that reads the answer of command 100.
abbrev reading : Text → Option (Option (Object ℕ))
reading s = some (some ((text "cmd", int (pos 100)) ∷ (text "result", int (pos 0)) ∷ []))

receive-answers_example :
    let heard =
      hear reading no_floats (send_and_wait no_json waited get_params 4).0.0 7 answer_text in
    let result = result_of reading no_floats answer_text in
    let returned =
      (command_with_response no_json
        (λ w. (hear reading no_floats w 7 answer_text).0)
        waited
        get_params
        4
        (deliver result heard.1 4 none)).1 in
    ((front : List Effect) × ((receive
          (λ pcm. pcm)
          link
          (encrypt (drw_packet 0 9 (command_frame answer_text)) link.key)
          camera_addr).1
        ≡ front ++ (Session.on_command answer_text ∷ [])))
    × (heard.1 ≡ waiters_of (pos 100) waited.command_waiters ++ (4 ∷ []))
    × (returned.timeout ≡ false)
    × (returned.result ≡ result)
    × (returned.ok ≡ eq_ℤ result (pos 0))
unfolding accepts_peer same_addr text_eq send_and_wait send_on is_zero new_camera_runtime
    int_from_map parse_command_json trim_space drop_spaces is_space object_text from_brace
    up_to_brace value_int_or as_int_value find_key
receive-answers_example =
    receive-answers reading no_floats no_json (λ pcm. pcm) link camera_addr 9 answer_text waited
      get_params 4 7 refl (omega arith) (omega arith, (omega arith, tt)) refl refl
