-- ===== src/Runtime/Clients.antt =====
-- `Client`, `sendDropOld`, `enqueueVideoOutput`, `removeVideoClient`, `removeAudioClient` and the
-- fan-out of a frame: a buffered channel is a queue with a capacity.
pub mod Latest
use bk7252n_gate.Prelude.{ℕ, List, [], ◌∷◌, ◌++◌, ltb, ◌==◌, if◌then◌else◌, length, map}
use mathlib.Core.List.{tail}

-- A client is told apart by `id`, its address in the source; `buffer` is its channel.
pub record Client : Type 0 where
  pub id : ℕ
  pub capacity : ℕ
  pub buffer : List (List ℕ)

module _ {ℓ} {A : Type ℓ} where
  -- `select { case ch <- data: return; default: }`, and what is left otherwise.
  unfoldable pub try_send : ℕ → List A → A → List A
  try_send capacity queue x = if ltb (length queue) capacity then queue ++ (x ∷ []) else queue

  unfoldable pub send_drop_old : ℕ → List A → A → List A
  send_drop_old capacity queue x =
      if ltb (length queue) capacity then queue ++ (x ∷ []) else try_send capacity (tail queue) x

unfoldable pub deliver : List ℕ → Client → Client
deliver frame c = record c { buffer = send_drop_old c.capacity c.buffer frame }

-- The loop over `keys(clients)`.
unfoldable pub broadcast : List ℕ → List Client → List Client
broadcast frame clients = map (deliver frame) clients

-- `delete(clients, c)`
unfoldable pub remove_client : ℕ → List Client → List Client
remove_client id [] = []
remove_client id (c ∷ cs) = if c.id == id then remove_client id cs else c ∷ remove_client id cs

-- `make(chan []byte, 8)` for video and 64 for audio.
unfoldable pub add_client : ℕ → ℕ → List Client → List Client
add_client id capacity clients = record { id = id; capacity = capacity; buffer = [] } ∷ clients
