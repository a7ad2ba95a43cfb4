-- ===== src/Video/Slots.antt =====
-- The map from slots to chunks of a video frame.
use bk7252n_gate.Prelude.{ℕ, ◌+◌, List, [], ◌∷◌, Option, none, some, ◌==◌, if◌then◌else◌, length}

abbrev pub Chunks : Type 0
Chunks = List (ℕ × List ℕ)

unfoldable pub lookup : ℕ → Chunks → Option (List ℕ)
lookup i [] = none
lookup i ((j, chunk) ∷ m) = if j == i then some chunk else lookup i m

-- The bytes held, all slots together.
unfoldable pub held : Chunks → ℕ
held [] = 0
held ((j, chunk) ∷ m) = length chunk + held m
