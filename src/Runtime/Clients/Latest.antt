-- ===== src/Runtime/Clients/Latest.antt =====
-- The channel of a client that does not read.
use bk7252n_gate.Prelude.{
  ℕ, ◌+◌, ◌-◌, ◌≤◌, ◌<◌, ◌≡◌, refl, sym, ap, ◌∙◌, List, [], ◌∷◌, ◌++◌, ltb, length, length-append,
  drop, drop_add, drop-append_le, length-drop, arith, Bool-cases, inl, inr, true,
}
use mathlib.Core.List.{tail, append_assoc, append-nil}
use bk7252n_gate.Runtime.Clients.{try_send, send_drop_old}

module _ {ℓ} {A : Type ℓ} where
  -- The queue after all of `xs` have been sent, with nobody reading.
  unfoldable pub send_all : ℕ → List A → List A → List A
  send_all capacity queue [] = queue
  send_all capacity queue (x ∷ xs) = send_all capacity (send_drop_old capacity queue x) xs

  full_queue :
      (capacity : ℕ) (queue : List A) (x : A)
      → 0 < capacity
      → length queue ≡ capacity
      → try_send capacity (tail queue) x ≡ drop 1 (queue ++ (x ∷ []))
  unfolding try_send
  full_queue capacity [] x pos h = absurd (omega arith)
  full_queue capacity (y ∷ q) x pos h =
      let room : ltb (length q) capacity ≡ true = ground arith in rw room refl

  -- What one send leaves of a queue that is not over its capacity.
  send_drop_old_lem :
      (capacity : ℕ) (queue : List A) (x : A)
      → 0 < capacity
      → length queue ≤ capacity
      → send_drop_old capacity queue x ≡ drop (length queue + 1 - capacity) (queue ++ (x ∷ []))
  unfolding send_drop_old
  send_drop_old_lem capacity queue x pos fits = elim (Bool-cases (ltb (length queue) capacity)) [
    | inl room ↦
        let none_lost : length queue + 1 - capacity ≡ 0 = ground arith in rw (room, none_lost) refl
    | inr full ↦
        let is_full : length queue ≡ capacity = ground arith in
        let one_lost : length queue + 1 - capacity ≡ 1 = ground arith in
        rw (full, one_lost) (full_queue capacity queue x pos is_full)
  ]

  length-send_drop_old :
      (capacity : ℕ) (queue : List A) (x : A)
      → 0 < capacity
      → length queue ≤ capacity
      → length (send_drop_old capacity queue x) ≡ length queue + 1 - (length queue + 1 - capacity)
  length-send_drop_old capacity queue x pos fits = omega (
    arith,
    ap length (send_drop_old_lem capacity queue x pos fits),
    length-drop (length queue + 1 - capacity) (queue ++ (x ∷ [])),
    length-append queue (x ∷ []),
  )

  -- With nobody reading, a channel whose capacity is not 0 and not exceeded at first holds the
  -- latest of all that was ever put into it, in order, and as many of them as its capacity
  -- allows.
  pub send_all_latest :
      (capacity : ℕ) (queue xs : List A)
      → 0 < capacity
      → length queue ≤ capacity
      → send_all capacity queue xs ≡ drop (length queue + length xs - capacity) (queue ++ xs)
  unfolding send_all
  send_all_latest capacity queue [] pos fits =
      let none_lost : length queue + 0 - capacity ≡ 0 = omega arith in
      rw none_lost (sym (append-nil queue))
  send_all_latest capacity queue (x ∷ xs) pos fits =
      send_all_latest capacity (send_drop_old capacity queue x) xs pos
        (omega (arith, length-send_drop_old capacity queue x pos fits))
      ∙ ap (λ q. drop (length (send_drop_old capacity queue x) + length xs - capacity) (q ++ xs))
          (send_drop_old_lem capacity queue x pos fits)
      ∙ ap (drop (length (send_drop_old capacity queue x) + length xs - capacity)) (
          drop-append_le lost (queue ++ (x ∷ [])) xs (omega (arith, length-append queue (x ∷ [])))
          ∙ ap (drop lost) (append_assoc queue (x ∷ []) xs))
      ∙ sym (
          drop_add lost (length (send_drop_old capacity queue x) + length xs - capacity)
            (length queue + length (x ∷ xs) - capacity) (queue ++ (x ∷ xs))
            (omega (arith, length-send_drop_old capacity queue x pos fits)))
    where
      lost : ℕ
      lost = length queue + 1 - capacity
