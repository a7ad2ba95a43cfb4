-- ===== src/Video/Awaits.antt =====
-- What a frame holds while some of its slots are still to come.
use bk7252n_gate.Prelude.{
  ℕ, zero, suc, ◌+◌, ◌≤◌, ◌<◌, ◌≡◌, refl, sym, inl, inr, ◌⊎◌, List, [], ◌∷◌, Bool, true, false,
  Bool-cases, none, some, ltb, ◌==◌, ==_iff, ◌&&◌, ◌||◌, not, if◌then◌else◌, length, arith,
  length-append,
}
use bk7252n_gate.Video.{VideoFrame}
use bk7252n_gate.Video.Slots.{lookup, held}
use bk7252n_gate.Video.Invariant.{IsAssembling, stored, stored-IsAssembling}
use bk7252n_gate.Video.Assembly.{joined}
use bk7252n_gate.Video.Waiting.{HoldsAt}

-- Whether a slot is among those still to come.
abbrev pub is_among : ℕ → List ℕ → Bool
is_among j [] = false
is_among j (r ∷ rs) = (r == j) || is_among j rs

-- The slots are below `n`, and no two are the same.
abbrev pub IsOrder : ℕ → List ℕ → Type 0
IsOrder n [] = Unit
IsOrder n (r ∷ rs) = (r < n) × (is_among r rs ≡ false) × IsOrder n rs

-- `vf` holds the pieces of exactly the slots below `n` that are not still to come.
pub record Awaits (piece : ℕ → List ℕ) (n : ℕ) (rest : List ℕ) (vf : VideoFrame) : Type 0 where
  pub assembling : IsAssembling vf
  pub holds :
      (j : ℕ)
      → lookup j vf.chunks ≡ (if ltb j n && not (is_among j rest) then some (piece j) else none)
  pub reaches : (j : ℕ) → j < n → is_among j rest ≡ false → j ≤ vf.max_slot
  pub low : vf.max_slot < n
  pub top : (vf.max_slot ≡ 0) ⊎ (is_among vf.max_slot rest ≡ false)

pub Awaits-HoldsAt :
    (piece : ℕ → List ℕ) (n : ℕ) (rest : List ℕ) (vf : VideoFrame)
    → Awaits piece n rest vf
    → (j : ℕ) → HoldsAt piece vf.chunks j
Awaits-HoldsAt piece n rest vf a j = elim (Bool-cases (ltb j n && not (is_among j rest))) [
  | inl held ↦ let e = a.holds j in inr (rw held at e)
  | inr free ↦ let e = a.holds j in inl (rw free at e)
]

-- The next packet is stored.
pub stored-Awaits :
    (piece : ℕ → List ℕ) (n r : ℕ) (rs : List ℕ) (vf : VideoFrame)
    → n ≤ 129
    → IsOrder n (r ∷ rs)
    → Awaits piece n (r ∷ rs) vf
    → Awaits piece n rs (stored vf r (piece r))
unfolding stored lookup
stored-Awaits piece n r rs vf small o a = record {
  assembling = stored-IsAssembling vf r (piece r) (omega (arith, o.0)) a.assembling;
  holds = λ j. elim (Bool-cases (r == j)) [
    | inl same ↦
        let e : r ≡ j = (==_iff r j).0 same in
        let below : ltb j n ≡ true = ground (arith, o.0) in
        let gone : is_among j rs ≡ false = rw (sym e) o.1 in rw (same, below, gone) (rw e refl)
    | inr other ↦ let e = a.holds j in rw other (rw other at e)
  ];
  reaches = λ j p q. elim (Bool-cases (r == j)) [
    | inl same ↦ ground arith
    | inr other ↦ let e = a.reaches j p (rw other q) in ground (arith, e)
  ];
  low = ground (arith, o.0, a.low);
  top = elim (Bool-cases (ltb vf.max_slot r)) [
    | inl higher ↦ rw higher (inr o.1)
    | inr lower ↦ rw lower (elim a.top [ inl z ↦ inl z | inr gone ↦ inr (ground (arith, gone)) ])
  ];
}

pub joined-le :
    (piece : ℕ → List ℕ) (i d m : ℕ) → d ≤ m → length (joined piece i d) ≤ length (joined piece i m)
joined-le piece i zero m h = omega arith
joined-le piece i (suc d) zero h = absurd (omega arith)
joined-le piece i (suc d) (suc m) h =
    let a = length-append (piece i) (joined piece (i + 1) d) in
    let b = length-append (piece i) (joined piece (i + 1) m) in
    omega (arith, a, b, joined-le piece (i + 1) d m (omega arith))
