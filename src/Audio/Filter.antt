-- ===== src/Audio/Filter.antt =====
-- `AudioProcessor.Process` of bkcam-go/main.go: a high-pass and a low-pass filter, a noise gate and a limiter on
-- the samples in place. `F` is `float64`; `Arith` has the operations of it and of package math.
use bk7252n_gate.Prelude.{
  ℕ, ◌+◌, ◌*◌, ◌/◌, ◌%◌, ◌≡◌, refl, List, [], ◌∷◌, Bool, All, length, if◌then◌else◌, ◌||◌, ltb,
  arith, inl, inr, Bool-cases,
}
use bk7252n_gate.Cipher.Table.{IsByte}

pub record Arith (F : Type 0) : Type 0 where
  pub of_int16 : ℕ → F  -- float64(int16(…)) of a 16-bit number
  pub of_len : ℕ → F
  pub add : F → F → F
  pub sub : F → F → F
  pub mul : F → F → F
  pub div : F → F → F
  pub max : F → F → F
  pub lt : F → F → Bool
  pub le : F → F → Bool
  pub sqrt : F → F
  pub cube : F → F
  pub tanh : F → F
  pub to_int16 : F → ℕ  -- uint16(int16(math.Round(…)))

-- The constants of the filter, as `float64`
pub record Settings (F : Type 0) : Type 0 where
  pub zero : F
  pub one : F
  pub highpass_pole : F
  pub lowpass_alpha : F
  pub noise_floor_start : F
  pub gate_min_threshold : F
  pub gate_closed_gain : F
  pub output_gain : F
  pub limiter_ceiling : F
  pub near_floor : F  -- 1.8
  pub near_start : F  -- 1.3
  pub floor_keep : F  -- 0.995
  pub floor_follow : F  -- 0.005
  pub threshold_factor : F  -- 3.0
  pub gate_open : F  -- 0.65
  pub gate_close : F  -- 0.12

pub record AudioProcessor (F : Type 0) : Type 0 where
  pub prev_input : F
  pub prev_output : F
  pub lowpass : F
  pub gate_gain : F
  pub noise_floor : F

module _ {F : Type 0} (a : Arith F) (c : Settings F) where
  -- The two filters on one sample
  unfoldable pub filter_sample : AudioProcessor F → ℕ → AudioProcessor F
  filter_sample p sample =
      let x = a.of_int16 sample in
      let y = a.add (a.sub x p.prev_input) (a.mul c.highpass_pole p.prev_output) in
      record p {
        prev_input = x;
        prev_output = y;
        lowpass = a.add p.lowpass (a.mul c.lowpass_alpha (a.sub y p.lowpass));
      }

  -- The loop over the samples: the processor, the filtered samples and the energy.
  unfoldable pub filter_samples : AudioProcessor F → List ℕ → F → AudioProcessor F × List F × F
  filter_samples p [] energy = (p, [], energy)
  filter_samples p (low ∷ []) energy = (p, [], energy)
  filter_samples p (low ∷ high ∷ pcm) energy =
      let q = filter_sample p (low + 256 * high) in
      let rest = filter_samples q pcm (a.add energy (a.mul q.lowpass q.lowpass)) in
      (rest.0, q.lowpass ∷ rest.1, rest.2)

  -- `p.noiseFloor` for the energy of a block
  unfoldable pub follow_noise : F → F → F
  follow_noise noise_floor rms =
      let level = if a.le noise_floor c.zero then c.noise_floor_start else noise_floor in
      if a.lt rms (a.mul level c.near_floor) || a.lt rms (a.mul c.noise_floor_start c.near_start)
      then a.add (a.mul c.floor_keep level) (a.mul c.floor_follow rms)
      else level

  unfoldable pub target_gate : F → F → F
  target_gate noise_floor rms =
      let threshold = a.max c.gate_min_threshold (a.mul noise_floor c.threshold_factor) in
      let ratio = a.div rms threshold in
      let target =
        a.add c.gate_closed_gain (a.mul (a.sub c.one c.gate_closed_gain) (a.cube ratio)) in
      if a.lt rms threshold
      then (if a.lt target c.gate_closed_gain then c.gate_closed_gain else target)
      else c.one

  unfoldable pub move_gate : F → F → F
  move_gate gate_gain target =
      if a.le gate_gain c.zero
      then target
      else a.add gate_gain (
          a.mul (a.sub target gate_gain)
            (if a.lt gate_gain target then c.gate_open else c.gate_close))

  unfoldable pub limit : F → F → ℕ
  limit gain sample =
      let y = a.mul sample gain in
      a.to_int16 (a.mul c.limiter_ceiling (a.tanh (a.div y c.limiter_ceiling)))

  -- The loop that writes the samples back; a byte behind the last sample stays.
  unfoldable pub write_samples : F → List F → List ℕ → List ℕ
  write_samples gain [] pcm = pcm
  write_samples gain (sample ∷ samples) [] = []
  write_samples gain (sample ∷ samples) (low ∷ []) = low ∷ []
  write_samples gain (sample ∷ samples) (low ∷ high ∷ pcm) =
      let y = limit gain sample in y % 256 ∷ (y / 256 % 256) ∷ write_samples gain samples pcm

  unfoldable pub process : AudioProcessor F → List ℕ → AudioProcessor F × List ℕ
  process p pcm =
      let r = filter_samples p pcm c.zero in
      let rms = a.sqrt (a.div r.2 (a.of_len (length r.1))) in
      let noise_floor = follow_noise p.noise_floor rms in
      let gate_gain = move_gate p.gate_gain (target_gate noise_floor rms) in
      let gain = a.mul c.output_gain gate_gain in
      if ltb (length pcm) 2 then (p, pcm) else (
        record r.0 { gate_gain = gate_gain; noise_floor = noise_floor },
        write_samples gain r.1 pcm,
      )

  write_samples-IsPcm :
      (gain : F) (samples : List F) (pcm : List ℕ)
      → All IsByte pcm
      → All IsByte (write_samples gain samples pcm)
        × (length (write_samples gain samples pcm) ≡ length pcm)
  unfolding write_samples
  write_samples-IsPcm gain [] pcm h = (h, refl)
  write_samples-IsPcm gain (sample ∷ samples) [] h = (tt, refl)
  write_samples-IsPcm gain (sample ∷ samples) (low ∷ []) h = (h, refl)
  write_samples-IsPcm gain (sample ∷ samples) (low ∷ high ∷ pcm) h =
      let rest = write_samples-IsPcm gain samples pcm h.1.1 in
      ((omega arith, (omega arith, rest.0)), omega (arith, rest.1))

  -- The filter gives as many bytes as it gets, bytes again: the sound keeps its length, whatever the floats do.
  pub process-IsPcm :
      (p : AudioProcessor F) (pcm : List ℕ)
      → All IsByte pcm
      → All IsByte (process p pcm).1 × (length (process p pcm).1 ≡ length pcm)
  unfolding process
  process-IsPcm p pcm h = elim (Bool-cases (ltb (length pcm) 2)) [
    | inl short ↦ rw short (h, refl)
    | inr long ↦ rw long (write_samples-IsPcm _ _ pcm h)
  ]
