-- ===== src/Files/Atomic.antt =====
-- The configuration file is replaced as a whole or not at all, at whatever point the program stops.
use bk7252n_gate.Prelude.{
  ℕ, ◌≡◌, ◌≢◌, refl, ◌∙◌, ap, ◌⊎◌, inl, inr, List, [], ◌∷◌, ◌++◌, Bool, true, false, Option, none,
  some, Bool-cases, length, length-append, All, if◌then◌else◌, Text, text, arith,
}
use bk7252n_gate.Pages.{sprintf, sprintf_from, decimal}
use bk7252n_gate.Files.{
  Config, Disk, IsDisk, Json, fallback, read_config, load_config, tmp_path, replace_file,
  write_config, save_config, last_or,
}

-- The temporary file is another one.
tmp_path-ne : (path : Text) (pid : ℕ) → tmp_path path pid ≢ path
unfolding tmp_path sprintf sprintf_from
tmp_path-ne path pid e =
    omega (arith, ap length e, length-append path (b'.' ∷ (decimal pid ++ text ".tmp")))

module _ {D : Type 0} (disk : Disk D) (laws : IsDisk disk) (json : Json) (path : Text)
    (config : Config) where
  -- The file is the new text of the configuration.
  abbrev pub IsNew : D → Type 0
  IsNew e =
      (b : Text) × (json.marshal_indent config ≡ some b)
      × (disk.read_file e path ≡ some (b ++ (10 ∷ [])))

  -- The file is as in the state `d`.
  abbrev pub IsOld : D → D → Type 0
  IsOld d e = disk.read_file e path ≡ disk.read_file d path

  abbrev pub IsIntact : D → D → Type 0
  IsIntact d e = IsOld d e ⊎ IsNew e

  -- Every state on the way is intact, and the last one is the one that the result tells.
  abbrev pub Replaces : D → List D × Bool → Type 0
  Replaces d r =
      All (IsIntact d) r.0 × (if r.1 then IsNew (last_or d r.0) else IsOld d (last_or d r.0))

  replace_file-Replaces :
      (d : D) (pid : ℕ) (b : Text)
      → json.marshal_indent config ≡ some b
      → Replaces d (replace_file disk d path (tmp_path path pid) (b ++ (10 ∷ [])))
  unfolding replace_file
  replace_file-Replaces d pid b h =
      let tmp = tmp_path path pid in
      let new = b ++ (10 ∷ []) in
      let w = disk.write_file d tmp new in
      let kept : disk.read_file w.0 path ≡ disk.read_file d path =
        laws.read-write_other d tmp path new (tmp_path-ne path pid) in
      elim (Bool-cases w.1) [
        | inr failed ↦ rw failed ((inl kept, tt), kept)
        | inl written ↦ elim (Bool-cases (disk.rename w.0 tmp path).1) [
          | inr failed ↦
              let same = laws.read-rename_failed w.0 tmp path path failed ∙ kept in
              rw (written, failed) ((inl kept, (inl same, tt)), same)
          | inl renamed ↦
              let there : IsNew (disk.rename w.0 tmp path).0 =
                (b, h, laws.read-rename w.0 tmp path renamed ∙ laws.read-write d tmp new written) in
              rw (written, renamed) ((inl kept, (inr there, tt)), there)
        ]
      ]

  All-IsIntact :
      (d e : D) (states : List D)
      → disk.read_file e path ≡ disk.read_file d path
      → All (IsIntact e) states
      → All (IsIntact d) states
  All-IsIntact d e [] k h = tt
  All-IsIntact d e (s ∷ states) k (inl old, h) = (inl (old ∙ k), All-IsIntact d e states k h)
  All-IsIntact d e (s ∷ states) k (inr new, h) = (inr new, All-IsIntact d e states k h)

  -- A step before that leaves the file alone.
  Replaces-after :
      (d e : D) (r : List D × Bool)
      → disk.read_file e path ≡ disk.read_file d path
      → Replaces e r
      → Replaces d (e ∷ r.0, r.1)
  Replaces-after d e (states, true) k (h, end) = ((inl k, All-IsIntact d e states k h), end)
  Replaces-after d e (states, false) k (h, end) = ((inl k, All-IsIntact d e states k h), end ∙ k)

  write_config-Replaces :
      (d : D) (pid : ℕ) (o : Option Text)
      → json.marshal_indent config ≡ o
      → Replaces d (write_config disk json d path pid o)
  unfolding write_config
  write_config-Replaces d pid none h = (tt, refl)
  write_config-Replaces d pid (some b) h = replace_file-Replaces d pid b h

  -- Saving replaces the configuration file as a whole or not at all: in every state on the way the file
  -- holds what it held or all of the new text, the new text at the end if the save succeeds, and what it
  -- held at the end if it fails.
  pub save_config-Replaces :
      (d : D) (pid : ℕ) → Replaces d (save_config disk json d path pid config)
  unfolding save_config
  save_config-Replaces d pid =
      let made = disk.mkdir_all d (disk.dir path) in
      let kept : disk.read_file made.0 path ≡ disk.read_file d path =
        laws.read-mkdir d (disk.dir path) path in
      elim (Bool-cases made.1) [
        | inr failed ↦ rw failed ((inl kept, tt), kept)
        | inl fine ↦ rw fine (
            Replaces-after d made.0 _ kept
              (write_config-Replaces made.0 pid (json.marshal_indent config) refl))
      ]

  -- What was saved is what the next start of the program reads, if encoding/json reads back what it wrote.
  pub load_config-save_config :
      (d : D) (pid : ℕ)
      → ((b : Text)
          → json.marshal_indent config ≡ some b
          → json.unmarshal (b ++ (10 ∷ [])) fallback ≡ some config)
      → (save_config disk json d path pid config).1 ≡ true
      → load_config disk json (last_or d (save_config disk json d path pid config).0) path
        ≡ some config
  unfolding load_config read_config
  load_config-save_config d pid reads saved =
      let end = last_or d (save_config disk json d path pid config).0 in
      let (b, h, there) : IsNew end = rw saved at ((save_config-Replaces d pid).1) in
      rw (laws.stat-read end path _ there, read_config, there) (reads b h)
