-- ===== src/Files.antt =====
-- The configuration file of bkcam-go/main.go: `Config`, `defaultConfigPath`, `loadConfig`, `saveConfigLocked`, and
-- the start of the program in `main`. `Disk` is what they ask of os and filepath, `Json` of encoding/json.
pub mod Atomic
pub mod Start
pub mod Durable
use bk7252n_gate.Prelude.{
  ℕ, ◌≡◌, ◌≢◌, List, [], ◌∷◌, ◌++◌, Bool, true, false, Option, none, some, if◌then◌else◌, Text,
  text, is_empty,
}
use bk7252n_gate.Prelude.Int.{ℤ, pos}
use bk7252n_gate.Config.{CameraConfig}
use bk7252n_gate.Pages.{sprintf, decimal}

pub record Server : Type 0 where
  pub host : Text
  pub port : ℤ
  pub bind : Text

pub record Config : Type 0 where
  pub server : Server
  pub cameras : List CameraConfig

-- The calls of os, on the files `D` of the disk; false is an error. `stat` is whether os.Stat finds a file.
pub record Disk (D : Type 0) : Type 0 where
  pub stat : D → Text → Bool
  pub read_file : D → Text → Option Text
  pub mkdir_all : D → Text → D × Bool
  pub write_file : D → Text → Text → D × Bool
  pub rename : D → Text → Text → D × Bool
  pub dir : Text → Text
  pub join_path : List Text → Text

-- What package os documents of them: a directory is no file; a write changes the named file only, and holds the
-- text if it succeeds; a rename that succeeds puts the old file in the place of the new one, and one
-- that fails changes nothing; a file that can be read is there.
pub record IsDisk {D : Type 0} (disk : Disk D) : Type 0 where
  pub read-mkdir :
      (d : D) (path q : Text) → disk.read_file (disk.mkdir_all d path).0 q ≡ disk.read_file d q
  pub read-write_other :
      (d : D) (path q b : Text)
      → path ≢ q
      → disk.read_file (disk.write_file d path b).0 q ≡ disk.read_file d q
  pub read-write :
      (d : D) (path b : Text)
      → (disk.write_file d path b).1 ≡ true
      → disk.read_file (disk.write_file d path b).0 path ≡ some b
  pub read-rename :
      (d : D) (path q : Text)
      → (disk.rename d path q).1 ≡ true
      → disk.read_file (disk.rename d path q).0 q ≡ disk.read_file d path
  pub read-rename_failed :
      (d : D) (path q r : Text)
      → (disk.rename d path q).1 ≡ false
      → disk.read_file (disk.rename d path q).0 r ≡ disk.read_file d r
  pub stat-read : (d : D) (path b : Text) → disk.read_file d path ≡ some b → disk.stat d path ≡ true

-- json.MarshalIndent, and json.Unmarshal onto a configuration; `none` is an error.
pub record Json : Type 0 where
  pub marshal_indent : Config → Option Text
  pub unmarshal : Text → Config → Option Config

abbrev pub fallback : Config
fallback = record {
  server = record { host = text "127.0.0.1"; port = pos 8088; bind = text "0.0.0.0" };
  cameras = [];
}

unfoldable pub tmp_path : Text → ℕ → Text
tmp_path path pid = sprintf (text "%s.%d.tmp") (path ∷ decimal pid ∷ [])

module _ {D : Type 0} (disk : Disk D) where
  -- The first of the candidates that is there.
  unfoldable pub first_there : D → List Text → Text
  first_there d [] = text "config.json"
  first_there d (path ∷ paths) =
      let rest = first_there d paths in if disk.stat d path then path else rest

  -- `defaultConfigPath`; `variable` is the environment's BKCAM_CONFIG.
  unfoldable pub default_config_path : D → Text → Text
  default_config_path d variable =
      let candidates =
        text "config.json"
        ∷ disk.join_path (text ".." ∷ text "bkcam-server" ∷ text "config.json" ∷ [])
        ∷ disk.join_path (text "bkcam-go" ∷ text "config.json" ∷ [])
        ∷ [] in
      if is_empty variable then first_there d candidates else variable

  -- The path of `config.example.json` beside the configuration
  unfoldable pub example_path : Text → Text
  example_path path = disk.join_path (disk.dir path ∷ text "config.example.json" ∷ [])

  -- The end of `saveConfigLocked`: the states of the disk that it goes through, and whether it succeeds.
  unfoldable pub replace_file : D → Text → Text → Text → List D × Bool
  replace_file d path tmp b =
      let written = disk.write_file d tmp b in
      let renamed = disk.rename written.0 tmp path in
      if written.1 then (written.0 ∷ renamed.0 ∷ [], renamed.1) else (written.0 ∷ [], false)

  module _ (json : Json) where
    unfoldable pub read_config : D → Text → Option Config
    read_config d source = elim (disk.read_file d source) [
      | none ↦ none
      | some b ↦ json.unmarshal b fallback
    ]

    -- `loadConfig`; `none` is an error, which ends the program.
    unfoldable pub load_config : D → Text → Option Config
    load_config d path =
        let example = example_path path in
        if disk.stat d path
        then read_config d path
        else if disk.stat d example
        then read_config d example
        else some fallback

    unfoldable pub write_config : D → Text → ℕ → Option Text → List D × Bool
    write_config d path pid none = ([], false)
    write_config d path pid (some b) = replace_file d path (tmp_path path pid) (b ++ (10 ∷ []))

    -- `saveConfigLocked` of the process `pid`
    unfoldable pub save_config : D → Text → ℕ → Config → List D × Bool
    save_config d path pid config =
        let made = disk.mkdir_all d (disk.dir path) in
        let rest = write_config made.0 path pid (json.marshal_indent config) in
        if made.1 then (made.0 ∷ rest.0, rest.1) else (made.0 ∷ [], false)

-- The state that the last step leaves.
abbrev pub last_or {ℓ} : {D : Type ℓ} → D → List D → D
last_or d [] = d
last_or d (e ∷ es) = last_or e es
