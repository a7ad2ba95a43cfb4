-- ===== src/Examples/Files.antt =====
-- Files and the start of the program on a disk in memory.
use bk7252n_gate.Prelude.{
  ◌≡◌, ◌⊎◌, refl, [], ◌∷◌, ◌++◌, Bool, true, false, Option, none, some, if◌then◌else◌, Text, text,
  text_eq, text_eq_refl, is_empty,
}
use bk7252n_gate.Prelude.Int.{pos}
use bk7252n_gate.Input.{valid_camera_id}
use bk7252n_gate.Prelude.{text_eq_ne}
use bk7252n_gate.Input.{ok}
use bk7252n_gate.App.{delete_camera, remove_at, camera_index, runtime_of, remove_runtime, save_then}
use bk7252n_gate.App.Serve.{serve, serve_all, remove}
use bk7252n_gate.Files.Durable.{serve_on, config_after, serve-load_config}
use bk7252n_gate.App.Shows.{Shows}
use bk7252n_gate.App.Directory.{promise_all}
use bk7252n_gate.Files.{
  Config, Disk, IsDisk, Json, fallback, read_config, load_config, write_config, replace_file,
  tmp_path, save_config, last_or,
}
use bk7252n_gate.Pages.{sprintf, sprintf_from, decimal, digits_from}
use bk7252n_gate.Files.Atomic.{Replaces, save_config-Replaces, load_config-save_config}
use bk7252n_gate.Files.Start.{start_app, directory_of, start_app-promise_all}
use bk7252n_gate.Examples.Requests.{door, door_app, no_floats, no_address}
use bk7252n_gate.Examples.Settings.{row}

abbrev Memory : Type 0
Memory = Text → Option Text

abbrev is_there : Option Text → Bool
is_there none = false
is_there (some b) = true

abbrev move : Memory → Text → Text → Option Text → Memory × Bool
move d path q none = (d, false)
move d path q (some b) =
    (λ r. if text_eq q r then some b else if text_eq path r then none else d r, true)

abbrev memory : Disk Memory
memory = record {
  stat = λ d path. is_there (d path);
  read_file = λ d path. d path;
  mkdir_all = λ d path. (d, true);
  write_file = λ d path b. (λ q. if text_eq path q then some b else d q, true);
  rename = λ d path q. move d path q (d path);
  dir = λ path. text ".";
  join_path = λ parts. text "config.example.json";
}

moved :
    (d : Memory) (path q : Text) (o : Option Text)
    → (move d path q o).1 ≡ true
    → (move d path q o).0 q ≡ o
moved d path q none h = cc
moved d path q (some b) h = rw (text_eq_refl q) refl

unmoved :
    (d : Memory) (path q r : Text) (o : Option Text)
    → (move d path q o).1 ≡ false
    → (move d path q o).0 r ≡ d r
unmoved d path q r none h = refl
unmoved d path q r (some b) h = cc

there : (o : Option Text) (b : Text) → o ≡ some b → is_there o ≡ true
there none b h = cc
there (some a) b h = refl

memory-IsDisk : IsDisk memory
memory-IsDisk = record {
  read-mkdir = λ d path q. refl;
  read-write_other = λ d path q b ne. rw (text_eq_ne path q ne) refl;
  read-write = λ d path b h. rw (text_eq_refl path) refl;
  read-rename = λ d path q h. moved d path q (d path) h;
  read-rename_failed = λ d path q r h. unmoved d path q r (d path) h;
  stat-read = λ d path b h. there (d path) b h;
}

-- A disk without files, and a JSON that knows two configurations.
abbrev blank_disk : Memory
blank_disk path = none

abbrev config : Config
config = record fallback { cameras = door ∷ [] }

abbrev one_json : Json
one_json = record { marshal_indent = λ c. some (text "{}"); unmarshal = λ b c. some config }

save_config-Replaces_example :
    Replaces memory memory-IsDisk one_json
      (text "config.json")
      config
      blank_disk
      (save_config memory one_json blank_disk (text "config.json") 17 config)
save_config-Replaces_example =
    save_config-Replaces memory memory-IsDisk one_json (text "config.json") config blank_disk 17

saved : (save_config memory one_json blank_disk (text "config.json") 17 config).1 ≡ true
unfolding save_config write_config replace_file text_eq tmp_path sprintf sprintf_from decimal
    digits_from
saved = refl

load_config-save_config_example :
    load_config memory one_json
      (last_or blank_disk (save_config memory one_json blank_disk (text "config.json") 17 config).0)
      (text "config.json")
    ≡ some config
load_config-save_config_example =
    load_config-save_config memory memory-IsDisk one_json (text "config.json") config blank_disk 17
      (λ b h. refl) saved

-- From the start with one camera through a row of requests.
start_app-promise_all_example :
    let r =
      serve_all no_address no_floats (λ cams. true) (start_app no_address 9 (pos 0) config).1 row in
    let p = promise_all no_floats (directory_of config.cameras) row in Shows r.0 p.0 × (r.1 ≡ p.1)
unfolding valid_camera_id is_empty
start_app-promise_all_example =
    start_app-promise_all no_address 9 no_floats (λ cams. true) (λ cams. refl) (pos 0) config row
      (tt, tt) (refl, tt)

-- A file with the door's camera; a JSON that writes the empty list, and reads any other text as the door's.
abbrev door_disk : Memory
door_disk path = if text_eq path (text "config.json") then some (text "door") else none

abbrev two_json : Json
two_json = record {
  marshal_indent = λ c. some (text "{}");
  unmarshal = λ b c. if text_eq b (text "door") then some config else some fallback;
}

door_held :
    load_config memory two_json door_disk (text "config.json")
    ≡ some (record fallback { cameras = door ∷ [] })
unfolding load_config read_config text_eq
door_held = refl

removed :
    (serve_on memory two_json fallback.server no_address no_floats door_disk
      (text "config.json")
      17
      door_app
      9
      (remove (text "door"))).2
    ≡ ok tt
unfolding serve delete_camera camera_index runtime_of remove_runtime save_then save_config
    write_config replace_file text_eq tmp_path sprintf sprintf_from decimal digits_from
removed = refl

left :
    config_after memory two_json fallback.server no_address no_floats door_disk
      (text "config.json")
      17
      door_app
      9
      (remove (text "door"))
    ≡ fallback
unfolding serve delete_camera camera_index runtime_of remove_runtime save_then save_config
    write_config replace_file text_eq tmp_path sprintf sprintf_from decimal digits_from remove_at
left = refl

re_read :
    (b : Text)
    → some (text "{}") ≡ some b
    → two_json.unmarshal (b ++ (10 ∷ [])) fallback ≡ some fallback
unfolding text_eq
re_read b h = let e : b ≡ text "{}" = cc in rw e refl

serve-load_config_example :
    let after =
      config_after memory two_json fallback.server no_address no_floats door_disk
        (text "config.json")
        17
        door_app
        9
        (remove (text "door")) in
    (load_config memory two_json
        (last_or door_disk (save_config memory two_json door_disk (text "config.json") 17 after).0)
        (text "config.json")
      ≡ some after)
    ⊎ (load_config memory two_json door_disk (text "config.json") ≡ some after)
serve-load_config_example =
    serve-load_config memory two_json fallback.server no_address no_floats memory-IsDisk door_disk
      (text "config.json") 17 door_app 9 (remove (text "door")) door_held
      (λ b h. rw left (re_read b h)) removed
