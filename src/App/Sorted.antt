-- ===== src/App/Sorted.antt =====
-- `sortedRuntimes` and `publicConfigsWithStatus`'s pairs of bkcam-go/main.go: the runtimes by their ids.
-- sort.Strings is an insertion sort on the order of bytes.
use bk7252n_gate.Prelude.{
  List, [], ◌∷◌, Bool, true, false, none, some, ltb, ◌==◌, if◌then◌else◌, Text,
}
use bk7252n_gate.Runtime.{CameraRuntime}
use bk7252n_gate.App.{App, Runtimes, runtime_of}

-- `s <= t` on strings
unfoldable pub text_leb : Text → Text → Bool
text_leb [] t = true
text_leb (c ∷ s) [] = false
text_leb (c ∷ s) (d ∷ t) =
    let rest = text_leb s t in if ltb c d then true else if c == d then rest else false

unfoldable pub insert_text : Text → List Text → List Text
insert_text s [] = s ∷ []
insert_text s (t ∷ ts) =
    let rest = insert_text s ts in if text_leb s t then s ∷ t ∷ ts else t ∷ rest

-- sort.Strings
unfoldable pub sort_strings : List Text → List Text
sort_strings [] = []
sort_strings (s ∷ ss) = insert_text s (sort_strings ss)

unfoldable pub ids_of : Runtimes → List Text
ids_of [] = []
ids_of ((id, rt) ∷ rest) = id ∷ ids_of rest

-- The second loop of `sortedRuntimes`
unfoldable pub runtimes_of : List Text → Runtimes → List CameraRuntime
runtimes_of [] rts = []
runtimes_of (id ∷ ids) rts = elim (runtime_of id rts) [
  | none ↦ runtimes_of ids rts
  | some rt ↦ rt ∷ runtimes_of ids rts
]

unfoldable pub sorted_runtimes : App → List CameraRuntime
sorted_runtimes app = runtimes_of (sort_strings (ids_of app.runtimes)) app.runtimes
