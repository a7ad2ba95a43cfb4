-- ===== src/App/Order.antt =====
-- `sortedRuntimes` lists each runtime once, in the order of the ids.
use bk7252n_gate.Prelude.{
  suc, ◌≡◌, refl, ◌∙◌, ap, inl, inr, List, [], ◌∷◌, true, false, Bool-cases, some, length, All,
  Text, text_eq, text_eq_refl, arith, map,
}
use mathlib.Core.List.{Perm}
use mathlib.Core.List.Perm
use bk7252n_gate.Runtime.{CameraRuntime}
use bk7252n_gate.App.{App, Runtimes, runtime_of}
use bk7252n_gate.App.Sorted.{
  text_leb, insert_text, sort_strings, ids_of, runtimes_of, sorted_runtimes,
}

-- Neighbours are in the order of bytes.
abbrev pub Ascending : List Text → Type 0
Ascending [] = Unit
Ascending (s ∷ ss) = All (λ t. text_leb s t ≡ true) ss × Ascending ss

text_leb_total : (s t : Text) → text_leb s t ≡ false → text_leb t s ≡ true
unfolding text_leb
text_leb_total [] t h = absurd (ground arith)
text_leb_total (c ∷ s) [] h = refl
text_leb_total (c ∷ s) (d ∷ t) h = ground (arith, text_leb_total s t)

text_leb_trans : (s t u : Text) → text_leb s t ≡ true → text_leb t u ≡ true → text_leb s u ≡ true
unfolding text_leb
text_leb_trans [] t u p q = refl
text_leb_trans (c ∷ s) [] u p q = absurd (ground arith)
text_leb_trans (c ∷ s) (d ∷ t) [] p q = absurd (ground arith)
text_leb_trans (c ∷ s) (d ∷ t) (e ∷ u) p q = ground (arith, text_leb_trans s t u)

All-leb :
    (s t : Text) (us : List Text)
    → text_leb s t ≡ true
    → All (λ u. text_leb t u ≡ true) us
    → All (λ u. text_leb s u ≡ true) us
All-leb s t [] p h = tt
All-leb s t (u ∷ us) p h = (text_leb_trans s t u p h.0, All-leb s t us p h.1)

All-insert :
    (P : Text → Type 0) (s : Text) (ts : List Text) → P s → All P ts → All P (insert_text s ts)
unfolding insert_text
All-insert P s [] p h = (p, tt)
All-insert P s (t ∷ ts) p h = elim (Bool-cases (text_leb s t)) [
  | inl e ↦ rw e (p, h)
  | inr e ↦ rw e (h.0, All-insert P s ts p h.1)
]

insert_text-Ascending : (s : Text) (ts : List Text) → Ascending ts → Ascending (insert_text s ts)
unfolding insert_text
insert_text-Ascending s [] h = (tt, tt)
insert_text-Ascending s (t ∷ ts) h = elim (Bool-cases (text_leb s t)) [
  | inl e ↦ rw e ((e, All-leb s t ts e h.0), h)
  | inr e ↦ rw e (All-insert _ s ts (text_leb_total s t e) h.0, insert_text-Ascending s ts h.1)
]

sort_strings-Ascending : (ss : List Text) → Ascending (sort_strings ss)
unfolding sort_strings
sort_strings-Ascending [] = tt
sort_strings-Ascending (s ∷ ss) =
    insert_text-Ascending s (sort_strings ss) (sort_strings-Ascending ss)

insert_text-Perm : (s : Text) (ts : List Text) → Perm (s ∷ ts) (insert_text s ts)
unfolding insert_text
insert_text-Perm s [] = Perm.rfl
insert_text-Perm s (t ∷ ts) = elim (Bool-cases (text_leb s t)) [
  | inl e ↦ rw e (Perm.rfl)
  | inr e ↦ rw e (Perm.trans (Perm.swap t s ts) (Perm.cons t (insert_text-Perm s ts)))
]

sort_strings-Perm : (ss : List Text) → Perm ss (sort_strings ss)
unfolding sort_strings
sort_strings-Perm [] = Perm.rfl
sort_strings-Perm (s ∷ ss) =
    Perm.trans (Perm.cons s (sort_strings-Perm ss)) (insert_text-Perm s (sort_strings ss))

All-sort : (P : Text → Type 0) (ss : List Text) → All P ss → All P (sort_strings ss)
unfolding sort_strings
All-sort P [] h = tt
All-sort P (s ∷ ss) h = All-insert P s (sort_strings ss) h.0 (All-sort P ss h.1)

abbrev HasRuntime : Runtimes → Text → Type 0
HasRuntime rts id = (rt : CameraRuntime) × (runtime_of id rts ≡ some rt)

HasRuntime-cons :
    (k id : Text) (rt : CameraRuntime) (rts : Runtimes)
    → HasRuntime rts id
    → HasRuntime ((k, rt) ∷ rts) id
unfolding runtime_of
HasRuntime-cons k id rt rts (other, h) = elim (Bool-cases (text_eq k id)) [
  | inl e ↦ (rt, rw e refl)
  | inr e ↦ (other, rw e h)
]

HasRuntime-all :
    (k : Text) (rt : CameraRuntime) (rts : Runtimes) (ids : List Text)
    → All (HasRuntime rts) ids
    → All (HasRuntime ((k, rt) ∷ rts)) ids
HasRuntime-all k rt rts [] h = tt
HasRuntime-all k rt rts (id ∷ ids) h =
    (HasRuntime-cons k id rt rts h.0, HasRuntime-all k rt rts ids h.1)

ids_of-HasRuntime : (rts : Runtimes) → All (HasRuntime rts) (ids_of rts)
unfolding ids_of runtime_of
ids_of-HasRuntime [] = tt
ids_of-HasRuntime ((k, rt) ∷ rts) =
    ((rt, rw (text_eq_refl k) refl), HasRuntime-all k rt rts (ids_of rts) (ids_of-HasRuntime rts))

runtimes_of-map :
    (rts : Runtimes) (ids : List Text)
    → All (HasRuntime rts) ids
    → map (λ id. runtime_of id rts) ids ≡ map some (runtimes_of ids rts)
unfolding runtimes_of
runtimes_of-map rts [] h = refl
runtimes_of-map rts (id ∷ ids) ((rt, e), h) =
    rw (e, runtimes_of) (ap (λ l. some rt ∷ l) (runtimes_of-map rts ids h))

length-insert_text : (s : Text) (ts : List Text) → length (insert_text s ts) ≡ suc (length ts)
unfolding insert_text
length-insert_text s [] = refl
length-insert_text s (t ∷ ts) = ground (arith, length-insert_text s ts)

length-sort_strings : (ss : List Text) → length (sort_strings ss) ≡ length ss
unfolding sort_strings
length-sort_strings [] = refl
length-sort_strings (s ∷ ss) =
    length-insert_text s (sort_strings ss) ∙ ap suc (length-sort_strings ss)

length-runtimes_of :
    (rts : Runtimes) (ids : List Text)
    → All (HasRuntime rts) ids
    → length (runtimes_of ids rts) ≡ length ids
unfolding runtimes_of
length-runtimes_of rts [] h = refl
length-runtimes_of rts (id ∷ ids) ((rt, e), h) =
    rw (e, runtimes_of) (ap suc (length-runtimes_of rts ids h))

length-ids_of : (rts : Runtimes) → length (ids_of rts) ≡ length rts
unfolding ids_of
length-ids_of [] = refl
length-ids_of ((k, rt) ∷ rts) = ap suc (length-ids_of rts)

pub length-sorted_runtimes : (app : App) → length (sorted_runtimes app) ≡ length app.runtimes
unfolding sorted_runtimes
length-sorted_runtimes app =
    let ids = ids_of app.runtimes in
    length-runtimes_of app.runtimes (sort_strings ids)
      (All-sort (HasRuntime app.runtimes) ids (ids_of-HasRuntime app.runtimes))
    ∙ (length-sort_strings ids ∙ length-ids_of app.runtimes)

-- The runtimes are listed in the order of their ids, each id as often as it has an entry, none left out.
pub sorted_runtimes-IsOrdered :
    (app : App)
    → (ids : List Text) × Perm (ids_of app.runtimes) ids
      × Ascending ids
      × (map (λ id. runtime_of id app.runtimes) ids ≡ map some (sorted_runtimes app))
unfolding sorted_runtimes
sorted_runtimes-IsOrdered app =
    let ids = ids_of app.runtimes in
    (
      sort_strings ids,
      sort_strings-Perm ids,
      sort_strings-Ascending ids,
      runtimes_of-map app.runtimes (sort_strings ids)
          (All-sort (HasRuntime app.runtimes) ids (ids_of-HasRuntime app.runtimes)),
    )
