-- ===== src/Device/Rules.antt =====
-- A postcondition for actions, with its rules.
use bk7252n_gate.Prelude.{◌≡◌, ap, inl, inr, Bool, true, false, if◌then◌else◌}
use mathlib.Core.Path.{subst}
use bk7252n_gate.Input.{ApiError, Result, Result-cases, err-ne-ok, ok, err}
use bk7252n_gate.Device.Actions.{Progress, Action, ◌>>=◌, pure, check}

module _ {S : Type 0} (Inv : Progress S → Type 0) where
  -- The action keeps the invariant, also where it ends with an error, and a value that it returns
  -- satisfies `Q`.
  abbrev pub Ensures : {A : Type 0} → Action S A → (A → Type 0) → Type 0
  Ensures {A} m Q = (p : Progress S) → Inv p → Inv (m p).1 × ((a : A) → (m p).0 ≡ ok a → Q a)

  pub bind-Ensures :
      {A B : Type 0} (m : Action S A) (next : A → Action S B) (Q : A → Type 0) (R : B → Type 0)
      → Ensures m Q
      → ((a : A) → Q a → Ensures (next a) R)
      → Ensures (m >>= next) R
  bind-Ensures m next Q R hm hn p i = elim (Result-cases (m p).0) [
    | inl (e, refused) ↦ rw (refused, ◌>>=◌) ((hm p i).0, λ b h. absurd (err-ne-ok h))
    | inr (a, returned) ↦ rw (returned, ◌>>=◌) (hn a ((hm p i).1 a returned) (m p).1 (hm p i).0)
  ]

  pub pure-Ensures : {A : Type 0} (a : A) (Q : A → Type 0) → Q a → Ensures (pure a) Q
  pure-Ensures a Q h p i = (i, λ b e. let q : a ≡ b = cc in subst Q q h)

  pub check-Ensures :
      {A : Type 0} (r : Result A) (Q : A → Type 0)
      → ((a : A) → r ≡ ok a → Q a)
      → Ensures (check r) Q
  check-Ensures r Q h p i = (i, h)

  pub if-Ensures :
      {A : Type 0} (b : Bool) (m n : Action S A) (Q : A → Type 0)
      → Ensures m Q
      → Ensures n Q
      → Ensures (if b then m else n) Q
  if-Ensures true m n Q hm hn = hm
  if-Ensures false m n Q hm hn = hn

module _ {S : Type 0} {A B : Type 0} where
  pub bind_ok :
      (m : Action S A) (next : A → Action S B) (p q : Progress S) (a : A)
      → m p ≡ (ok a, q)
      → (m >>= next) p ≡ next a q
  bind_ok m next p q a h =
      ap
        (λ r. elim r.0 as (λ _. Result B × Progress S) [ ok x ↦ next x r.1 | err e ↦ (err e, r.1) ])
        h

  pub bind_err :
      (m : Action S A) (next : A → Action S B) (p q : Progress S) (e : ApiError)
      → m p ≡ (err e, q)
      → (m >>= next) p ≡ (err e, q)
  bind_err m next p q e h =
      ap
        (λ r. elim r.0 as (λ _. Result B × Progress S) [ ok x ↦ next x r.1 | err e ↦ (err e, r.1) ])
        h
