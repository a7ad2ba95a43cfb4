-- ===== src/Device/Actions.antt =====
-- What `ApplyDeviceConfig` builds up while it runs: the commands sent and their results, kept also
-- when a later field is refused.
use bk7252n_gate.Prelude.{List, [], ◌∷◌, ◌++◌, Bool, ◌&&◌, Option, none, some, Text}
use bk7252n_gate.Input.{Result, ok, err}
use bk7252n_gate.Runtime.{Command}
use bk7252n_gate.Runtime.Commands.{CommandResult}

-- An element of `commands`: its name, the command that it is the result of, and the result.
pub record Entry : Type 0 where
  pub name : Text
  pub sent : Option Command
  pub result : CommandResult

-- `S` is what the commands act on; `all_ok` is `out["ok"]`.
pub record Progress (S : Type 0) : Type 0 where
  pub world : S
  pub all_ok : Bool
  pub commands : List Entry

abbrev pub Action : Type 0 → Type 0 → Type 0
Action S A = Progress S → Result A × Progress S

module _ {S : Type 0} where
  infixl 5 ◌>>=◌ ◌>>◌
  -- An error ends the action; what was sent stays sent.
  abbrev pub ◌>>=◌ : {A B : Type 0} → Action S A → (A → Action S B) → Action S B
  ◌>>=◌ m next p = let r = m p in elim r.0 [ ok a ↦ next a r.1 | err e ↦ (err e, r.1) ]

  abbrev pub ◌>>◌ : {A B : Type 0} → Action S A → Action S B → Action S B
  m >> next = m >>= λ _. next

  abbrev pub pure : {A : Type 0} → A → Action S A
  pure a p = (ok a, p)

  -- A step that sends nothing.
  abbrev pub check : {A : Type 0} → Result A → Action S A
  check r p = (r, p)

  -- `add(name, CommandResult{...})`
  unfoldable pub note : Text → CommandResult → Action S (Unit {0})
  note name result p = (
    ok tt,
    record p {
      all_ok = p.all_ok && result.ok;
      commands = p.commands ++ (record { name = name; sent = none; result = result } ∷ []);
    },
  )

  -- `add(name, rt.commandWithResponse(...))`
  unfoldable pub issue : (S → Command → S × CommandResult) → Text → Command → Action S (Unit {0})
  issue exchange name c p =
      let r = exchange p.world c in
      (
        ok tt,
        record {
          world = r.0;
          all_ok = p.all_ok && r.1.ok;
          commands = p.commands ++ (record { name = name; sent = some c; result = r.1 } ∷ []);
        },
      )
