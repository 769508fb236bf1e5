-- ===== src/Core/Idempotency.antt =====
-- crates/bus-core/src/idempotency.rs: the outcome of a claim, and what the trait promises, as the
-- change that each call makes to the marks of the message ids.
use eventbus_rs.Prelude.{ℕ, ◌≡◌, ◌⊎◌, Option, none, some, Result, ok, err, ◌==◌, if◌then◌else◌}
use eventbus_rs.Core.Id.{Uuid, MessageId}

pub data ClaimOutcome : Type 0 where
  claimed already_pending already_done : ClaimOutcome

pub data Mark : Type 0 where
  pending done : Mark

-- The contents of the store. A key that expires loses its mark.
abbrev pub Marks : Type 0
Marks = Uuid → Option Mark

abbrev pub assign : MessageId → Option Mark → Marks → Marks
assign id m marks u = if id.uuid == u then m else marks u

abbrev pub present : Option Mark → ℕ
present none = 0
present (some _) = 1

-- A request that fails may have been carried out, with its reply lost, or not.
abbrev pub Perhaps : Marks → Marks → Marks → Type 0
Perhaps before after marks' = (marks' ≡ before) ⊎ (marks' ≡ after)

module _ {Error : Type 0} (marks : Marks) (id : MessageId) where
  -- "Atomically inserts the key in `pending` state if absent, otherwise reports the existing state."
  abbrev pub Claims : Result ClaimOutcome Error → Marks → Type 0
  Claims (ok claimed) marks' = (marks id.uuid ≡ none) × (marks' ≡ assign id (some pending) marks)
  Claims (ok already_pending) marks' = (marks id.uuid ≡ some pending) × (marks' ≡ marks)
  Claims (ok already_done) marks' = (marks id.uuid ≡ some done) × (marks' ≡ marks)
  Claims (err _) marks' =
      (marks' ≡ marks) ⊎ ((marks id.uuid ≡ none) × (marks' ≡ assign id (some pending) marks))

  abbrev pub MarksDone : Result (Unit {0}) Error → Marks → Type 0
  MarksDone (ok _) marks' = marks' ≡ assign id (some done) marks
  MarksDone (err _) marks' = Perhaps marks (assign id (some done) marks) marks'

  abbrev pub Releases : Result (Unit {0}) Error → Marks → Type 0
  Releases (ok _) marks' = marks' ≡ assign id none marks
  Releases (err _) marks' = Perhaps marks (assign id none marks) marks'
