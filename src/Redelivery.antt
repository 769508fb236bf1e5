-- ===== src/Redelivery.antt =====
-- One message of a stream over all its deliveries to one consumer of crates/bus-nats/src/subscriber.rs,
-- one after the other: JetStream delivers it again, with the next number, until an answer that ends it
-- has arrived or `max_deliver` is reached. The idempotency store does what the trait promises: a request
-- to it may fail, whether it was carried out or not. No key expires meanwhile.
pub mod Attempt
pub mod Store
pub mod Most
pub mod Once
pub mod Pending
pub mod Shared
pub mod Buried
pub mod Steady
pub mod Published
mod Examples
use eventbus_rs.Prelude.{
  ℕ, zero, suc, Bool, true, false, ◌&&◌, Option, none, some, List, [], ◌∷◌, ok, err, not,
  if◌then◌else◌,
}
use eventbus_rs.Prelude.Int.{pos}
use eventbus_rs.Core.Idempotency.{
  Mark, Marks, pending, done, assign, claimed, already_pending, already_done,
}
use eventbus_rs.Effect.{ret, call}
use eventbus_rs.Effect.Traces.{Oracle}
use eventbus_rs.Calls.{Call, Reply, Task, try_claim, mark_done, release}
use eventbus_rs.Subscriber.Options.{ProcessingOptions}
use eventbus_rs.Subscriber.Message.{Message, Info, Sdk}
use eventbus_rs.Subscriber.Observe.{Run, Verdict, acked, nacked, termed, verdicts}
use eventbus_rs.Subscriber.Process.{process_message}

-- What the store, the handler, JetStream and the clock do in a delivery.
pub record Environment (E H : Type 0) : Type 0 where
  pub replies : Oracle (Call E H) Reply
  pub loses : Run E H → Call E H → Bool  -- where the request fails: only its reply got lost

pub record Served (E H : Type 0) : Type 0 where
  pub calls : Run E H
  pub marks : Marks

module _ {E H : Type 0} where
  -- A request to the store that has failed.
  abbrev pub fails : (c : Call E H) → Reply c → Bool
  fails (try_claim k) (err _) = true
  fails (mark_done k) (err _) = true
  fails (release k) (err _) = true
  fails c r = false

  -- The reply to a call: the environment's, but a claim that does not fail is answered by the marks.
  abbrev pub answer : Marks → (c : Call E H) → Reply c → Reply c
  answer marks (try_claim k) (ok _) = elim (marks k.uuid) [
    | none ↦ ok claimed
    | some pending ↦ ok already_pending
    | some done ↦ ok already_done
  ]
  answer marks c r = r

  -- The marks after a request that is carried out.
  abbrev pub carried_out : Marks → Call E H → Marks
  carried_out marks (try_claim k) = elim (marks k.uuid) [
    | none ↦ assign k (some pending) marks
    | some _ ↦ marks
  ]
  carried_out marks (mark_done k) = assign k (some done) marks
  carried_out marks (release k) = assign k none marks
  carried_out marks c = marks

  -- The marks after a call with this reply: a request that fails has been carried out only where it is
  -- the reply that was lost.
  abbrev pub after : Marks → (c : Call E H) → Reply c → Bool → Marks
  after marks c r lost = if fails c r && not lost then marks else carried_out marks c

  -- A worker run to its end: its calls, and the marks that it leaves.
  unfoldable pub serve : {A : Type 0} → Environment E H → Run E H → Marks → Task E H A → Served E H
  serve o h marks (ret a) = record { calls = []; marks = marks }
  serve o h marks (call c k) =
      let r = answer marks c (o.replies h c) in
      let rest = serve o ((c, r) ∷ h) (after marks c r (o.loses h c)) (k r) in
      record { calls = (c, r) ∷ rest.calls; marks = rest.marks }

-- What becomes of a message.
pub data Fate : Type 0 where
  acknowledged terminated exhausted : Fate

-- What an answer that JetStream has got makes of the message.
abbrev pub ends_with : List Verdict → Option Fate
ends_with (acked ∷ _) = some acknowledged
ends_with (termed ∷ _) = some terminated
ends_with _ = none

module _ {H : Type 0} (msg : Message H) (info : Info) where
  -- The delivery with this number, and its metadata.
  abbrev pub info_at : ℕ → Info
  info_at k = record info { delivered = pos k }

  abbrev pub delivery : ℕ → Message H
  delivery k = record msg { info = ok (info_at k) }

abbrev pub fate_of : Bool → List Verdict → Option Fate
fate_of arrived vs = if arrived then ends_with vs else none

module _ {E H : Type 0} (sdk : Sdk E H) (opts : ProcessingOptions) (msg : Message H) (info : Info)
    (o : ℕ → Environment E H) where
  abbrev pub attempt : ℕ → Marks → Served E H
  attempt k marks = serve (o k) [] marks (process_message sdk opts (delivery msg info k))

  -- The runs of the deliveries from number `k` on, `n` of them at most, and the fate of the message.
  -- The environment also chooses which answers arrive.
  unfoldable pub deliveries : (ℕ → Bool) → ℕ → ℕ → Marks → List (Run E H) × Fate
  deliveries arrives zero k marks = ([], exhausted)
  deliveries arrives (suc n) k marks =
      let s = attempt k marks in
      let rest = deliveries arrives n (suc k) s.marks in
      elim (fate_of (arrives k) (verdicts s.calls)) [
        | none ↦ (s.calls ∷ rest.0, rest.1)
        | some f ↦ (s.calls ∷ [], f)
      ]
