-- ===== src/Subscriber/Discipline.antt =====
-- The rules by which a worker uses the idempotency store and the handler, as a typestate: claim
-- first; run the handler only while the claim is held; after that close the claim and touch the
-- store no more. `process_message` keeps them on every run.
use eventbus_rs.Prelude.{◌≡◌, arith, Bool, true, false, ok, err, ==_iff}
use eventbus_rs.Core.Id.{MessageId, eq_id}
use eventbus_rs.Core.Idempotency.{claimed}
use eventbus_rs.Effect.{ret, call}
use eventbus_rs.Calls.{
  Call, Reply, Task, try_claim, mark_done, release, handle, double_ack, ack_with, now,
  publish_with_headers, publish_ack, within,
}
use eventbus_rs.Subscriber.Options.{ProcessingOptions}
use eventbus_rs.Subscriber.Message.{Message, Info, Sdk, message_id}
use eventbus_rs.Subscriber.Process.{process_message}

-- Before the claim; with the claim, before the handler ran; after it failed; after it succeeded; and
-- after the claim was refused, marked done or given back.
pub data Phase : Type 0 where
  fresh holding failed succeeded closed : Phase

-- The claim is held, and the handler has not succeeded under it.
abbrev pub holds : Phase → Bool
holds holding = true
holds failed = true
holds _ = false

module _ {E H : Type 0} where
  -- What a worker for the message `id` may do in each phase.
  abbrev pub allowed : MessageId → Phase → Call E H → Bool
  allowed id fresh (try_claim k) = eq_id k id
  allowed id holding (handle ctx e) = eq_id ctx.msg_id id
  allowed id holding (mark_done k) = eq_id k id
  allowed id holding (release k) = eq_id k id
  allowed id failed (mark_done k) = eq_id k id
  allowed id failed (release k) = eq_id k id
  allowed id succeeded (mark_done k) = eq_id k id
  allowed id φ double_ack = true
  allowed id φ (ack_with kind) = true
  allowed id φ now = true
  allowed id φ (publish_with_headers s h b) = true
  allowed id φ publish_ack = true
  allowed id φ (within d (publish_with_headers s h b)) = true
  allowed id φ (within d publish_ack) = true
  allowed id φ _ = false

  -- The phase after a call, by its reply. A store call that fails may still have been carried out, so
  -- an attempt to close the claim ends the worker's use of it.
  abbrev pub next : Phase → (c : Call E H) → Reply c → Phase
  next φ (try_claim k) (ok claimed) = holding
  next φ (try_claim k) _ = closed
  next φ (handle ctx e) (ok _) = succeeded
  next φ (handle ctx e) (err _) = failed
  next φ (mark_done k) _ = closed
  next φ (release k) _ = closed
  next φ _ _ = φ

module _ {E H A : Type 0} where
  -- Every call is allowed in the phase that the replies before it have led to.
  abbrev pub Obeys : MessageId → Phase → Task E H A → Type 0
  Obeys id φ (ret a) = Unit
  Obeys id φ (call c k) = (allowed id φ c ≡ true) × ((r : Reply c) → Obeys id (next φ c r) (k r))

module _ {E H : Type 0} (sdk : Sdk E H) (opts : ProcessingOptions) (msg : Message H) where
  -- A worker for a message with readable metadata keeps the rules, under the message's id, whatever
  -- the store, the handler and JetStream reply.
  pub process_message-Obeys :
      (info : Info)
      → msg.info ≡ ok info
      → Obeys (message_id sdk opts msg info) fresh (process_message sdk opts msg)
  unfolding process_message
  process_message-Obeys info known =
      let id : MessageId = message_id sdk opts msg info in ground (arith, ==_iff id.uuid id.uuid)
