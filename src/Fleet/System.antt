-- ===== src/Fleet/System.antt =====
-- The interleaving semantics: a delivery starts a worker, a worker makes its next call and gets any
-- reply that the store's contract allows, a worker may stop at any await (`abort`, a crash), and the
-- key of an id may expire in the store.
use eventbus_rs.Prelude.{◌≡◌, none, List, [], ◌∷◌, ◌++◌, ok}
use eventbus_rs.Core.Id.{Uuid, MessageId, from_uuid}
use eventbus_rs.Core.Idempotency.{Marks, assign, Claims, MarksDone, Releases}
use eventbus_rs.Effect.{call}
use eventbus_rs.Calls.{Call, Reply, Task, try_claim, mark_done, release, handle}
use eventbus_rs.Subscriber.Options.{ProcessingOptions}
use eventbus_rs.Subscriber.Message.{Message, Info, Sdk, message_id}
use eventbus_rs.Subscriber.Process.{process_message}
use eventbus_rs.Subscriber.Discipline.{Phase, fresh, next}

module _ {E H : Type 0} where
  -- What a call does to the store, given its reply.
  abbrev pub Serves : Marks → (c : Call E H) → Reply c → Marks → Type 0
  Serves marks (try_claim k) r marks' = Claims marks k r marks'
  Serves marks (mark_done k) r marks' = MarksDone marks k r marks'
  Serves marks (release k) r marks' = Releases marks k r marks'
  Serves marks _ r marks' = marks' ≡ marks

  -- The id under which a call has run the handler to success.
  abbrev pub success : (c : Call E H) → Reply c → List MessageId
  success (handle ctx e) (ok _) = ctx.msg_id ∷ []
  success _ _ = []

-- A worker, with the id of its message and the phase that the replies so far have put it in.
pub record Worker (E H : Type 0) : Type 0 where
  pub id : MessageId
  pub phase : Phase
  pub task : Task E H (Unit {0})

pub record Fleet (E H : Type 0) : Type 0 where
  pub marks : Marks
  pub workers : List (Worker E H)
  pub successes : List MessageId  -- the ids that the handler has succeeded for, the last one first
  pub expirations : List MessageId  -- the ids whose keys have expired, the last one first

module _ {E H : Type 0} (sdk : Sdk E H) where
  abbrev pub spawn : ProcessingOptions → Message H → Info → Worker E H
  spawn opts msg info = record {
    id = message_id sdk opts msg info;
    phase = fresh;
    task = process_message sdk opts msg;
  }

  pub data Step (s : Fleet E H) : Fleet E H → Type 0 where
    deliver :
        (opts : ProcessingOptions) (msg : Message H) (info : Info)
        → msg.info ≡ ok info
        → Step s (record s { workers = spawn opts msg info ∷ s.workers })
    reply :
        (before after : List (Worker E H)) (id : MessageId) (φ : Phase) (c : Call E H)
        (k : Reply c → Task E H (Unit {0})) (r : Reply c) (marks' : Marks)
        → s.workers ≡ before ++ record { id = id; phase = φ; task = call c k } ∷ after
        → Serves s.marks c r marks'
        → Step s (record {
          marks = marks';
          workers = before ++ record { id = id; phase = next φ c r; task = k r } ∷ after;
          successes = success c r ++ s.successes;
          expirations = s.expirations;
        })
    stop :
        (before after : List (Worker E H)) (w : Worker E H)
        → s.workers ≡ before ++ w ∷ after
        → Step s (record s { workers = before ++ after })
    expire :
        (u : Uuid)
        → Step s (record s {
          marks = assign (from_uuid u) none s.marks;
          expirations = from_uuid u ∷ s.expirations;
        })

  -- From any contents of the store, with no worker yet.
  pub data Reach : Fleet E H → Type 0 where
    start :
        (marks : Marks)
        → Reach (record { marks = marks; workers = []; successes = []; expirations = [] })
    later : {s t : Fleet E H} → Reach s → Step s t → Reach t
