-- ===== src/Fleet/OverKv.antt =====
-- The workers over crates/bus-nats/src/inbox/nats_kv.rs: how two of them run the handler for one
-- message at once.
use eventbus_rs.Prelude.{
  ℕ, ◌+◌, ◌≤◌, ◌≡◌, ◌≢◌, refl, sym, ap, ◌∙◌, arith, String, true, false, none, some, ok, err, [],
  ◌∷◌, ==_iff, eq_iff, Result, List,
}
use eventbus_rs.Core.Error.{BusError, transient}
use eventbus_rs.Prelude.Int.{pos}
use eventbus_rs.Redelivery.{info_at, delivery}
use eventbus_rs.Core.Id.{MessageId, show_id}
use eventbus_rs.Core.Idempotency.{ClaimOutcome, claimed}
use eventbus_rs.Effect.{◌>>=◌, embed}
use eventbus_rs.Calls.{Task, handle}
use eventbus_rs.Subscriber.Options.{ProcessingOptions}
use eventbus_rs.Subscriber.Message.{Message, Info, Sdk, message_id}
use eventbus_rs.Subscriber.Discipline.{fresh, holding, failed, closed}
use eventbus_rs.Subscriber.Process.{process_message, is_final_attempt}
use eventbus_rs.Subscriber.Process.Retry.{
  Handles, Retries, process_message-Handles, process_message-Retries,
}
use eventbus_rs.Inbox.NatsKv.{KvCall, KvReply, kv_pending, create, get, purge, after_create}
use eventbus_rs.Inbox.NatsKv
use eventbus_rs.Inbox.NatsKv.Promise.{Bucket, write}
use eventbus_rs.Inbox.NatsKv.Race.{Works, write-none}
use eventbus_rs.Fleet.KvSystem.{
  on_bucket, elsewhere, KvTask, kv_task, KvPhase, between, looking, KvWorker, KvFleet, KvReach,
  start, later, deliver, reply,
}
use eventbus_rs.Fleet.KvExclusion.{in_handler, kv_running}

module _ {E H : Type 0} (sdk : Sdk E H) (opts : ProcessingOptions) (m₀ m₁ m₂ : Message H)
    (i₀ i₁ i₂ : Info) (known₀ : m₀.info ≡ ok i₀) (known₁ : m₁.info ≡ ok i₁)
    (known₂ : m₂.info ≡ ok i₂) (id : MessageId) (event : E) (reason : String)
    (p₀ : Retries (process_message sdk opts m₀) id event reason)
    (p₁ : Handles (process_message sdk opts m₁) id event)
    (p₂ : Handles (process_message sdk opts m₂) id event) (bucket : Bucket) where
  abbrev key : String
  key = show_id sdk.uuids id

  abbrev rest : Task E H (Unit {0}) → KvTask E H
  rest t = kv_task sdk.uuids t

  -- The rest of a worker whose `create` has got this reply.
  abbrev created :
      (Result ClaimOutcome BusError → Task E H (Unit {0})) → Result (Unit {0}) String → KvTask E H
  created claim r = embed on_bucket (λ c r. r) (after_create key r) >>= λ r. rest (claim r)

  -- The workers, by what they still do.
  abbrev first : KvPhase → KvTask E H → KvWorker E H
  first κ t = record { id = message_id sdk opts m₀ i₀; phase = κ; task = t }

  abbrev second : KvPhase → KvTask E H → KvWorker E H
  second κ t = record { id = message_id sdk opts m₁ i₁; phase = κ; task = t }

  abbrev third : KvPhase → KvTask E H → KvWorker E H
  third κ t = record { id = message_id sdk opts m₂ i₂; phase = κ; task = t }

  inside :
      (task : Task E H (Unit {0})) (p : Handles task id event)
      → in_handler id.uuid (rest (p.claim (ok claimed))) ≡ true
  inside task p =
      ap (λ t. in_handler id.uuid (rest t)) p.handles
      ∙ (==_iff p.ctx.msg_id.uuid id.uuid).1 (ap (λ (i : MessageId). i.uuid) p.own)

  both_inside :
      (ws : List (KvWorker E H))
      → 2
        ≤ kv_running id.uuid (
            third (between holding) (rest (p₂.claim (ok claimed)))
            ∷ second (between holding) (rest (p₁.claim (ok claimed)))
            ∷ ws)
  both_inside ws = ground (arith, inside _ p₁, inside _ p₂)

  two_handlers :
      bucket key ≡ none
      → (s : KvFleet E H) × KvReach sdk Works bucket s
        × (s.expirations ≡ [])
        × (2 ≤ kv_running id.uuid s.workers)
  unfolding NatsKv.try_claim NatsKv.release after_create
  two_handlers absent =
      let refused : KvWorker E H = second looking (created p₁.claim (err reason)) in
      let winner₁ : KvWorker E H = second (between holding) (rest (p₁.claim (ok claimed))) in
      let out : KvWorker E H = first (between closed) (rest (p₀.released (ok tt))) in
      let failing : KvTask E H = rest (p₀.before.settled (err (transient reason))) in
      let held : Bucket = write key (some kv_pending) bucket in
      let freed : Bucket = write key none held in
      let gone : freed key ≡ none = write-none key held in
      let first_in =
        later
          (later (later start (deliver opts m₀ i₀ known₀)) (
            reply [] [] _ _ (on_bucket (create key kv_pending)) (created p₀.before.claim) (ok tt)
              held (ap (λ t. first (between fresh) (rest t) ∷ []) p₀.before.claims) (absent, refl)))
          (reply [] [] _ _ (elsewhere (handle p₀.before.ctx event)) _ (err (transient reason)) held
            (ap (λ t. first (between holding) (rest t) ∷ []) p₀.before.handles) refl) in
      let second_waits = later (later first_in (deliver opts m₁ i₁ known₁)) (
        reply [] _ _ _ (on_bucket (create key kv_pending)) (created p₁.claim) (err reason) held
          (ap (λ t. second (between fresh) (rest t) ∷ first (between failed) failing ∷ [])
            p₁.claims)
          (present, refl)) in
      let first_out = later second_waits (
        reply (refused ∷ []) [] _ _ (on_bucket (purge key)) _ (ok tt) freed
          (ap (λ t. refused ∷ first (between failed) (rest t) ∷ []) p₀.releases) refl) in
      let second_in =
        later first_out
          (reply [] (out ∷ []) _ _ (on_bucket (get key)) _ (ok none) freed refl (sym gone, refl)) in
      let third_in = later (later second_in (deliver opts m₂ i₂ known₂)) (
        reply [] (winner₁ ∷ out ∷ []) _ _ (on_bucket (create key kv_pending)) (created p₂.claim)
          (ok tt) (write key (some kv_pending) freed)
          (ap (λ t. third (between fresh) (rest t) ∷ winner₁ ∷ out ∷ []) p₂.claims) (gone, refl)) in
      (_, third_in, refl, both_inside (out ∷ []))
    where
      present : write key (some kv_pending) bucket key ≢ none
      present e = ground (arith, eq_iff key key)

module _ {E H : Type 0} (sdk : Sdk E H) (opts : ProcessingOptions) (msg : Message H)
    (info : Info) where
  -- Over a NATS bucket where no request fails but a `create` on a present key and no key expires, a
  -- message can be in two handlers at once: for every message whose key is absent and whose payload
  -- decodes, its deliveries number `k`, `k + 1` and `k + 2`, the first of them not the last that
  -- JetStream makes, have an interleaving in which the handler fails for a while in the first and then
  -- runs in both others at the same time.
  pub kv_two_handlers :
      (event : E) (reason : String) (k : ℕ) (bucket : Bucket)
      → sdk.from_slice msg.payload ≡ ok event
      → is_final_attempt sdk opts msg (pos k) ≡ false
      → bucket (show_id sdk.uuids (message_id sdk opts msg info)) ≡ none
      → (s : KvFleet E H) × KvReach sdk Works bucket s
        × (s.expirations ≡ [])
        × (2 ≤ kv_running (message_id sdk opts msg info).uuid s.workers)
  unfolding message_id is_final_attempt
  kv_two_handlers event reason k bucket decoded more absent =
      let handles = λ (n : ℕ).
        process_message-Handles sdk opts (delivery msg info n) (info_at msg info n) event refl
          decoded in
      two_handlers sdk opts (delivery msg info k) (delivery msg info (k + 1))
        (delivery msg info (k + 2)) (info_at msg info k) (info_at msg info (k + 1))
        (info_at msg info (k + 2)) refl refl refl (message_id sdk opts msg info) event reason
        (process_message-Retries sdk opts (delivery msg info k) (info_at msg info k) event refl
          decoded reason more)
        (handles (k + 1)) (handles (k + 2)) bucket absent
