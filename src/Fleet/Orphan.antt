-- ===== src/Fleet/Orphan.antt =====
-- A claim whose worker has stopped: the id stays pending, and nobody handles it again.
use eventbus_rs.Prelude.{
  ℕ, ◌+◌, ◌≡◌, refl, ◌≤◌, ◌∙◌, ap, subst, arith, Bool, true, false, ◌&&◌, List, [], ◌∷◌, ◌++◌, some,
  count, count-append, ◌==◌,
}
use eventbus_rs.Core.Id.{Uuid, MessageId}
use eventbus_rs.Core.Idempotency.{Marks, pending}
use eventbus_rs.Effect.{call}
use eventbus_rs.Calls.{Call, Reply, try_claim, mark_done, release, handle}
use eventbus_rs.Subscriber.Message.{Sdk}
use eventbus_rs.Subscriber.Discipline.{Phase, holding, failed, succeeded, allowed, next, Obeys}
use eventbus_rs.Fleet.System.{
  Worker, Fleet, Serves, success, Step, deliver, reply, stop, expire, Reach,
}
use eventbus_rs.Fleet.Budget.{held, won, Inv, AllObey, AllObey-split, Step-Inv, Reach-Inv}
use eventbus_rs.Fleet.Exclusion.{running, running-le-held}

-- The worker has won the claim and has not closed it.
abbrev pub engaged : Phase → Bool
engaged holding = true
engaged failed = true
engaged succeeded = true
engaged _ = false

module _ {E H : Type 0} where
  abbrev pub engaged_on : Uuid → List (Worker E H) → ℕ
  engaged_on u = count (λ w. w.id.uuid == u && engaged w.phase)

  -- The id is pending, and no worker has its claim.
  pub record Orphaned (u : Uuid) (s : Fleet E H) : Type 0 where
    pub mark : s.marks u ≡ some pending
    pub abandoned : engaged_on u s.workers ≡ 0

  call_orphan :
      (u : Uuid) (id : MessageId) (φ : Phase) (c : Call E H) (r : Reply c) (marks marks' : Marks)
      → allowed id φ c ≡ true
      → Serves marks c r marks'
      → marks u ≡ some pending
      → (id.uuid == u && engaged φ) ≡ false
      → (marks' u ≡ some pending)
        × ((id.uuid == u && engaged (next φ c r)) ≡ false)
        × (won u (success c r) ≡ 0)
  call_orphan u id φ (try_claim k) r marks marks' a s m e = ground arith
  call_orphan u id φ (mark_done k) r marks marks' a s m e = ground arith
  call_orphan u id φ (release k) r marks marks' a s m e = ground arith
  call_orphan u id φ (handle ctx v) r marks marks' a s m e = ground arith
  call_orphan u id φ c r marks marks' a s m e = ground arith

  engaged-middle :
      (u : Uuid) (before after : List (Worker E H)) (w : Worker E H)
      → engaged_on u (before ++ w ∷ after) ≡ engaged_on u before + engaged_on u (w ∷ after)
  engaged-middle u before after w =
      count-append (λ (v : Worker E H). v.id.uuid == u && engaged v.phase) before (w ∷ after)

  -- What later steps leave alone.
  record Stuck (u : Uuid) (s t : Fleet E H) : Type 0 where
    orphaned : Orphaned u t
    unhandled : won u t.successes ≡ won u s.successes

  Step-Stuck :
      (sdk : Sdk E H) (u : Uuid) {s t : Fleet E H}
      → Step sdk s t
      → Inv s
      → Orphaned u s
      → won u t.expirations ≡ won u s.expirations
      → Stuck u s t
  Step-Stuck sdk u (deliver opts msg info known) inv o kept = record {
    orphaned = record { mark = o.mark; abandoned = ground (arith, o.abandoned) };
    unhandled = refl;
  }
  Step-Stuck sdk u {s} (stop before after w e) inv o kept = record {
    orphaned = record {
      mark = o.mark;
      abandoned = ground (
        arith,
        ap (engaged_on u) e,
        engaged-middle u before after w,
        count-append (λ (v : Worker E H). v.id.uuid == u && engaged v.phase) before after,
      );
    };
    unhandled = refl;
  }
  Step-Stuck sdk u {s} (reply before after id φ c k r marks' e serves) inv o unexpired = record {
    orphaned = record {
      mark = kept.0;
      abandoned = ground (
        arith,
        ap (engaged_on u) e,
        engaged-middle u before after waiting,
        engaged-middle u before after (record waiting { phase = next φ c r; task = k r }),
        kept.1,
      );
    };
    unhandled =
        omega
          (arith, count-append (λ (i : MessageId). i.uuid == u) (success c r) s.successes, kept.2);
  }
    where
      waiting : Worker E H
      waiting = record { id = id; phase = φ; task = call c k }

      rule : Obeys id φ (call c k)
      rule = (AllObey-split before (waiting ∷ after) (subst AllObey e inv.obeys)).1.0

      idle : (id.uuid == u && engaged φ) ≡ false
      idle = ground (arith, ap (engaged_on u) e, engaged-middle u before after waiting, o.abandoned)

      kept :
          (marks' u ≡ some pending)
          × ((id.uuid == u && engaged (next φ c r)) ≡ false)
          × (won u (success c r) ≡ 0)
      kept = call_orphan u id φ c r s.marks marks' rule.0 serves o.mark idle
  Step-Stuck sdk u (expire v) inv o kept = record {
    orphaned = record { mark = ground (arith, o.mark, kept); abandoned = o.abandoned };
    unhandled = refl;
  }

  Step-expirations :
      (sdk : Sdk E H) (u : Uuid) {s t : Fleet E H}
      → Step sdk s t
      → won u s.expirations ≤ won u t.expirations
  Step-expirations sdk u (deliver opts msg info known) = omega arith
  Step-expirations sdk u (reply before after id φ c k r marks' e serves) = omega arith
  Step-expirations sdk u (stop before after w e) = omega arith
  Step-expirations sdk u (expire v) = omega arith

  held-le-engaged_on : (u : Uuid) (ws : List (Worker E H)) → held u ws ≤ engaged_on u ws
  held-le-engaged_on u [] = omega arith
  held-le-engaged_on u (w ∷ ws) = ground (arith, held-le-engaged_on u ws)

  -- Any number of steps.
  pub data Steps (sdk : Sdk E H) (s : Fleet E H) : Fleet E H → Type 0 where
    stay : Steps sdk s s
    go : {t t' : Fleet E H} → Steps sdk s t → Step sdk t t' → Steps sdk s t'

  Steps-expirations :
      (sdk : Sdk E H) (u : Uuid) {s t : Fleet E H}
      → Steps sdk s t
      → won u s.expirations ≤ won u t.expirations
  Steps-expirations sdk u stay = omega arith
  Steps-expirations sdk u (go rest st) =
      omega (arith, Steps-expirations sdk u rest, Step-expirations sdk u st)

  Steps-Stuck :
      (sdk : Sdk E H) (u : Uuid) {s t : Fleet E H}
      → Steps sdk s t
      → Inv s
      → Orphaned u s
      → won u t.expirations ≡ won u s.expirations
      → Inv t × Stuck u s t
  Steps-Stuck sdk u stay inv o kept = (inv, record { orphaned = o; unhandled = refl })
  Steps-Stuck sdk u (go rest st) inv o kept =
      let grown = Steps-expirations sdk u rest in
      let grows = Step-expirations sdk u st in
      let (inv', stuck) = Steps-Stuck sdk u rest inv o (omega (arith, kept, grown, grows)) in
      let last = Step-Stuck sdk u st inv' stuck.orphaned (omega (arith, kept, grown, grows)) in
      (
        Step-Inv sdk st inv',
        record { orphaned = last.orphaned; unhandled = last.unhandled ∙ stuck.unhandled },
      )

  -- Once a worker has stopped between winning a claim and closing it, the id is handled no more while
  -- its key does not expire: whatever is delivered and whatever the store and JetStream reply, no worker
  -- ever enters the handler for it, so no redelivery succeeds, and the id stays pending.
  pub orphan_never_handled :
      (sdk : Sdk E H) (u : Uuid) {s t : Fleet E H}
      → Reach sdk s
      → Orphaned u s
      → Steps sdk s t
      → won u t.expirations ≡ won u s.expirations
      → (t.marks u ≡ some pending)
        × (running u t.workers ≡ 0)
        × (won u t.successes ≡ won u s.successes)
  orphan_never_handled sdk u {t} r o steps kept =
      let (inv, stuck) = Steps-Stuck sdk u steps (Reach-Inv sdk r) o kept in
      (
        stuck.orphaned.mark,
        omega (
          arith,
          running-le-held u t.workers inv.obeys,
          held-le-engaged_on u t.workers,
          stuck.orphaned.abandoned,
        ),
        stuck.unhandled,
      )
