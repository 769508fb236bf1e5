-- ===== src/Fleet/Budget.antt =====
-- The invariant: for each message id, the claims that are held and the successes together are at
-- most one more than its key has expired, and no more than that while the store has no mark for it.
use eventbus_rs.Prelude.{
  ℕ, ◌+◌, ◌≤◌, ◌≡◌, ap, subst, arith, true, ◌&&◌, List, [], ◌∷◌, ◌++◌, count, count-append,
  count-middle, if◌then◌else◌, ◌==◌,
}
use eventbus_rs.Core.Id.{Uuid, MessageId}
use eventbus_rs.Core.Idempotency.{Marks, present}
use eventbus_rs.Effect.{call}
use eventbus_rs.Calls.{Call, Reply, try_claim, mark_done, release, handle}
use eventbus_rs.Subscriber.Message.{Sdk}
use eventbus_rs.Subscriber.Discipline.{Phase, holds, allowed, next, Obeys, process_message-Obeys}
use eventbus_rs.Fleet.System.{
  Worker, Fleet, Serves, success, Step, deliver, reply, stop, expire, Reach, start, later,
}

-- 1 if this is a claim on the id `u` that is held.
abbrev pub hold : Uuid → MessageId → Phase → ℕ
hold u id φ = if id.uuid == u && holds φ then 1 else 0

abbrev pub won : Uuid → List MessageId → ℕ
won u = count (λ id. id.uuid == u)

module _ {E H : Type 0} where
  abbrev pub held : Uuid → List (Worker E H) → ℕ
  held u = count (λ w. w.id.uuid == u && holds w.phase)

  -- One call keeps the budget of every id; `rest` counts the other workers and the successes so far,
  -- `expired` how often the key has.
  pub call_budget :
      (id : MessageId) (φ : Phase) (c : Call E H) (r : Reply c) (marks marks' : Marks)
      → allowed id φ c ≡ true
      → Serves marks c r marks'
      → (u : Uuid) (rest expired : ℕ) → rest + hold u id φ ≤ present (marks u) + expired
      → rest + hold u id (next φ c r) + won u (success c r) ≤ present (marks' u) + expired
  call_budget id φ (try_claim k) r marks marks' a s u rest expired h = ground arith
  call_budget id φ (mark_done k) r marks marks' a s u rest expired h = ground arith
  call_budget id φ (release k) r marks marks' a s u rest expired h = ground arith
  call_budget id φ (handle ctx e) r marks marks' a s u rest expired h = ground arith
  call_budget id φ c r marks marks' a s u rest expired h = ground arith

  held-middle :
      (u : Uuid) (before after : List (Worker E H)) (w : Worker E H)
      → held u (before ++ w ∷ after) ≡ held u before + held u after + hold u w.id w.phase
  held-middle u before after w =
      count-middle (λ (v : Worker E H). v.id.uuid == u && holds v.phase) before after w

  abbrev pub AllObey : List (Worker E H) → Type 0
  AllObey [] = Unit
  AllObey (w ∷ ws) = Obeys w.id w.phase w.task × AllObey ws

  AllObey-append :
      (before after : List (Worker E H))
      → AllObey before
      → AllObey after
      → AllObey (before ++ after)
  AllObey-append [] after hb ha = ha
  AllObey-append (w ∷ ws) after hb ha = (hb.0, AllObey-append ws after hb.1 ha)

  pub AllObey-split :
      (before after : List (Worker E H))
      → AllObey (before ++ after)
      → AllObey before × AllObey after
  AllObey-split [] after h = (tt, h)
  AllObey-split (w ∷ ws) after h = let (l, r) = AllObey-split ws after h.1 in ((h.0, l), r)

  pub record Inv (s : Fleet E H) : Type 0 where
    pub obeys : AllObey s.workers
    pub budget :
        (u : Uuid)
        → held u s.workers + won u s.successes ≤ present (s.marks u) + won u s.expirations

  AllObey-middle :
      (before after : List (Worker E H)) (w w' : Worker E H)
      → AllObey (before ++ w ∷ after)
      → Obeys w'.id w'.phase w'.task
      → AllObey (before ++ w' ∷ after)
  AllObey-middle before after w w' h o =
      let (l, r) = AllObey-split before (w ∷ after) h in
      AllObey-append before (w' ∷ after) l (o, r.1)

  -- Every delivery, reply, lost reply and crash keeps it.
  pub Step-Inv : (sdk : Sdk E H) {s t : Fleet E H} → Step sdk s t → Inv s → Inv t
  Step-Inv sdk (deliver opts msg info known) inv = record {
    obeys = (process_message-Obeys sdk opts msg info known, inv.obeys);
    budget = λ u. ground (arith, inv.budget u);
  }
  Step-Inv sdk {s} (reply before after id φ c k r marks' e serves) inv = record {
    obeys = AllObey-middle before after waiting _ split (rule.1 r);
    budget = λ u. omega (
      arith,
      inv.budget u,
      ap (held u) e,
      held-middle u before after waiting,
      held-middle u before after (record waiting { phase = next φ c r; task = k r }),
      count-append (λ (i : MessageId). i.uuid == u) (success c r) s.successes,
      call_budget id φ c r s.marks marks' rule.0 serves u
          (held u before + held u after + won u s.successes) (won u s.expirations),
    );
  }
    where
      waiting : Worker E H
      waiting = record { id = id; phase = φ; task = call c k }

      split : AllObey (before ++ waiting ∷ after)
      split = subst AllObey e inv.obeys

      rule : Obeys id φ (call c k)
      rule = (AllObey-split before (waiting ∷ after) split).1.0
  Step-Inv sdk {s} (stop before after w e) inv = record {
    obeys =
        let (l, r) = AllObey-split before (w ∷ after) (subst AllObey e inv.obeys) in
        AllObey-append before after l r.1;
    budget = λ u. omega (
      arith,
      inv.budget u,
      ap (held u) e,
      held-middle u before after w,
      count-append (λ (v : Worker E H). v.id.uuid == u && holds v.phase) before after,
    );
  }
  Step-Inv sdk {s} (expire v) inv = record {
    obeys = inv.obeys;
    budget = λ u. ground (arith, inv.budget u);
  }

  pub Reach-Inv : (sdk : Sdk E H) {s : Fleet E H} → Reach sdk s → Inv s
  Reach-Inv sdk (start marks) = record { obeys = tt; budget = λ u. omega arith }
  Reach-Inv sdk (later r st) = Step-Inv sdk st (Reach-Inv sdk r)
