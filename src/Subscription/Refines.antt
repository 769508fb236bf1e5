-- ===== src/Subscription/Refines.antt =====
-- The running subscription against its promise: forgetting the order of its lists, the calls of its
-- workers and the awaits of its task, every step is one of the ledger or changes nothing in it.
use mathlib.Core.Quot.{sound}
use mathlib.Core.List.{perm_middle, map-append}
use mathlib.Mathlib.Data.Multiset.Defs.{of_list}
use mathlib.Mathlib.Data.Multiset.ZeroCons.{cons}
use mathlib.Mathlib.Data.Multiset.AddSub.{add, zero-add}
use eventbus_rs.Prelude.{
  ℕ, suc, ◌≡◌, refl, sym, ap, subst, ◌∙◌, arith, none, List, [], ◌∷◌, ◌++◌, map, length, append_nil,
}
use eventbus_rs.Effect.{ret, call}
use eventbus_rs.Subscriber.Options.{ProcessingOptions}
use eventbus_rs.Subscriber.Message.{Message, Sdk}
use eventbus_rs.Subscriber.Observe.{Run}
use eventbus_rs.Subscriber.Loop.{Loop, init, stopped}
use eventbus_rs.Subscriber.Loop.Invariant.{is_stopped}
use eventbus_rs.Subscriber.Loop.Messages.{
  held_message, OwnStep, quiet, took, ended, step-OwnStep, step-begins, step-over,
}
use eventbus_rs.Subscription.{Job, System, Step, moves, spawns, calls, Reach, start, later}
use eventbus_rs.Subscription
use eventbus_rs.Subscription.Answered.{stopped_accounts}
use eventbus_rs.Subscription.Jobs.{Tracked, reach-Tracked}
use eventbus_rs.Subscription.Ledger.{
  Ledger, LedgerStep, takes, begins, returns, panics, closes, LedgerReach, hand, reach-Balanced,
  size-of_list,
}
use eventbus_rs.Subscription.Ledger

-- A list up to order, with an entry at its end or in its middle.
of_list-snoc : {A : Type 0} (xs : List A) (x : A) → of_list (xs ++ x ∷ []) ≡ cons x (of_list xs)
of_list-snoc xs x = sound (perm_middle xs []) ∙ ap (λ l. cons x (of_list l)) (append_nil xs)

module _ {E H : Type 0} where
  abbrev messages : List (Job E H) → List (Message H)
  messages js = map (λ (j : Job E H). j.msg) js

  length-messages : (js : List (Job E H)) → length (messages js) ≡ length js
  length-messages [] = refl
  length-messages (j ∷ js) = ap suc (length-messages js)

  working_around :
      (before after : List (Job E H)) (j : Job E H)
      → of_list (messages (before ++ j ∷ after)) ≡ cons j.msg (of_list (messages (before ++ after)))
  working_around before after j =
      ap of_list (map-append (λ (j : Job E H). j.msg) before (j ∷ after))
      ∙ sound (perm_middle (messages before) (messages after))
      ∙ ap (λ l. cons j.msg (of_list l)) (sym (map-append (λ (j : Job E H). j.msg) before after))

  -- What the state of the system stands for.
  abbrev pub ledger_of : System E H → Ledger (Message H)
  ledger_of s = record {
    received = of_list s.loop.received;
    in_hand = held_message s.loop.point;
    working = of_list (messages s.jobs);
    returned = of_list (map (λ (w : Message H × Run E H). w.0) s.finished);
    panicked = of_list s.panicked;
    closed = is_stopped s.loop.point;
  }

module _ {E H : Type 0} (sdk : Sdk E H) (opts : ProcessingOptions) (c : ℕ) where
  -- The ledger of the system after a step of its task alone.
  own_reach :
      (s : System E H) (l : Loop (Message H))
      → Tracked c s
      → OwnStep s.loop l
      → LedgerReach c (ledger_of s)
      → LedgerReach c (ledger_of (record s { loop = l }))
  own_reach s l i (quiet r h d) reached =
      subst (LedgerReach c)
        (λ k. record (ledger_of s) {
          received = of_list (sym r k);
          in_hand = sym h k;
          closed = sym d k;
        })
        reached
  own_reach s l i (took m none_held unstopped r h d) reached =
      subst (LedgerReach c)
        (λ k. record (ledger_of s) {
          received = sym (ap of_list r ∙ of_list-snoc s.loop.received m) k;
          in_hand = sym h k;
          closed = (unstopped ∙ sym d) k;
        })
        (Ledger.later reached (takes m none_held unstopped))
  own_reach s l i (ended idle r before h d) reached =
      subst (LedgerReach c)
        (λ k. record (ledger_of s) {
          received = of_list (sym r k);
          in_hand = (before ∙ sym h) k;
          closed = sym d k;
        })
        (Ledger.later reached (closes before (ap (λ js. of_list (messages js)) no_jobs)))
    where
      no_jobs : s.jobs ≡ []
      no_jobs = ground (arith, i.workers, idle)

  step_reach :
      {s t : System E H}
      → Tracked c s
      → Step sdk opts s t
      → LedgerReach c (ledger_of s)
      → LedgerReach c (ledger_of t)
  step_reach {s} i (moves h l o e) reached = own_reach s l i (step-OwnStep s.loop l h o e) reached
  step_reach {s} i (spawns msg l a e) reached =
      let w = step-begins s.loop l msg a e in
      subst (LedgerReach c)
        (λ k. record (ledger_of s) {
          received = of_list (sym w.0 k);
          in_hand = sym w.1 k;
          working = of_list (msg ∷ messages s.jobs);
          closed = (w.2 ∙ sym w.3) k;
        })
        (Ledger.later reached (
          begins msg (ap held_message a) (
            omega (
              arith,
              size-of_list (messages s.jobs),
              length-messages s.jobs,
              i.workers,
              i.task.conserved,
              w.4,
            ))))
  step_reach {s} i (calls before after msg t q k r a) reached =
      let j : Job E H = record { msg = msg; calls = t; task = call q k } in
      let j2 : Job E H = record { msg = msg; calls = t ++ (q, r) ∷ []; task = k r } in
      subst (LedgerReach c)
        (λ v. record (ledger_of s) {
          working =
              (ap (λ js. of_list (messages js)) a
                  ∙ working_around before after j
                  ∙ sym (working_around before after j2))
                v;
        })
        reached
  step_reach {s} i (Subscription.returns before after msg t u l a e) reached =
      let w = step-over s.loop l e in
      subst (LedgerReach c)
        (λ k. record (ledger_of s) {
          received = of_list (sym w.0 k);
          in_hand = held_message (sym w.1 k);
          working = of_list (messages (before ++ after));
          returned = of_list (msg ∷ map (λ (w : Message H × Run E H). w.0) s.finished);
          closed = is_stopped (sym w.1 k);
        })
        (Ledger.later reached (
          returns msg (of_list (messages (before ++ after))) (
            ap (λ js. of_list (messages js)) a
            ∙ working_around before after (record { msg = msg; calls = t; task = ret u }))))
  step_reach {s} i (Subscription.panics before after j l a e) reached =
      let w = step-over s.loop l e in
      subst (LedgerReach c)
        (λ k. record (ledger_of s) {
          received = of_list (sym w.0 k);
          in_hand = held_message (sym w.1 k);
          working = of_list (messages (before ++ after));
          panicked = of_list (j.msg ∷ s.panicked);
          closed = is_stopped (sym w.1 k);
        })
        (Ledger.later reached (
          panics j.msg (of_list (messages (before ++ after)))
            (ap (λ js. of_list (messages js)) a ∙ working_around before after (j))))

  -- The running subscription keeps its promise: in whatever order the task, its workers, the server, the
  -- store and the handler move, every state of it, with the order of its messages forgotten, is one that
  -- the ledger reaches. So a message is taken before it is given to a worker, one at a time and only
  -- while less than the concurrency are at work; it leaves with its worker, returned or panicked; and
  -- after the task has stopped none is taken.
  pub reach-LedgerReach : {s : System E H} → Reach sdk opts c s → LedgerReach c (ledger_of s)
  unfolding init
  reach-LedgerReach start = Ledger.start
  reach-LedgerReach (later r m) = step_reach (reach-Tracked sdk opts c r) m (reach-LedgerReach r)

  -- Once the task has stopped, no worker is left, and the messages that it took from the stream are
  -- those of the workers that have returned and of those that have panicked, each as often, whatever the
  -- order.
  pub stopped_balance :
      {s : System E H}
      → Reach sdk opts c s
      → s.loop.point ≡ stopped
      → (s.jobs ≡ [])
        × (of_list s.loop.received
            ≡ add
                (of_list (map (λ (w : Message H × Run E H). w.0) s.finished))
                (of_list s.panicked))
  stopped_balance {s} r e =
      let i = reach-Balanced c (reach-LedgerReach r) in
      let over = add (ledger_of s).returned (ledger_of s).panicked in
      let empty_handed = i.settled (ap is_stopped e) in
      (
        (stopped_accounts sdk opts c r e).0,
        i.accounted
            ∙ ap (λ h. add (hand h) (add (ledger_of s).working over)) empty_handed.0
            ∙ ap (λ w. add (hand none) (add w over)) empty_handed.1
            ∙ ap (add (hand none)) (zero-add over)
            ∙ zero-add over,
      )
