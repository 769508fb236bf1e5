-- ===== src/Subscription/Examples.antt =====
-- A subscription that takes one message, whose claim is refused as already done, and drains.
use eventbus_rs.Prelude.{ℕ, ◌≡◌, refl, true, false, ok, [], ◌∷◌, All, length}
use eventbus_rs.Core.Id.{from_uuid}
use eventbus_rs.Core.Idempotency.{already_done}
use eventbus_rs.Calls.{try_claim, double_ack}
use eventbus_rs.Subscriber.Message.{Message}
use eventbus_rs.Subscriber.Observe.{Run}
use eventbus_rs.Subscriber.Process.{process_message}
use eventbus_rs.Subscriber.Loop.{
  Loop, opening, polling, permitting, draining, stopped, opened, permitted, worker_ended, signalled,
  shutdown_seen, joined, all_joined, init, step, reconnect_backoff_initial,
}
use eventbus_rs.Subscriber.Loop
use eventbus_rs.Subscription.{System, Reach, start, later, moves, spawns, calls, returns}
use mathlib.Mathlib.Data.Multiset.Defs.{of_list}
use mathlib.Mathlib.Data.Multiset.AddSub.{add}
use eventbus_rs.Subscription.Ledger.{LedgerReach}
use eventbus_rs.Subscription.Refines.{ledger_of, reach-LedgerReach, stopped_balance}
use eventbus_rs.Subscription.Ends.{Steps, drain_possible}
use eventbus_rs.Subscription.Answered.{Answered, returned-Answered}
use eventbus_rs.Samples.{Headers, sdk, options, message}

abbrev task : Loop (Message Headers)
task = record {
  point = polling;
  reconnect_backoff = reconnect_backoff_initial;
  permits = 2;
  active = 0;
  ended = 0;
  shutdown = false;
  received = [];
  spawned = [];
}

abbrev in_hand : Loop (Message Headers)
in_hand = record task { point = permitting message; received = message ∷ [] }

abbrev working : Loop (Message Headers)
working = record in_hand { point = polling; permits = 1; active = 1; spawned = message ∷ [] }

abbrev returned : Loop (Message Headers)
returned = record working { permits = 2; active = 0; ended = 1 }

abbrev over : Loop (Message Headers)
over = record returned { point = stopped; ended = 0 }

abbrev calls_made : Run ℕ Headers
calls_made = (try_claim (from_uuid 7), ok already_done) ∷ (double_ack, ok tt) ∷ []

abbrev final : System ℕ Headers
final = record { loop = over; jobs = []; finished = (message, calls_made) ∷ []; panicked = [] }

-- The worker has made its claim, and is about to acknowledge the message.
busy : (s : System ℕ Headers) × Reach sdk options 2 s × (length s.jobs ≡ 1)
unfolding step init process_message
busy = (
  _,
  later
      (later
        (later (later start (moves opened task refl refl))
          (moves (Loop.message message) in_hand refl refl))
        (spawns message working refl refl))
      (calls [] [] message [] _ _ (ok already_done) refl),
  refl,
)

final-Reach : Reach sdk options 2 final
unfolding step init process_message busy
final-Reach =
    later
      (later
        (later
          (later
            (later (later busy.1 (calls [] [] message _ _ _ (ok tt) refl))
              (returns [] [] message _ tt returned refl refl))
            (moves signalled (record returned { shutdown = true }) refl refl))
          (moves shutdown_seen (record returned { point = draining }) refl refl))
        (moves joined (record returned { point = draining; ended = 0 }) refl refl))
      (moves all_joined over refl refl)

returned-Answered_example : All (Answered sdk options) ((message, calls_made) ∷ [])
returned-Answered_example = returned-Answered sdk options 2 final-Reach

drain_possible_example :
    (t : System ℕ Headers) × Steps sdk options busy.0 t × (t.loop.point ≡ stopped) × (t.jobs ≡ [])
drain_possible_example = drain_possible sdk options 1 busy.1

reach-LedgerReach_example : LedgerReach 2 (ledger_of final)
reach-LedgerReach_example = reach-LedgerReach sdk options 2 final-Reach

stopped_balance_example :
    (final.jobs ≡ []) × (of_list (message ∷ []) ≡ add (of_list (message ∷ [])) (of_list []))
stopped_balance_example = stopped_balance sdk options 2 final-Reach refl
