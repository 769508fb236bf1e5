-- ===== src/Subscriber/Examples.antt =====
-- Runs of `process_message` on concrete input.
use eventbus_rs.Prelude.{
  ℕ, Option, length, ◌≡◌, refl, true, false, some, ok, [], ◌∷◌, err, not, ◌&&◌, ◌||◌, if◌then◌else◌,
}
use eventbus_rs.Prelude.Int.{pos}
use eventbus_rs.Core.Duration.{from_secs}
use eventbus_rs.Core.Error.{transient}
use eventbus_rs.Core.Id.{from_uuid}
use eventbus_rs.Effect.Traces.{Oracle, trace, result}
use eventbus_rs.Subscriber.Handle.{
  HandleCall, HandleReply, send_shutdown, await_within, abort, drain,
}
use eventbus_rs.Samples.{Headers, sdk, dlq, options, last_info, message, Replies, answering}
use eventbus_rs.Subscriber.Observe.{
  Run, verdicts, nacked, closings, claim_reply, handler_replies, confirmed, letters, only_confirmed,
  released,
}
use eventbus_rs.Subscriber.Outcome.{
  decision, won, decodes, is_termed, closing_for, verdicts-process_message,
  closings-process_message, termed_only_confirmed,
}
use eventbus_rs.Subscriber.Letters.{
  clock, cause, is_final, is_done, is_empty, is_some, Cause, letter, letters-process_message,
  last_delivery_settles,
}
use eventbus_rs.Subscriber.Options.{SubscribeOptions, default_options}
use eventbus_rs.Subscriber.Subscribe.{spawn_task, subscribe}
use eventbus_rs.Subscriber.Routing.{asked_for, Addressed, letters-Addressed}
use eventbus_rs.Jetstream.{SetupCall, SetupReply, StreamSpec}
use eventbus_rs.Subscriber.Message.{message_id}
use eventbus_rs.Subscriber.Discipline.{fresh, Obeys, process_message-Obeys}
use eventbus_rs.Subscriber.Process.{process_message}

-- The handler fails on the last delivery, and the DLQ does not confirm.
abbrev replies : Replies
replies = answering (err (transient "timeout"))

abbrev run : Run ℕ Headers
run = trace replies [] (process_message sdk options message)

verdicts-run : verdicts run ≡ nacked (some (from_secs 5)) ∷ []
unfolding trace process_message
verdicts-run = refl

closings-run : closings run ≡ released (from_uuid 7) ∷ []
unfolding trace process_message
closings-run = refl

verdicts-process_message_example :
    verdicts run
    ≡ decision options last_info
        (confirmed run)
        (claim_reply run)
        (sdk.from_slice message.payload)
        (handler_replies run)
verdicts-process_message_example =
    verdicts-process_message sdk options message last_info replies [] refl

closings-process_message_example :
    (length (closings run) ≡ (if won (claim_reply run) then 1 else 0))
    × (closings run ≡ (
        if won (claim_reply run)
        then closing_for (message_id sdk options message last_info) (verdicts run)
        else []))
closings-process_message_example =
    closings-process_message sdk options message last_info replies [] refl

termed_only_confirmed_example : only_confirmed (λ v. not (is_termed v)) run ≡ true
termed_only_confirmed_example =
    termed_only_confirmed sdk options message last_info replies [] refl dlq refl

process_message-Obeys_example :
    Obeys (message_id sdk options message last_info) fresh (process_message sdk options message)
process_message-Obeys_example = process_message-Obeys sdk options message last_info refl

-- A task that does not end within the time.
abbrev slow : (c : HandleCall ℕ) → HandleReply c
slow send_shutdown = ok tt
slow (await_within timeout task) = err tt
slow (abort task) = tt

abbrev too_slow : Oracle (HandleCall ℕ) HandleReply
too_slow h c = slow c

result-drain : result too_slow [] (drain (record { handle = some 4 }) (from_secs 10)) ≡ false
unfolding result drain
result-drain = refl

abbrev reason : Option Cause
reason =
    cause options last_info (claim_reply run) (sdk.from_slice message.payload) (handler_replies run)

letters-process_message_example :
    (length (handler_replies run)
      ≡ (if won (claim_reply run) && decodes (sdk.from_slice message.payload) then 1 else 0))
    × (length (letters run) ≡ (if is_some options.dlq_opts && is_some reason then 1 else 0))
    × (letters run ≡ letter sdk options message last_info options.dlq_opts reason (clock run))
letters-process_message_example =
    letters-process_message sdk options message last_info replies [] refl

last_delivery_settles_example : is_final (verdicts run) ≡ (
    is_done (claim_reply run)
    || (won (claim_reply run) && (is_empty (letters run) || confirmed run)))
last_delivery_settles_example =
    last_delivery_settles sdk options message last_info replies [] refl refl

abbrev with_dlq : SubscribeOptions
with_dlq = record default_options { max_deliver = pos 3; dlq = some dlq }

abbrev all_up : (c : SetupCall ℕ) → SetupReply c
all_up c = ok tt

abbrev setup : Oracle (SetupCall ℕ) SetupReply
setup h c = all_up c

letters-Addressed_example :
    (spec : StreamSpec) × (asked_for (trace setup [] (subscribe {M = ℕ} with_dlq)) ≡ spec ∷ [])
    × Addressed spec (
        letters
          (trace replies [] (process_message sdk (spawn_task {M = ℕ} with_dlq).processing message)))
unfolding result subscribe
letters-Addressed_example =
    letters-Addressed sdk with_dlq dlq setup (spawn_task with_dlq) message replies refl refl
