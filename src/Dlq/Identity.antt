-- ===== src/Dlq/Identity.antt =====
-- Which dead letters, subjects and streams share a name: `dedup_id`, `dlq_subject` and
-- `dlq_stream_name` of crates/bus-nats/src/dlq.rs.
use Prim.Native.Char.{Char, code}
use Prim.Native.String
use text.Mathlib.TextLemmas.{
  nil-append, cons-append, append-nil, append_assoc, append_cancel_left, append_cancel_right,
  cons-ne-nil,
}
use eventbus_rs.Prelude.{◌^◌, ◌<◌, String, ◌≡◌, ◌≢◌, sym, ap, ◌∙◌, true}
use eventbus_rs.Prelude.Text.{to_string}
use eventbus_rs.Prelude.Text.Decimal.{
  absent, before_separator, colon_absent-to_string, to_string-injective,
}
use eventbus_rs.Dlq.Config.{dlq_subject, dlq_stream_name}
use eventbus_rs.Dlq.Headers.{FailureInfo, dedup_id}

infixr 65 ◌++◌
abbrev ◌++◌ : String → String → String
s ++ t = String.◌++◌ s t

separator : (c : Char) (s : String) → String.◌∷◌ c "" ++ s ≡ String.◌∷◌ c s
separator c s = cons-append c "" s ∙ ap (String.◌∷◌ c) (nil-append s)

-- Two texts, each cut at its first separator, agree on both sides.
cut :
    (c : Char) (s s' t t' : String)
    → absent (code c) s ≡ true
    → absent (code c) s' ≡ true
    → s ++ String.◌∷◌ c "" ++ t ≡ s' ++ String.◌∷◌ c "" ++ t'
    → (s ≡ s') × (t ≡ t')
cut c s s' t t' h h' e =
    (same, append_cancel_left (String.◌∷◌ c "") t t' (append_cancel_left s _ _ rest))
  where
    same : s ≡ s'
    same =
        before_separator s s' t t' c h h'
          (sym (ap (λ x. s ++ x) (separator c t)) ∙ e ∙ ap (λ x. s' ++ x) (separator c t'))

    rest : s ++ String.◌∷◌ c "" ++ t ≡ s ++ String.◌∷◌ c "" ++ t'
    rest = e ∙ ap (λ x. x ++ String.◌∷◌ c "" ++ t') (sym same)

-- Within one DLQ stream, two dead letters have the same id for JetStream's deduplication only if they
-- are of the same message and the same delivery.
pub dedup_id-injective :
    (i j : FailureInfo)
    → i.original_stream ≡ j.original_stream
    → i.consumer ≡ j.consumer
    → i.original_seq < 2 ^ 64
    → j.original_seq < 2 ^ 64
    → i.delivered < 2 ^ 64
    → j.delivered < 2 ^ 64
    → dedup_id i ≡ dedup_id j
    → (i.original_seq ≡ j.original_seq) × (i.delivered ≡ j.delivered)
unfolding dedup_id
dedup_id-injective i j stream consumer hi hj di dj e = (
  to_string-injective i.original_seq j.original_seq hi hj parts.0,
  to_string-injective i.delivered j.delivered di dj (
      append_cancel_right _ _ ""
        (append_cancel_left ":" _ _ (append_cancel_left i.consumer _ _ letters))),
)
  where
    tail : FailureInfo → String
    tail k =
        ":" ++ to_string k.original_seq ++ ":" ++ k.consumer ++ ":" ++ to_string k.delivered ++ ""

    tails : tail i ≡ tail j
    tails = append_cancel_left i.original_stream _ _ (e ∙ ap (λ s. s ++ tail j) (sym stream))

    parts :
        (to_string i.original_seq ≡ to_string j.original_seq)
        × (i.consumer ++ ":" ++ to_string i.delivered ++ ""
            ≡ j.consumer ++ ":" ++ to_string j.delivered ++ "")
    parts =
        cut ":" (to_string i.original_seq) (to_string j.original_seq) _ _
          (colon_absent-to_string i.original_seq) (colon_absent-to_string j.original_seq)
          (append_cancel_left ":" _ _ tails)

    letters :
        i.consumer ++ ":" ++ to_string i.delivered ++ ""
        ≡ i.consumer ++ ":" ++ to_string j.delivered ++ ""
    letters = parts.1 ∙ ap (λ s. s ++ ":" ++ to_string j.delivered ++ "") (sym consumer)

-- JetStream allows no dot in the names of streams and consumers. Then the subject tells apart every
-- two consumers.
pub dlq_subject-injective :
    (stream stream' durable durable' : String)
    → absent b'.' stream ≡ true
    → absent b'.' stream' ≡ true
    → dlq_subject stream durable ≡ dlq_subject stream' durable'
    → (stream ≡ stream') × (durable ≡ durable')
unfolding dlq_subject
dlq_subject-injective stream stream' durable durable' h h' e =
    let (same, rest) = cut "." stream stream' _ _ h h' (append_cancel_left "dlq." _ _ e) in
    (same, append_cancel_right durable durable' "" rest)

longer : (a b : String) → a ++ "_" ++ b ≢ a
longer a b e =
    cons-ne-nil _ _ (sym (separator "_" b) ∙ append_cancel_left a _ _ (e ∙ sym (append-nil a)))

-- The name of a DLQ stream does not tell consumers apart: the consumers `c` of the stream `a_b` and
-- `b_c` of the stream `a` share a DLQ stream, and the subject that the second one publishes to is not
-- the first one's, where `a` and `a_b` have no dot.
pub dlq_stream_name_shared :
    (a b c : String)
    → absent b'.' a ≡ true
    → absent b'.' (a ++ "_" ++ b) ≡ true
    → (dlq_stream_name (a ++ "_" ++ b) c ≡ dlq_stream_name a (b ++ "_" ++ c))
      × (dlq_subject (a ++ "_" ++ b) c ≢ dlq_subject a (b ++ "_" ++ c))
unfolding dlq_stream_name
dlq_stream_name_shared a b c h h' = (
  ap (λ s. "DLQ_" ++ s)
      (append_assoc a ("_" ++ b) ("_" ++ c ++ "")
        ∙ ap (λ s. a ++ s) (append_assoc "_" b ("_" ++ c ++ "") ∙ ap (λ s. "_" ++ s) inner)),
  λ e. longer a b (dlq_subject-injective (a ++ "_" ++ b) a c (b ++ "_" ++ c) h' h e).0,
)
  where
    inner : b ++ "_" ++ c ++ "" ≡ (b ++ "_" ++ c) ++ ""
    inner = sym (append_assoc b ("_" ++ c) "" ∙ ap (λ s. b ++ s) (append_assoc "_" c ""))
