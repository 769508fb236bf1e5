-- ===== src/Samples.antt =====
-- Concrete instances of what the development takes as parameters, and the test data of the
-- `Examples` modules.
use Prim.Native.String.{String}
use eventbus_rs.Prelude.{
  ℕ, zero, suc, ◌≡◌, refl, ap, Option, none, some, List, [], ◌∷◌, Result, ok, err, str_eq,
  if◌then◌else◌,
}
use eventbus_rs.Prelude.Int.{pos}
use eventbus_rs.Core.Duration.{from_secs}
use eventbus_rs.Core.Id.{UuidApi, Readable}
use eventbus_rs.Core.Idempotency.{claimed}
use eventbus_rs.Core.Error.{HandlerError}
use eventbus_rs.Calls
use eventbus_rs.Calls.{Call, Reply, Bytes, try_claim, mark_done, release, handle, now, within}
use eventbus_rs.Effect.Traces.{Oracle}
use eventbus_rs.Dlq.Config.{DlqOptions, default_dlq_config}
use eventbus_rs.Dlq.Headers.{HeaderApi, HeaderLaws}
use eventbus_rs.Inbox.NatsKv.Promise.{write}
use eventbus_rs.Inbox.Redis.{RedisApi, RedisIdempotencyStore}
use eventbus_rs.Inbox.Redis.Contract.{RedisLaws}
use eventbus_rs.Subscriber.Options.{ProcessingOptions}
use eventbus_rs.Subscriber.Message.{Message, Info, Sdk}

-- A UUID printed in unary.
abbrev pub unary : ℕ → String
unary zero = ""
unary (suc n) = String.◌∷◌ "u" (unary n)

abbrev count_chars : String → ℕ
count_chars String.[] = 0
count_chars (String.◌∷◌ c s) = suc (count_chars s)

abbrev pub uuids : UuidApi
uuids = record {
  parse_str = λ s. some (count_chars s);
  hyphenated = unary;
  new_v5 = λ s. count_chars s;
}

count_chars-unary : (n : ℕ) → count_chars (unary n) ≡ n
count_chars-unary zero = refl
count_chars-unary (suc n) = ap suc (count_chars-unary n)

pub uuids-Readable : Readable uuids
uuids-Readable n = ap some (count_chars-unary n)

-- A header map as the list of its inserts, the last one first.
abbrev pub Headers : Type 0
Headers = List (String × String)

abbrev pub lookup : String → Headers → Option String
lookup k [] = none
lookup k ((j, v) ∷ h) = if str_eq j k then some v else lookup k h

abbrev pub headers : HeaderApi Headers
headers = record {
  new = [];
  insert = λ k v h. (k, v) ∷ h;
  get = lookup;
  message_id = lookup "Nats-Msg-Id";
}

pub headers-HeaderLaws : HeaderLaws headers
headers-HeaderLaws = record { get-new = λ k. refl; get-insert = λ k v j h. refl }

-- A payload is an event if it is not empty: its first byte.
abbrev first_byte : Bytes → Result ℕ String
first_byte [] = err "EOF while parsing"
first_byte (b ∷ bs) = ok b

abbrev pub sdk : Sdk ℕ Headers
sdk = record { uuids = uuids; header_api = headers; from_slice = first_byte }

abbrev pub dlq : DlqOptions
dlq = record { config = default_dlq_config }

-- Three deliveries at most, and a DLQ.
abbrev pub options : ProcessingOptions
options = record {
  dlq_opts = some dlq;
  source = "EVENTS";
  durable = "worker";
  max_deliver = pos 3;
  backoff = from_secs 1 ∷ from_secs 5 ∷ [];
}

abbrev pub last_info : Info
last_info = record { stream_sequence = 42; delivered = pos 3 }

-- The third delivery of message 42, whose id is 7.
abbrev pub message : Message Headers
message = record {
  info = ok last_info;
  headers = some (("Nats-Msg-Id", "uuuuuuu") ∷ []);
  subject = "events.orders";
  payload = 9 ∷ [];
}

abbrev pub Replies : Type 0
Replies = Oracle (Call ℕ Headers) Reply

abbrev reply : Result (Unit {0}) HandlerError → (c : Call ℕ Headers) → Reply c
reply answer (try_claim k) = ok claimed
reply answer (mark_done k) = ok tt
reply answer (release k) = ok tt
reply answer (handle ctx e) = answer
reply answer now = ok (from_secs 1_700_000_000)
reply answer Calls.double_ack = ok tt
reply answer (Calls.ack_with kind) = ok tt
reply answer (Calls.publish_with_headers s h b) = ok tt
reply answer Calls.publish_ack = err "no responders"
reply answer (within d c) = ok (reply answer c)

-- Every request works but the one for JetStream's ack, and the handler answers this.
abbrev pub answering : Result (Unit {0}) HandlerError → Replies
answering answer h c = reply answer c

-- A Redis database as a function.
abbrev pub Db : Type 0
Db = String → Option String

abbrev pub redis : RedisApi Db
redis = record {
  get = λ k db. db k;
  set_px = λ k v ttl db. write k (some v) db;
  del = λ k db. write k none db;
}

pub redis-RedisLaws : RedisLaws redis
redis-RedisLaws = record { get-set_px = λ k v j ttl db. refl; get-del = λ k j db. refl }

abbrev pub redis_store : RedisIdempotencyStore
redis_store = record { key_prefix = "eventbus:processed:"; ttl_ms = 1000 }

abbrev pub empty : Db
empty k = none
