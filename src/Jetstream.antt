-- ===== src/Jetstream.antt =====
-- What the crates ask of async-nats when they set things up: connections, streams and consumers.
-- `O` is the type of async-nats' `ConnectOptions`.
use eventbus_rs.Prelude.{ℕ, String, Bool, Option, List, Result}
use eventbus_rs.Prelude.Int.{ℤ}
use eventbus_rs.Core.Duration.{Duration}
use eventbus_rs.Effect.{Proc}
use eventbus_rs.Subscriber.Options.{PullConfig}

pub data RetentionPolicy : Type 0 where
  limits : RetentionPolicy

pub data StorageType : Type 0 where
  file : StorageType

pub data DiscardPolicy : Type 0 where
  old : DiscardPolicy

-- `stream::Config`; `none` is a field that the source leaves at async-nats' default.
pub record StreamSpec : Type 0 where
  pub name : String
  pub subjects : List String
  pub retention : Option RetentionPolicy
  pub storage : StorageType
  pub discard : DiscardPolicy
  pub max_age : Duration
  pub max_bytes : Option ℤ
  pub duplicate_window : Duration
  pub num_replicas : ℕ
  pub deny_delete : Option Bool
  pub deny_purge : Option Bool
  pub allow_direct : Bool

pub data SetupCall (O : Type 0) : Type 0 where
  connect : O → String → SetupCall O
  get_stream : String → SetupCall O
  get_or_create_stream : StreamSpec → SetupCall O
  get_or_create_consumer : String → PullConfig → SetupCall O

abbrev pub SetupReply : {O : Type 0} → SetupCall O → Type 0
SetupReply c = Result (Unit {0}) String

abbrev pub Setup : Type 0 → Type 0 → Type 0
Setup O A = Proc (SetupCall O) SetupReply A
