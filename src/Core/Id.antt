-- ===== src/Core/Id.antt =====
-- crates/bus-core/src/id.rs. A UUID is a 128-bit number; printing and parsing one belong to the
-- uuid crate and are a parameter.
use eventbus_rs.Prelude.{ℕ, String, ◌≡◌, ap, Bool, true, Option, some, ◌==◌, ◌↔◌, ==_iff}
use mathlib.Core.Option

abbrev pub Uuid : Type 0
Uuid = ℕ

pub record MessageId : Type 0 where
  pub uuid : Uuid

-- The functions of the uuid crate that the source calls.
pub record UuidApi : Type 0 where
  pub parse_str : String → Option Uuid
  pub hyphenated : Uuid → String
  pub new_v5 : String → Uuid  -- in `Uuid::NAMESPACE_OID`

-- Every UUID is read back from its print, as the uuid crate documents; so no two print alike.
abbrev pub Readable : UuidApi → Type 0
Readable api = (u : Uuid) → api.parse_str (api.hyphenated u) ≡ some u

abbrev pub from_uuid : Uuid → MessageId
from_uuid u = record { uuid = u }

-- `MessageId::as_uuid`.
abbrev pub as_uuid : MessageId → Uuid
as_uuid id = id.uuid

-- `Display`.
unfoldable pub show_id : UuidApi → MessageId → String
show_id api id = api.hyphenated id.uuid

-- `FromStr`, without the error's text, which every caller drops.
unfoldable pub from_str : UuidApi → String → Option MessageId
from_str api value = Option.map from_uuid (api.parse_str value)

-- The derived `PartialEq`.
abbrev pub eq_id : MessageId → MessageId → Bool
eq_id a b = a.uuid == b.uuid

pub eq_id_iff : (a b : MessageId) → (eq_id a b ≡ true) ↔ (a ≡ b)
eq_id_iff a b = (
  λ h. ap from_uuid ((==_iff a.uuid b.uuid).0 h),
  λ h. (==_iff a.uuid b.uuid).1 (ap (λ (m : MessageId). m.uuid) h),
)

-- `from_str` reads back what `Display` prints, where the uuid crate does.
pub from_str-show_id :
    (api : UuidApi) → Readable api → (id : MessageId) → from_str api (show_id api id) ≡ some id
unfolding from_str show_id
from_str-show_id api back id = rw (back id.uuid)
