-- ===== src/Derive.antt =====
-- crates/bus-macros/src/event.rs: `#[derive(Event)]`, from syn's parse of the type to the parts of the
-- implementation that it generates. An error is its kind; its span and text are left out.
pub mod Template
mod Accepts
mod Examples
use eventbus_rs.Prelude.{
  String, Bool, true, false, ◌&&◌, ◌||◌, not, Option, none, some, List, [], ◌∷◌, ◌++◌, Result, ok,
  err, map_err, ok_or, str_eq, if◌then◌else◌,
}
use eventbus_rs.Derive.Template.{Subject, SubjectError, build_subject_expression}

-- The value of `key = value` in an attribute.
pub data MetaValue : Type 0 where
  str : String → MetaValue
  other_literal : MetaValue
  malformed : MetaValue  -- no `=`, or no literal behind it

pub record Meta : Type 0 where
  pub key : String
  pub value : MetaValue

-- `#[path(metas)]`; syn rejects the other forms for `event`.
pub record Attribute : Type 0 where
  pub path : String
  pub metas : List Meta

pub data FieldType : Type 0 where
  type_path : Bool → List String → FieldType  -- whether it has a qself, and its segments
  other_type : FieldType

pub record Field : Type 0 where
  pub ident : String
  pub ty : FieldType

pub data Data : Type 0 where
  named_struct : List Field → Data
  other_struct : Data
  not_a_struct : Data

pub record DeriveInput : Type 0 where
  pub attrs : List Attribute
  pub data_ : Data

pub data DeriveError : Type 0 where
  missing_event_attribute : DeriveError
  malformed_meta : DeriveError
  subject_not_a_string aggregate_not_a_string : DeriveError
  unknown_key : String → DeriveError
  subject_required : DeriveError
  fields_not_named not_struct : DeriveError
  id_required id_type : DeriveError
  in_subject : SubjectError → DeriveError

pub record ParsedEventAttrs : Type 0 where
  pub subject_template : String
  pub aggregate : Option String

-- The generated `impl Event`: the expression of `subject`, and the name of `aggregate_type`. The
-- generated `message_id` is always `self.id.clone()`.
pub record EventImpl : Type 0 where
  pub subject : Subject
  pub aggregate_type : String

-- What the macro expands to.
pub data Expansion : Type 0 where
  implementation : EventImpl → Expansion
  compile_error : DeriveError → Expansion

-- What the closure of `parse_nested_meta` has set so far.
pub record Seen : Type 0 where
  pub subject_template : Option String
  pub aggregate : Option String

set_subject : Seen → MetaValue → Result Seen DeriveError
set_subject seen (str s) = ok (record seen { subject_template = some s })
set_subject seen other_literal = err subject_not_a_string
set_subject seen malformed = err malformed_meta

set_aggregate : Seen → MetaValue → Result Seen DeriveError
set_aggregate seen (str s) = ok (record seen { aggregate = some s })
set_aggregate seen other_literal = err aggregate_not_a_string
set_aggregate seen malformed = err malformed_meta

one_meta : Seen → Meta → Result Seen DeriveError
unfolding set_subject set_aggregate
one_meta seen meta =
    if str_eq meta.key "subject"
    then set_subject seen meta.value
    else if str_eq meta.key "aggregate"
    then set_aggregate seen meta.value
    else err (unknown_key meta.key)

abbrev and_then :
    {A B : Type 0} → Result A DeriveError → (A → Result B DeriveError) → Result B DeriveError
and_then (ok a) f = f a
and_then (err e) f = err e

all_metas : Seen → List Meta → Result Seen DeriveError
unfolding one_meta
all_metas seen [] = ok seen
all_metas seen (m ∷ ms) = and_then (one_meta seen m) (λ s. all_metas s ms)

required : Seen → Result ParsedEventAttrs DeriveError
required seen = elim seen.subject_template [
  | none ↦ err subject_required
  | some s ↦ ok (record { subject_template = s; aggregate = seen.aggregate })
]

unfoldable pub parse_event_attrs : Attribute → Result ParsedEventAttrs DeriveError
unfolding all_metas required
parse_event_attrs attr =
    and_then (all_metas (record { subject_template = none; aggregate = none }) attr.metas) required

find_attribute : List Attribute → Option Attribute
find_attribute [] = none
find_attribute (a ∷ as_) =
    let rest = find_attribute as_ in if str_eq a.path "event" then some a else rest

find_id : List Field → Option Field
find_id [] = none
find_id (f ∷ fs) = let rest = find_id fs in if str_eq f.ident "id" then some f else rest

-- The segments end in `MessageId`, alone or behind `bus_core`.
is_message_id_path : List String → Bool
is_message_id_path [] = false
is_message_id_path (s ∷ []) = str_eq s "MessageId"
is_message_id_path (q ∷ s ∷ []) = str_eq s "MessageId" && str_eq q "bus_core"
is_message_id_path (p ∷ q ∷ s ∷ ss) = is_message_id_path (q ∷ s ∷ ss)

unfoldable pub is_message_id_field : Field → Bool
unfolding is_message_id_path
is_message_id_field field = elim field.ty [
  | type_path qself segments ↦ not qself && is_message_id_path segments
  | other_type ↦ false
]

named_fields : Data → Result (List Field) DeriveError
named_fields (named_struct fields) = ok fields
named_fields other_struct = err fields_not_named
named_fields not_a_struct = err not_struct

check_id : List Field → Result (Unit {0}) DeriveError
unfolding find_id is_message_id_field
check_id fields = elim (find_id fields) [
  | none ↦ err id_required
  | some field ↦ if is_message_id_field field then ok tt else err id_type
]

abbrev pub idents : List Field → List String
idents [] = []
idents (f ∷ fs) = f.ident ∷ idents fs

abbrev pub aggregate_name : Option String → String
aggregate_name none = "default"
aggregate_name (some a) = a

module _ (parse_ident : String → Option String) where
  with_fields : ParsedEventAttrs → List Field → Result EventImpl DeriveError
  unfolding check_id
  with_fields attrs fields = and_then (check_id fields) (λ _.
      and_then
        (map_err in_subject
          (build_subject_expression parse_ident (idents fields) attrs.subject_template))
        (λ subject.
          ok (record { subject = subject; aggregate_type = aggregate_name attrs.aggregate })))

  unfoldable pub generate_event_impl : DeriveInput → Result EventImpl DeriveError
  unfolding find_attribute parse_event_attrs named_fields with_fields
  generate_event_impl input =
      and_then (ok_or missing_event_attribute (find_attribute input.attrs)) (λ attribute.
        and_then (parse_event_attrs attribute)
          (λ attrs. and_then (named_fields input.data_) (λ fields. with_fields attrs fields)))

  -- `derive_event_impl`, on what syn has parsed.
  unfoldable pub derive_event_impl : DeriveInput → Expansion
  unfolding generate_event_impl
  derive_event_impl input = elim (generate_event_impl input) [
    | ok tokens ↦ implementation tokens
    | err e ↦ compile_error e
  ]
