-- ===== src/Derive/Accepts.antt =====
-- What the code that `#[derive(Event)]` generates relies on.
use eventbus_rs.Prelude.{
  ◌≡◌, refl, arith, String, Bool, true, false, Option, some, List, [], ◌∷◌, Result, ok, err, ok_or,
  Option-cases, inl, inr, str_eq, eq_iff, ◌⊎◌, ap, ◌++◌, Bool-cases,
}
use eventbus_rs.Derive.Template.{Subject, to_owned, formatted}
use eventbus_rs.Derive.Template.Fields.{all_known, build_subject_expression-sound}
use eventbus_rs.Derive.{
  Field, FieldType, type_path, other_type, other_struct, not_a_struct, is_message_id_path, Data,
  named_struct, DeriveInput, DeriveError, EventImpl, ParsedEventAttrs, and_then,
  missing_event_attribute, find_attribute, parse_event_attrs, named_fields, find_id,
  is_message_id_field, check_id, with_fields, idents, generate_event_impl,
}

and_then-ok :
    {A B : Type 0} (r : Result A DeriveError) (f : A → Result B DeriveError) (b : B)
    → and_then r f ≡ ok b
    → (a : A) × (r ≡ ok a) × (f a ≡ ok b)
and_then-ok (ok a) f b e = (a, refl, e)
and_then-ok (err x) f b e = ground (arith, e)

-- The type is written as a path without a qualified self, whose segments are `MessageId` alone, or
-- any with `bus_core` and `MessageId` as the last two.
abbrev pub WrittenMessageId : FieldType → Type 0
WrittenMessageId ty =
    (ty ≡ type_path false ("MessageId" ∷ []))
    ⊎ ((front : List String) × (ty ≡ type_path false (front ++ "bus_core" ∷ "MessageId" ∷ [])))

-- `self.id.clone()` is a message id: among the fields is one called `id`, of such a type.
abbrev pub HasId : List Field → Type 0
HasId fields =
    (before after : List Field) × (f : Field) × (fields ≡ before ++ f ∷ after)
    × (f.ident ≡ "id")
    × WrittenMessageId f.ty

-- The segments of a path that the macro takes for a message id.
path-ends :
    (ss : List String)
    → is_message_id_path ss ≡ true
    → (ss ≡ "MessageId" ∷ [])
      ⊎ ((front : List String) × (ss ≡ front ++ "bus_core" ∷ "MessageId" ∷ []))
unfolding is_message_id_path
path-ends [] e = ground (arith, e)
path-ends (s ∷ []) e = inl (ground (arith, e, eq_iff s "MessageId"))
path-ends (q ∷ s ∷ []) e = inr ([], ground (arith, e, eq_iff s "MessageId", eq_iff q "bus_core"))
path-ends (p ∷ q ∷ s ∷ ss) e = elim (path-ends (q ∷ s ∷ ss) e) [
  | inl h ↦ ground (arith, h)
  | inr (front, h) ↦ inr (p ∷ front, ap (p ∷◌) h)
]

type-WrittenMessageId :
    (ty : FieldType)
    → is_message_id_field (record { ident = "id"; ty = ty }) ≡ true
    → WrittenMessageId ty
unfolding is_message_id_field
type-WrittenMessageId (type_path qself segments) e = elim (path-ends segments (ground (arith, e))) [
  | inl h ↦ inl (ground (arith, e, h))
  | inr (front, h) ↦ inr (front, ground (arith, e, h))
]
type-WrittenMessageId other_type e = ground (arith, e)

field-WrittenMessageId : (f : Field) → is_message_id_field f ≡ true → WrittenMessageId f.ty
unfolding is_message_id_field
field-WrittenMessageId f e = type-WrittenMessageId f.ty e

find_id-HasId :
    (fields : List Field) (f : Field)
    → find_id fields ≡ some f
    → is_message_id_field f ≡ true
    → HasId fields
unfolding find_id
find_id-HasId [] f e h = ground (arith, e)
find_id-HasId (g ∷ fs) f e h = elim (Bool-cases (str_eq g.ident "id")) [
  | inl same ↦ (
    [],
    fs,
    g,
    refl,
    ground (arith, same, eq_iff g.ident "id"),
    field-WrittenMessageId g (ground (arith, e, h, same)),
  )
  | inr other ↦
      let (before, after, i, at, named, ty) = find_id-HasId fs f (ground (arith, e, other)) h in
      (g ∷ before, after, i, ap (g ∷◌) at, named, ty)
]

check_id-HasId : (fields : List Field) → check_id fields ≡ ok tt → HasId fields
unfolding check_id
check_id-HasId fields e = elim (Option-cases (find_id fields)) [
  | inl f ↦ ground (arith, e, f)
  | inr (g, f) ↦ find_id-HasId fields g f (ground (arith, e, f))
]

named_fields-named :
    (d : Data) (fields : List Field) → named_fields d ≡ ok fields → d ≡ named_struct fields
unfolding named_fields
named_fields-named (named_struct fs) fields e = ground (arith, e)
named_fields-named other_struct fields e = ground (arith, e)
named_fields-named not_a_struct fields e = ground (arith, e)

module _ (parse_ident : String → Option String) where
  -- Each `self.field` in the subject is a field.
  abbrev pub reads_fields : List Field → Subject → Bool
  reads_fields fields (to_owned s) = true
  reads_fields fields (formatted f args) = all_known parse_ident (idents fields) args

  -- The input is a struct with named fields, one of which is its message id; the subject reads fields.
  abbrev pub Fits : DeriveInput → EventImpl → Type 0
  Fits input impl =
      (fields : List Field) × (input.data_ ≡ named_struct fields)
      × HasId fields
      × (reads_fields fields impl.subject ≡ true)

  with_fields-Fits :
      (attrs : ParsedEventAttrs) (fields : List Field) (impl : EventImpl)
      → with_fields parse_ident attrs fields ≡ ok impl
      → HasId fields × (reads_fields fields impl.subject ≡ true)
  unfolding with_fields
  with_fields-Fits attrs fields impl e = (
    check_id-HasId fields (ground (arith, e)),
    ground (
      arith,
      e,
      build_subject_expression-sound parse_ident (idents fields) attrs.subject_template,
    ),
  )

  -- The generated code fits the type: where the macro accepts, the type is a struct with named fields;
  -- one of them is called `id`, and its type is written `MessageId` or as a path that ends in
  -- `bus_core::MessageId`; and the subject reads no field that the struct does not have.
  pub generate_event_impl-Fits :
      (input : DeriveInput) (impl : EventImpl)
      → generate_event_impl parse_ident input ≡ ok impl
      → Fits input impl
  unfolding generate_event_impl named_fields
  generate_event_impl-Fits input impl e =
      let (attribute, found, e1) =
        and_then-ok (ok_or missing_event_attribute (find_attribute input.attrs)) _ impl e in
      let (attrs, parsed, e2) = and_then-ok (parse_event_attrs attribute) _ impl e1 in
      let (fields, named, e3) = and_then-ok (named_fields input.data_) _ impl e2 in
      let d = with_fields-Fits attrs fields impl e3 in
      (fields, named_fields-named input.data_ fields named, d.0, d.1)
