-- ===== src/Derive/Examples.antt =====
-- The macro on concrete input.
use eventbus_rs.Prelude.{
  ◌≡◌, refl, String, true, false, Option, none, some, List, [], ◌∷◌, ok, err, str_eq, if◌then◌else◌,
}
use eventbus_rs.Derive.Template.{formatted, unclosed, build_subject_expression, trim, field_of}
use eventbus_rs.Derive.Template.Rendering.{
  Placeholder, template, filled_in, rendered, subject_of, build_subject_expression-template,
}
use eventbus_rs.Derive.Template.Fields.{sound, build_subject_expression-sound}
use eventbus_rs.Derive.{str, type_path, named_struct, DeriveInput, EventImpl, generate_event_impl}
use eventbus_rs.Derive.Accepts.{Fits, generate_event_impl-Fits}

-- Every text is an identifier here but the empty one.
abbrev parse_ident : String → Option String
parse_ident s = if str_eq s "" then none else some s

abbrev fields : List String
fields = "id" ∷ "region" ∷ []

abbrev regional : List Placeholder
regional = record { inner = " self.region "; field = "region"; text = ".created" } ∷ []

build-regional :
    build_subject_expression parse_ident fields "orders.{ self.region }.created"
    ≡ ok (formatted "orders.{}.created" ("region" ∷ []))
unfolding build_subject_expression
build-regional = refl

build-unclosed : build_subject_expression parse_ident fields "orders.{self.id" ≡ err unclosed
unfolding build_subject_expression
build-unclosed = refl

-- A brace in the text is left as it is without placeholders, and does not compile with one.
stray_brace :
    (rendered (λ f. f) (build_subject_expression parse_ident fields "a}b") ≡ ok (some "a}b"))
    × (rendered (λ f. f) (build_subject_expression parse_ident fields "a}{self.id}") ≡ ok none)
unfolding build_subject_expression subject_of
stray_brace = (refl, refl)

build_subject_expression-template_example :
    rendered (λ f. f) (build_subject_expression parse_ident fields (template "orders." regional))
    ≡ ok (some (filled_in (λ f. f) "orders." regional))
unfolding field_of trim
build_subject_expression-template_example =
    build_subject_expression-template parse_ident fields (λ f. f) "orders." regional
      (refl, refl, refl, refl)

build_subject_expression-sound_example :
    sound parse_ident fields (build_subject_expression parse_ident fields "orders.{self.id}") ≡ true
build_subject_expression-sound_example =
    build_subject_expression-sound parse_ident fields "orders.{self.id}"

abbrev input : DeriveInput
input = record {
  attrs =
      record {
        path = "event";
        metas = record { key = "subject"; value = str "orders.{self.region}" } ∷ [];
      }
      ∷ [];
  data_ = named_struct (
      record { ident = "id"; ty = type_path false ("bus_core" ∷ "MessageId" ∷ []) }
      ∷ record { ident = "region"; ty = type_path false ("String" ∷ []) }
      ∷ []);
}

abbrev impl : EventImpl
impl = record { subject = formatted "orders.{}" ("region" ∷ []); aggregate_type = "default" }

generate-input : generate_event_impl parse_ident input ≡ ok impl
unfolding generate_event_impl build_subject_expression
generate-input = refl

generate_event_impl-Fits_example : Fits parse_ident input impl
generate_event_impl-Fits_example = generate_event_impl-Fits parse_ident input impl generate-input
