-- ===== src/Derive/Template/Rendering.antt =====
-- The subject that the generated code of crates/bus-macros/src/event.rs yields, with Rust's `format!`.
use Prim.Native.Char.{Char, code}
use Prim.Native.String
use Prim.Native.String.{String}
use text.Mathlib.TextLemmas.{
  nil-append, cons-append, append-nil as str_append_nil, append_assoc as str_append_assoc,
}
use eventbus_rs.Prelude.{
  ℕ, zero, suc, ◌+◌, ◌≤◌, ◌<◌, ◌≡◌, refl, ap, ◌∙◌, arith, true, Option, none, some, List, [], ◌∷◌,
  ◌++◌, map, length, Result, ok, err, append_assoc, append_nil,
}
use eventbus_rs.Prelude.Text.Decimal.{absent}
use eventbus_rs.Derive.Template.Format.{
  plain, prepend, format_macro, no_braces, format_macro-text, format_macro-placeholder,
}
use eventbus_rs.Derive.Template.{
  Subject, to_owned, formatted, SubjectError, split_once, before, trim, field_of, loop, finish,
  count_chars, build_subject_expression,
}

-- The subject of an event whose fields print as `shown`, if the generated code compiles.
unfoldable pub subject_of : (String → String) → Subject → Option String
unfolding format_macro
subject_of shown (to_owned s) = some s
subject_of shown (formatted f args) = format_macro plain f (map shown args)

-- A placeholder as it is written between its braces, the field that it names, and the text after it.
pub record Placeholder : Type 0 where
  pub inner : String
  pub field : String
  pub text : String

-- The template, and the subject that it stands for.
abbrev pub template : String → List Placeholder → String
template text [] = text
template text (p ∷ ps) =
    String.◌++◌ text (String.◌∷◌ "{" (String.◌++◌ p.inner (String.◌∷◌ "}" (template p.text ps))))

abbrev pub filled_in : (String → String) → String → List Placeholder → String
filled_in shown text [] = text
filled_in shown text (p ∷ ps) =
    String.◌++◌ text (String.◌++◌ (shown p.field) (filled_in shown p.text ps))

split_once-append :
    (k : Char) (a b : String)
    → absent (code k) a ≡ true
    → split_once (code k) (String.◌++◌ a (String.◌∷◌ k b)) ≡ some (a, b)
unfolding split_once before
split_once-append k String.[] b h = rw (nil-append (String.◌∷◌ k b)) (ground arith)
split_once-append k (String.◌∷◌ c a) b h =
    rw (cons-append c a (String.◌∷◌ k b)) (ground (arith, split_once-append k a b))

split_once-absent : (k : ℕ) (a : String) → absent k a ≡ true → split_once k a ≡ none
unfolding split_once before
split_once-absent k String.[] h = refl
split_once-absent k (String.◌∷◌ c a) h = ground (arith, split_once-absent k a)

-- The format string and the arguments that the loop makes of a template.
abbrev format_string : String → List Placeholder → String
format_string text [] = text
format_string text (p ∷ ps) = String.◌++◌ (String.◌++◌ text "{}") (format_string p.text ps)

abbrev names : List Placeholder → List String
names [] = []
names (p ∷ ps) = p.field ∷ names ps

module _ (parse_ident : String → Option String) (fields : List String) where
  -- Each placeholder names a field, and no text has a brace.
  abbrev pub WellFormed : String → List Placeholder → Type 0
  WellFormed text [] = no_braces text ≡ true
  WellFormed text (p ∷ ps) =
      (no_braces text ≡ true)
      × (absent b'}' p.inner ≡ true)
      × (field_of parse_ident fields (trim p.inner) ≡ ok p.field)
      × WellFormed p.text ps

  loop-template :
      (fuel : ℕ) (done : String) (args : List String) (text : String) (ps : List Placeholder)
      → length ps < fuel
      → WellFormed text ps
      → loop parse_ident fields fuel done args (template text ps)
        ≡ finish parse_ident fields (String.◌++◌ done (format_string text ps)) (args ++ names ps)
  unfolding loop
  loop-template zero done args text ps h w = absurd (omega (arith, h))
  loop-template (suc fuel) done args text [] h w =
      ground (arith, split_once-absent b'{' text (ground (arith, w)), append_nil args)
  loop-template (suc fuel) done args text (p ∷ ps) h w =
      let rest = template p.text ps in
      let done' = String.◌++◌ done (String.◌++◌ text "{}") in
      ground (
        arith,
        split_once-append "{" text (String.◌++◌ p.inner (String.◌∷◌ "}" rest))
            (ground (arith, w.0)),
        split_once-append "}" p.inner rest w.1,
        w.2,
        loop-template fuel done' (args ++ p.field ∷ []) p.text ps (omega (arith, h)) w.3,
        append_assoc args (p.field ∷ []) (names ps),
        str_append_assoc done (String.◌++◌ text "{}") (format_string p.text ps),
      )

count_chars-append : (s t : String) → count_chars (String.◌++◌ s t) ≡ count_chars s + count_chars t
count_chars-append String.[] t = rw (nil-append t) (omega arith)
count_chars-append (String.◌∷◌ c s) t =
    rw (cons-append c s t) (omega (arith, count_chars-append s t))

length-le-template :
    (text : String) (ps : List Placeholder) → length ps ≤ count_chars (template text ps)
length-le-template text [] = omega arith
length-le-template text (p ∷ ps) =
    let rest = template p.text ps in
    omega (
      arith,
      length-le-template p.text ps,
      count_chars-append text (String.◌∷◌ "{" (String.◌++◌ p.inner (String.◌∷◌ "}" rest))),
      count_chars-append p.inner (String.◌∷◌ "}" rest),
    )

-- The subjects of an accepted template.
abbrev pub rendered :
    (String → String) → Result Subject SubjectError → Result (Option String) SubjectError
rendered shown (ok e) = ok (subject_of shown e)
rendered shown (err e) = err e

module _ (parse_ident : String → Option String) (fields : List String)
    (shown : String → String) where
  format_macro-format_string :
      (text : String) (ps : List Placeholder)
      → WellFormed parse_ident fields text ps
      → format_macro plain (format_string text ps) (map shown (names ps))
        ≡ some (filled_in shown text ps)
  unfolding format_macro
  format_macro-format_string text [] w =
      ground (arith, format_macro-text text "" [] w, str_append_nil text)
  format_macro-format_string text (p ∷ ps) w =
      let rest = format_string p.text ps in
      rw (str_append_assoc text "{}" rest) (
        format_macro-text text (String.◌++◌ "{}" rest) (shown p.field ∷ map shown (names ps)) w.0
        ∙ ap (prepend text) (
            format_macro-placeholder rest (shown p.field) (map shown (names ps))
            ∙ ap (prepend (shown p.field)) (format_macro-format_string p.text ps w.3)))

  -- A template of texts without braces and placeholders that name fields is accepted, the code that it
  -- expands to compiles, and the subject of each event is the template with every placeholder
  -- replaced by the printed value of its field.
  pub build_subject_expression-template :
      (text : String) (ps : List Placeholder)
      → WellFormed parse_ident fields text ps
      → rendered shown (build_subject_expression parse_ident fields (template text ps))
        ≡ ok (some (filled_in shown text ps))
  unfolding build_subject_expression subject_of finish
  build_subject_expression-template text [] w = ground (
    arith,
    loop-template parse_ident fields (suc (count_chars text)) "" [] text [] (omega arith) w,
    nil-append text,
  )
  build_subject_expression-template text (p ∷ ps) w =
      let all = template text (p ∷ ps) in
      ground (
        arith,
        loop-template parse_ident fields (suc (count_chars all)) "" [] text (p ∷ ps)
            (omega (arith, length-le-template text (p ∷ ps))) w,
        nil-append (format_string text (p ∷ ps)),
        format_macro-format_string text (p ∷ ps) w,
      )
