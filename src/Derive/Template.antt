-- ===== src/Derive/Template.antt =====
-- `build_subject_expression` of crates/bus-macros/src/event.rs. A loop body that finds a `{` takes
-- at least that character off the rest, so as many rounds as there are characters are enough.
pub mod Format
pub mod Rendering
pub mod Fields
use Prim.Native.Char.{Char, code}
use Prim.Native.String
use Prim.Native.String.{String}
use eventbus_rs.Prelude.{
  ℕ, zero, suc, ◌+◌, ◌-◌, ◌≤◌, ◌<◌, ◌≡◌, Bool, true, false, ◌&&◌, ◌||◌, Option, none, some, List,
  [], ◌∷◌, ◌++◌, Result, ok, err, ltb, leb, ◌==◌, str_eq, if◌then◌else◌,
}

-- `char::is_whitespace`: Unicode's White_Space.
abbrev between : ℕ → ℕ → ℕ → Bool
between lo hi n = leb lo n && leb n hi

abbrev pub is_whitespace : Char → Bool
is_whitespace c =
    let n = code c in
    between 9 13 n
    || n == 32
    || n == 133
    || n == 160
    || n == 5760
    || between 8192 8202 n
    || between 8232 8233 n
    || n == 8239
    || n == 8287
    || n == 12288

abbrev is_empty : String → Bool
is_empty String.[] = true
is_empty (String.◌∷◌ c s) = false

trim_start : String → String
trim_start String.[] = ""
trim_start (String.◌∷◌ c s) =
    let rest = trim_start s in if is_whitespace c then rest else String.◌∷◌ c s

trim_end : String → String
trim_end String.[] = ""
trim_end (String.◌∷◌ c s) =
    let rest = trim_end s in if is_empty rest && is_whitespace c then "" else String.◌∷◌ c rest

-- `str::trim`.
unfoldable pub trim : String → String
unfolding trim_start trim_end
trim s = trim_end (trim_start s)

before : Char → Option (String × String) → Option (String × String)
before c none = none
before c (some (a, b)) = some (String.◌∷◌ c a, b)

-- `find` of a character and the two slices around it.
unfoldable pub split_once : ℕ → String → Option (String × String)
unfolding before
split_once k String.[] = none
split_once k (String.◌∷◌ c s) =
    let rest = split_once k s in if code c == k then some ("", s) else before c rest

-- `starts_with` and the slice after it.
unfoldable pub strip_prefix : String → String → Option String
strip_prefix String.[] s = some s
strip_prefix (String.◌∷◌ p ps) String.[] = none
strip_prefix (String.◌∷◌ p ps) (String.◌∷◌ c s) =
    let rest = strip_prefix ps s in if code p == code c then rest else none

pub data SubjectError : Type 0 where
  unclosed : SubjectError
  not_self : String → SubjectError
  invalid_field : String → SubjectError
  unknown_field : String → SubjectError
  out_of_fuel : SubjectError  -- of the model alone

-- The generated expression: `"..".to_owned()`, or `format!("..", self.a, self.b)`.
pub data Subject : Type 0 where
  to_owned : String → Subject
  formatted : String → List String → Subject

abbrev pub known : List String → String → Bool
known [] f = false
known (g ∷ gs) f = str_eq g f || known gs f

abbrev pub count_chars : String → ℕ
count_chars String.[] = 0
count_chars (String.◌∷◌ c s) = suc (count_chars s)

-- syn's parser of one identifier.
module _ (parse_ident : String → Option String) (fields : List String) where
  check_known : String → Option String → Result String SubjectError
  check_known name none = err (invalid_field name)
  check_known name (some ident) = if known fields ident then ok ident else err (unknown_field name)

  check_self : String → Option String → Result String SubjectError
  unfolding check_known
  check_self interpolation none = err (not_self interpolation)
  check_self interpolation (some name) = check_known name (parse_ident name)

  -- The field that an interpolation names.
  unfoldable pub field_of : String → Result String SubjectError
  unfolding check_self strip_prefix
  field_of interpolation = check_self interpolation (strip_prefix "self." interpolation)

  finish : String → List String → Result Subject SubjectError
  finish format_string [] = ok (to_owned format_string)
  finish format_string (a ∷ args) = ok (formatted format_string (a ∷ args))

  -- The loop, after the pieces that have gone into the format string and the arguments.
  loop : ℕ → String → List String → String → Result Subject SubjectError
  unfolding finish field_of split_once trim
  loop zero format_string args rest = err out_of_fuel
  loop (suc fuel) format_string args rest = elim (split_once b'{' rest) [
    | none ↦ finish (String.◌++◌ format_string rest) args
    | some (text, after_open) ↦ elim (split_once b'}' after_open) [
      | none ↦ err unclosed
      | some (inner, after_close) ↦ elim (field_of (trim inner)) [
        | err e ↦ err e
        | ok ident ↦
            loop fuel (String.◌++◌ format_string (String.◌++◌ text "{}")) (args ++ ident ∷ [])
              after_close
      ]
    ]
  ]

  unfoldable pub build_subject_expression : String → Result Subject SubjectError
  unfolding loop
  build_subject_expression subject_template =
      loop (suc (count_chars subject_template)) "" [] subject_template
