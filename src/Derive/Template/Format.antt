-- ===== src/Derive/Template/Format.antt =====
-- Rust's `format!` on positional arguments.
use Prim.Native.Char.{Char, code}
use Prim.Native.String
use Prim.Native.String.{String}
use text.Mathlib.TextLemmas.{nil-append, cons-append}
use eventbus_rs.Prelude.{
  true, ◌≡◌, refl, ap, sym, arith, Bool, ◌&&◌, Option, none, some, List, [], ◌∷◌, ◌==◌,
  if◌then◌else◌,
}
use eventbus_rs.Prelude.Text.Decimal.{absent}

-- What `format!` has read of a brace.
pub data Pending : Type 0 where
  plain open_brace close_brace : Pending

abbrev pub prepend : String → Option String → Option String
prepend s none = none
prepend s (some t) = some (String.◌++◌ s t)

abbrev pub cons : Char → Option String → Option String
cons c none = none
cons c (some s) = some (String.◌∷◌ c s)

abbrev no_more : List String → Option String
no_more [] = some ""
no_more (v ∷ vs) = none

-- `format!` with positional arguments: `{}` takes the next one, `{{` and `}}` are braces, and all else
-- with a brace, or an argument too many or too few, does not compile.
unfoldable pub format_macro : Pending → String → List String → Option String
format_macro plain String.[] vs = no_more vs
format_macro open_brace String.[] vs = none
format_macro close_brace String.[] vs = none
format_macro plain (String.◌∷◌ c s) vs =
    let opened = format_macro open_brace s vs in
    let closed = format_macro close_brace s vs in
    let rest = format_macro plain s vs in
    if code c == b'{' then opened else if code c == b'}' then closed else cons c rest
format_macro open_brace (String.◌∷◌ c s) [] =
    let rest = format_macro plain s [] in if code c == b'{' then cons c rest else none
format_macro open_brace (String.◌∷◌ c s) (v ∷ vs) =
    let rest = format_macro plain s (v ∷ vs) in
    let filled = format_macro plain s vs in
    if code c == b'{' then cons c rest else if code c == b'}' then prepend v filled else none
format_macro close_brace (String.◌∷◌ c s) vs =
    let rest = format_macro plain s vs in if code c == b'}' then cons c rest else none

abbrev pub no_braces : String → Bool
no_braces s = absent b'{' s && absent b'}' s

prepend-nil : (o : Option String) → prepend "" o ≡ o
prepend-nil none = refl
prepend-nil (some s) = ap some (nil-append s)

prepend-cons :
    (c : Char) (t : String) (o : Option String) → prepend (String.◌∷◌ c t) o ≡ cons c (prepend t o)
prepend-cons c t none = refl
prepend-cons c t (some s) = ap some (cons-append c t s)

pub format_macro-text :
    (t s : String) (vs : List String)
    → no_braces t ≡ true
    → format_macro plain (String.◌++◌ t s) vs ≡ prepend t (format_macro plain s vs)
unfolding format_macro
format_macro-text String.[] s vs h = rw (nil-append s) (sym (prepend-nil (format_macro plain s vs)))
format_macro-text (String.◌∷◌ c t) s vs h =
    rw (cons-append c t s, prepend-cons c t (format_macro plain s vs))
      (ground (arith, format_macro-text t s vs))

pub format_macro-placeholder :
    (s v : String) (vs : List String)
    → format_macro plain (String.◌++◌ "{}" s) (v ∷ vs) ≡ prepend v (format_macro plain s vs)
unfolding format_macro
format_macro-placeholder s v vs =
    rw (cons-append "{" "}" s, cons-append "}" "" s, nil-append s) (ground arith)
