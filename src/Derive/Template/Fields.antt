-- ===== src/Derive/Template/Fields.antt =====
-- Every template is decided, and the generated code reads fields of the struct only.
use Prim.Native.String
use Prim.Native.String.{String}
use eventbus_rs.Prelude.{
  ℕ, zero, suc, ◌<◌, ◌≡◌, refl, arith, Bool, true, false, ◌&&◌, Option, some, List, [], ◌∷◌, ◌++◌,
  Result, ok, err, inl, inr, Option-cases, Result-cases,
}
use eventbus_rs.Derive.Template.{
  Subject, to_owned, formatted, SubjectError, out_of_fuel, split_once, before, trim, known,
  field_of, check_self, check_known, loop, finish, count_chars, build_subject_expression,
}

split_once-shorter :
    (k : ℕ) (s a b : String) → split_once k s ≡ some (a, b) → count_chars b < count_chars s
unfolding split_once before
split_once-shorter k String.[] a b e = ground (arith, e)
split_once-shorter k (String.◌∷◌ c s) a b e = elim (Option-cases (split_once k s)) [
  | inl f ↦ ground (arith, e, f)
  | inr ((a', b'), f) ↦ ground (arith, e, f, split_once-shorter k s a' b' f)
]

module _ (parse_ident : String → Option String) (fields : List String) where
  abbrev pub all_known : List String → Bool
  all_known [] = true
  all_known (a ∷ args) = known fields a && all_known args

  all_known-append :
      (args : List String) (f : String)
      → all_known args ≡ true
      → known fields f ≡ true
      → all_known (args ++ f ∷ []) ≡ true
  all_known-append [] f h k = ground arith
  all_known-append (a ∷ args) f h k = ground (arith, all_known-append args f)

  -- Not out of fuel, and with arguments that are fields.
  abbrev pub sound : Result Subject SubjectError → Bool
  sound (ok (to_owned s)) = true
  sound (ok (formatted f args)) = all_known args
  sound (err out_of_fuel) = false
  sound (err _) = true

  abbrev sound_field : Result String SubjectError → Bool
  sound_field (ok f) = known fields f
  sound_field (err out_of_fuel) = false
  sound_field (err _) = true

  field_of_sound : (s : String) → sound_field (field_of parse_ident fields s) ≡ true
  unfolding field_of check_self check_known
  field_of_sound s = ground arith

  loop-sound :
      (fuel : ℕ) (done : String) (args : List String) (rest : String)
      → count_chars rest < fuel
      → all_known args ≡ true
      → sound (loop parse_ident fields fuel done args rest) ≡ true
  unfolding loop finish
  loop-sound zero done args rest h k = absurd (omega (arith, h))
  loop-sound (suc fuel) done args rest h k = elim (Option-cases (split_once b'{' rest)) [
    | inl e ↦ ground (arith, e, k)
    | inr ((text, after_open), e) ↦ elim (Option-cases (split_once b'}' after_open)) [
      | inl f ↦ ground (arith, e, f)
      | inr ((inner, after_close), f) ↦
          elim (Result-cases (field_of parse_ident fields (trim inner))) [
            | inr (x, g) ↦ ground (arith, e, f, g, field_of_sound (trim inner))
            | inl (ident, g) ↦ ground (
              arith,
              e,
              f,
              g,
              loop-sound fuel (String.◌++◌ done (String.◌++◌ text "{}")) (args ++ ident ∷ [])
                  after_close
                  (omega (
                    arith,
                    h,
                    split_once-shorter b'{' rest text after_open e,
                    split_once-shorter b'}' after_open inner after_close f,
                  ))
                  (all_known-append args ident k (ground (arith, g, field_of_sound (trim inner)))),
            )
          ]
    ]
  ]

  -- For every template the loop ends, with an expression or an error, within one round for each
  -- character and one more, and the arguments of the expression are fields of the struct.
  pub build_subject_expression-sound :
      (subject_template : String)
      → sound (build_subject_expression parse_ident fields subject_template) ≡ true
  unfolding build_subject_expression
  build_subject_expression-sound subject_template =
      loop-sound (suc (count_chars subject_template)) "" [] subject_template (omega arith) refl
