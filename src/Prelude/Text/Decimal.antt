-- ===== src/Prelude/Text/Decimal.antt =====
-- `to_string` prints digits only, and no two 64-bit numbers alike.
use Prim.Native.Char.{Char, code}
use Prim.Native.String
use Prim.Native.String.{String}
use native.Mathlib.Nat.{pow-suc}
use text.Mathlib.TextLemmas.{nil-append, cons-append}
use eventbus_rs.Prelude.{
  ℕ, zero, suc, ◌+◌, ◌-◌, ◌*◌, ◌/◌, ◌%◌, ◌^◌, ◌<◌, ◌≡◌, refl, ap, sym, ◌∙◌, arith, Bool, true, not,
  ◌&&◌, ltb, ◌==◌, if◌then◌else◌, inl, inr, Bool-cases,
}
use eventbus_rs.Prelude.Text.{digit, decimal, to_string}

-- The number that a run of digits reads as, after `acc`.
value : ℕ → String → ℕ
value acc String.[] = acc
value acc (String.◌∷◌ c s) = value (acc * 10 + (code c - 48)) s

value-append : (acc : ℕ) (s t : String) → value acc (String.◌++◌ s t) ≡ value (value acc s) t
unfolding value
value-append acc String.[] t = rw (nil-append t)
value-append acc (String.◌∷◌ c s) t =
    rw (cons-append c s t) (value-append (acc * 10 + (code c - 48)) s t)

value-digit : (acc d : ℕ) → d < 10 → value acc (digit d) ≡ acc * 10 + d
unfolding value digit
value-digit acc zero h = omega arith
value-digit acc (suc zero) h = omega arith
value-digit acc (suc (suc zero)) h = omega arith
value-digit acc (suc (suc (suc zero))) h = omega arith
value-digit acc (suc (suc (suc (suc zero)))) h = omega arith
value-digit acc (suc (suc (suc (suc (suc zero))))) h = omega arith
value-digit acc (suc (suc (suc (suc (suc (suc zero)))))) h = omega arith
value-digit acc (suc (suc (suc (suc (suc (suc (suc zero))))))) h = omega arith
value-digit acc (suc (suc (suc (suc (suc (suc (suc (suc zero)))))))) h = omega arith
value-digit acc (suc (suc (suc (suc (suc (suc (suc (suc (suc zero))))))))) h = omega arith
value-digit acc (suc (suc (suc (suc (suc (suc (suc (suc (suc (suc d)))))))))) h =
    absurd (omega arith)

value-decimal : (f n : ℕ) → n < 10 ^ f → value 0 (decimal f n) ≡ n
unfolding decimal value
value-decimal zero n h = omega arith
value-decimal (suc f) n h = elim (Bool-cases (ltb n 10)) [
  | inl small ↦ rw small (omega (arith, value-digit 0 n (ground arith)))
  | inr large ↦
      rw (large, value-append 0 (decimal f (n / 10)) (digit (n % 10)))
        (rw (value-decimal f (n / 10) (omega (arith, pow-suc 10 f)))
          (omega (arith, value-digit (n / 10) (n % 10) (omega arith))))
]

-- A `u64` is printed with all its digits: the print reads back as the number.
value-to_string : (n : ℕ) → n < 2 ^ 64 → value 0 (to_string n) ≡ n
unfolding to_string
value-to_string n h = value-decimal 20 n (omega arith)

pub to_string-injective : (m n : ℕ) → m < 2 ^ 64 → n < 2 ^ 64 → to_string m ≡ to_string n → m ≡ n
to_string-injective m n hm hn e = sym (value-to_string m hm) ∙ ap (value 0) e ∙ value-to_string n hn

-- The text has no character with this code.
abbrev pub absent : ℕ → String → Bool
absent k String.[] = true
absent k (String.◌∷◌ c s) = not (code c == k) && absent k s

absent-append :
    (k : ℕ) (s t : String)
    → absent k s ≡ true
    → absent k t ≡ true
    → absent k (String.◌++◌ s t) ≡ true
absent-append k String.[] t hs ht = rw (nil-append t) ht
absent-append k (String.◌∷◌ c s) t hs ht =
    rw (cons-append c s t) (ground (arith, absent-append k s t))

colon_absent-digit : (d : ℕ) → absent b':' (digit d) ≡ true
unfolding digit
colon_absent-digit zero = refl
colon_absent-digit (suc zero) = refl
colon_absent-digit (suc (suc zero)) = refl
colon_absent-digit (suc (suc (suc zero))) = refl
colon_absent-digit (suc (suc (suc (suc zero)))) = refl
colon_absent-digit (suc (suc (suc (suc (suc zero))))) = refl
colon_absent-digit (suc (suc (suc (suc (suc (suc zero)))))) = refl
colon_absent-digit (suc (suc (suc (suc (suc (suc (suc zero))))))) = refl
colon_absent-digit (suc (suc (suc (suc (suc (suc (suc (suc zero)))))))) = refl
colon_absent-digit (suc (suc (suc (suc (suc (suc (suc (suc (suc zero))))))))) = refl
colon_absent-digit (suc (suc (suc (suc (suc (suc (suc (suc (suc (suc d)))))))))) = refl

colon_absent-decimal : (f n : ℕ) → absent b':' (decimal f n) ≡ true
unfolding decimal
colon_absent-decimal zero n = refl
colon_absent-decimal (suc f) n = elim (Bool-cases (ltb n 10)) [
  | inl small ↦ rw small (colon_absent-digit n)
  | inr large ↦ rw large (
      absent-append b':' (decimal f (n / 10)) (digit (n % 10)) (colon_absent-decimal f (n / 10))
        (colon_absent-digit (n % 10)))
]

pub colon_absent-to_string : (n : ℕ) → absent b':' (to_string n) ≡ true
unfolding to_string
colon_absent-to_string = colon_absent-decimal 20

-- The text up to the first character with this code.
before : ℕ → String → String
before k String.[] = ""
before k (String.◌∷◌ c s) = if code c == k then "" else String.◌∷◌ c (before k s)

before-append :
    (k : ℕ) (s t : String) (c : Char)
    → absent k s ≡ true
    → code c ≡ k
    → before k (String.◌++◌ s (String.◌∷◌ c t)) ≡ s
unfolding before
before-append k String.[] t c h e = rw (nil-append (String.◌∷◌ c t)) (ground arith)
before-append k (String.◌∷◌ d s) t c h e =
    rw (cons-append d s (String.◌∷◌ c t)) (ground (arith, before-append k s t c))

-- A text that ends at its first separator is determined by what it begins.
pub before_separator :
    (s s' t t' : String) (c : Char)
    → absent (code c) s ≡ true
    → absent (code c) s' ≡ true
    → String.◌++◌ s (String.◌∷◌ c t) ≡ String.◌++◌ s' (String.◌∷◌ c t')
    → s ≡ s'
before_separator s s' t t' c h h' e =
    sym (before-append (code c) s t c h refl)
    ∙ ap (before (code c)) e
    ∙ before-append (code c) s' t' c h' refl
