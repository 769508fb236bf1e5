-- ===== src/Prelude/Lists.antt =====
-- Lists measured, indexed and counted by native numbers, under the library's names.
use Prim.Native.Nat.{ℕ, zero, suc, ◌+◌}
use mathlib.Core.Path.{◌≡◌, refl, ap}
use mathlib.Core.Bool.{Bool}
use mathlib.Core.List.{List, [], ◌∷◌, ◌++◌}
use mathlib.Core.Option.{Option, none, some}
use native.Mathlib.Omega.{arith}
use eventbus_rs.Prelude.Tests.{if◌then◌else◌}

module _ {ℓ} {A : Type ℓ} where
  abbrev pub length : List A → ℕ
  length [] = 0
  length (x ∷ xs) = suc (length xs)

  abbrev pub get_elem? : List A → ℕ → Option A
  get_elem? [] i = none
  get_elem? (x ∷ xs) zero = some x
  get_elem? (x ∷ xs) (suc i) = get_elem? xs i

  -- How many entries pass the test.
  abbrev pub count : (A → Bool) → List A → ℕ
  count p [] = 0
  count p (x ∷ xs) = (if p x then 1 else 0) + count p xs

  pub length-append : (xs ys : List A) → length (xs ++ ys) ≡ length xs + length ys
  length-append [] ys = omega arith
  length-append (x ∷ xs) ys = omega (arith, length-append xs ys)

  pub count-append : (p : A → Bool) (xs ys : List A) → count p (xs ++ ys) ≡ count p xs + count p ys
  count-append p [] ys = omega arith
  count-append p (x ∷ xs) ys = omega (arith, count-append p xs ys)

  pub count-middle :
      (p : A → Bool) (xs ys : List A) (x : A)
      → count p (xs ++ x ∷ ys) ≡ count p xs + count p ys + (if p x then 1 else 0)
  count-middle p xs ys x = omega (arith, count-append p xs (x ∷ ys))

  abbrev pub total : (A → ℕ) → List A → ℕ
  total f [] = 0
  total f (x ∷ xs) = f x + total f xs

  -- One entry of a list apart from the others.
  pub total-around :
      (f : A → ℕ) (xs ys : List A) (x : A) → total f (xs ++ x ∷ ys) ≡ total f (xs ++ ys) + f x
  total-around f [] ys x = omega arith
  total-around f (z ∷ xs) ys x = omega (arith, total-around f xs ys x)

  abbrev pub get_or : List A → ℕ → A → A
  get_or [] i d = d
  get_or (x ∷ xs) zero d = x
  get_or (x ∷ xs) (suc i) d = get_or xs i d

  abbrev pub take : ℕ → List A → List A
  take zero xs = []
  take (suc n) [] = []
  take (suc n) (x ∷ xs) = x ∷ take n xs

  pub append_assoc : (xs ys zs : List A) → (xs ++ ys) ++ zs ≡ xs ++ (ys ++ zs)
  append_assoc [] ys zs = refl
  append_assoc (x ∷ xs) ys zs = ap (x ∷◌) (append_assoc xs ys zs)

  pub append_nil : (xs : List A) → xs ++ [] ≡ xs
  append_nil [] = refl
  append_nil (x ∷ xs) = ap (x ∷◌) (append_nil xs)

module _ {ℓ ℓ'} {A : Type ℓ} (P : A → Type ℓ') where
  abbrev pub All : List A → Type ℓ'
  All [] = Unit
  All (x ∷ xs) = P x × All xs

  pub All-around : (xs ys : List A) (x : A) → All (xs ++ x ∷ ys) → P x × All (xs ++ ys)
  All-around [] ys x a = a
  All-around (z ∷ xs) ys x a = let b = All-around xs ys x a.1 in (b.0, (a.0, b.1))

  pub All-insert : (xs ys : List A) (x : A) → P x → All (xs ++ ys) → All (xs ++ x ∷ ys)
  All-insert [] ys x p a = (p, a)
  All-insert (z ∷ xs) ys x p a = (a.0, All-insert xs ys x p a.1)

module _ {ℓ ℓ' ℓ''} {A : Type ℓ} (P : A → Type ℓ') (Q : A → Type ℓ'') where
  pub All-map : (xs : List A) → ((x : A) → P x → Q x) → All P xs → All Q xs
  All-map [] f a = tt
  All-map (x ∷ xs) f a = (f x a.0, All-map xs f a.1)
