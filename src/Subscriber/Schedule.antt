-- ===== src/Subscriber/Schedule.antt =====
-- `compute_backoff`: which delay a retry gets.
use eventbus_rs.Prelude.{
  ℕ, zero, suc, ◌-◌, ◌≤◌, ◌<◌, ◌≡◌, ap, ◌∙◌, arith, List, [], ◌∷◌, length, get_or, min,
}
use eventbus_rs.Prelude.Int.{ℤ, pos, as_u64}
use eventbus_rs.Core.Duration.{Duration}
use eventbus_rs.Dlq.Config.{fallback_nak_delay}
use eventbus_rs.Subscriber.Backoff.{compute_backoff}

-- Delays never fall along the list.
abbrev pub Rises : List Duration → Type 0
Rises [] = Unit {0}
Rises (x ∷ []) = Unit {0}
Rises (x ∷ y ∷ xs) = (x ≤ y) × Rises (y ∷ xs)

Rises-get_or-cons :
    (x d : ℕ) (xs : List ℕ) (j : ℕ) → Rises (x ∷ xs) → j < length (x ∷ xs) → x ≤ get_or (x ∷ xs) j d
Rises-get_or-cons x d xs zero r h = omega arith
Rises-get_or-cons x d [] (suc j) r h = absurd (omega arith)
Rises-get_or-cons x d (y ∷ ys) (suc j) r h =
    omega (arith, Rises-get_or-cons y d ys j r.1 (omega arith), r.0)

Rises-get_or :
    (d : ℕ) (xs : List ℕ) (i j : ℕ)
    → Rises xs
    → i ≤ j
    → j < length xs
    → get_or xs i d ≤ get_or xs j d
Rises-get_or d [] i j r le h = elim h [ ]
Rises-get_or d (x ∷ xs) zero j r le h = Rises-get_or-cons x d xs j r h
Rises-get_or d (x ∷ xs) (suc i) zero r le h = absurd (omega arith)
Rises-get_or d (x ∷ []) (suc i) (suc j) r le h = absurd (omega arith)
Rises-get_or d (x ∷ y ∷ ys) (suc i) (suc j) r le h =
    Rises-get_or d (y ∷ ys) i j r.1 (omega arith) (omega arith)

-- Down the list, one delay for each delivery, staying at the last one.
abbrev pub walk : Duration → List Duration → ℕ → Duration
walk b [] n = b
walk b (c ∷ cs) zero = b
walk b (c ∷ cs) (suc zero) = b
walk b (c ∷ cs) (suc (suc n)) = walk c cs (suc n)

get_or-walk :
    (b : Duration) (bs : List Duration) (n d : ℕ)
    → get_or (b ∷ bs) (min (n - 1) (length (b ∷ bs) - 1)) d ≡ walk b bs n
get_or-walk b [] n d = ap (λ i. get_or (b ∷ []) i d) {y = 0} (omega arith)
get_or-walk b (c ∷ cs) zero d = ap (λ i. get_or (b ∷ c ∷ cs) i d) {y = 0} (omega arith)
get_or-walk b (c ∷ cs) (suc zero) d = ap (λ i. get_or (b ∷ c ∷ cs) i d) {y = 0} (omega arith)
get_or-walk b (c ∷ cs) (suc (suc n)) d =
    ap (λ i. get_or (b ∷ c ∷ cs) i d) next ∙ get_or-walk c cs (suc n) d
  where
    next :
        min (suc (suc n) - 1) (length (b ∷ c ∷ cs) - 1)
        ≡ suc (min (suc n - 1) (length (c ∷ cs) - 1))
    next = omega arith

-- Of a list that is not empty, the n-th delivery waits for the n-th delay and each delivery past the
-- end for the last one; a count of zero is taken as one, and a negative count by its bit pattern. No
-- attempt reads outside the list.
pub compute_backoff-eq-walk :
    (b : Duration) (bs : List Duration) (attempt : ℤ)
    → compute_backoff (b ∷ bs) attempt ≡ walk b bs (as_u64 attempt)
unfolding compute_backoff
compute_backoff-eq-walk b bs attempt = get_or-walk b bs (as_u64 attempt) fallback_nak_delay

-- Later deliveries never wait less, where the configured delays do not fall.
pub compute_backoff_mono :
    (backoff : List Duration) (m n : ℕ)
    → Rises backoff
    → m ≤ n
    → compute_backoff backoff (pos m) ≤ compute_backoff backoff (pos n)
unfolding compute_backoff
compute_backoff_mono [] m n r le = omega arith
compute_backoff_mono (b ∷ bs) m n r le =
    Rises-get_or fallback_nak_delay (b ∷ bs) _ _ r (omega arith) (omega arith)
