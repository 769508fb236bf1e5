-- ===== src/Subscriber/Loop/Reconnect.antt =====
-- The reconnect back-off of the consumer task.
use eventbus_rs.Prelude.{
  ℕ, zero, suc, ◌*◌, ◌^◌, ◌≤◌, ◌≡◌, ◌⊎◌, inl, inr, refl, ap, ◌∙◌, arith, min, some, List, [], ◌∷◌,
}
use eventbus_rs.Core.Duration.{Duration}
use eventbus_rs.Subscriber.Loop.{
  acquiring, Loop, Happening, acquire_failed, open_failed, slept, init, step, run, at_point,
  continue, reconnect_backoff_initial, reconnect_backoff_max,
}

-- Back-off `d` doubled `n` times under the cap.
doubled : ℕ → Duration → Duration
doubled zero d = d
doubled (suc n) d = doubled n (min (d * 2) reconnect_backoff_max)

min-cases : (a b : ℕ) → ((min a b ≡ a) × (a ≤ b)) ⊎ ((min a b ≡ b) × (b ≤ a))
min-cases a b = ground arith

mul-pow-suc : (d n : ℕ) → d * 2 ^ suc n ≡ (d * 2) * 2 ^ n
mul-pow-suc d n = grind arith

le-mul-pow : (d n : ℕ) → d ≤ d * 2 ^ n
le-mul-pow d zero = omega arith
le-mul-pow d (suc n) = grind (arith, le-mul-pow d n)

capped :
    (n : ℕ) (d : Duration)
    → d ≤ reconnect_backoff_max
    → doubled n d ≡ min (d * 2 ^ n) reconnect_backoff_max
unfolding doubled
capped zero d h = omega arith
capped (suc n) d h =
    elim (min-cases (d * 2) reconnect_backoff_max)
      as (λ _. doubled (suc n) d ≡ min (d * 2 ^ suc n) reconnect_backoff_max) [
        | inl (e, l) ↦ omega (arith, ap (doubled n) e, capped n (d * 2) l, mul-pow-suc d n)
        | inr (e, l) ↦ omega (
          arith,
          ap (doubled n) e,
          capped n reconnect_backoff_max (omega arith),
          mul-pow-suc d n,
          le-mul-pow (d * 2) n,
          le-mul-pow reconnect_backoff_max n,
        )
      ]

module _ {M : Type 0} where
  -- This many times in a row the consumer is not got back, and the task sleeps.
  abbrev pub failures : ℕ → List (Happening M)
  failures zero = []
  failures (suc n) = acquire_failed ∷ slept ∷ failures n

  run-failures :
      (n : ℕ) (s : Loop M)
      → run (record s { point = acquiring }) (failures n)
        ≡ some (record s { point = acquiring; reconnect_backoff = doubled n s.reconnect_backoff })
  unfolding run step at_point continue doubled
  run-failures zero s = refl
  run-failures (suc n) s =
      run-failures n
        (record s { reconnect_backoff = min (s.reconnect_backoff * 2) reconnect_backoff_max })

  -- After `n` failed rounds in a row the task has slept 200 ms doubled as often, under the cap of 30 s,
  -- before it asks for the consumer again: from the initial state, `n + 1` failures and sleeps in
  -- turn leave that back-off and nothing else changed.
  pub reconnect_backoff_after :
      (concurrency n : ℕ)
      → run (init concurrency) (open_failed ∷ slept ∷ failures n)
        ≡ some (record (init {M = M} concurrency) {
          point = acquiring;
          reconnect_backoff = min (reconnect_backoff_initial * 2 ^ suc n) reconnect_backoff_max;
        })
  unfolding run step at_point continue init
  reconnect_backoff_after concurrency n =
      run-failures n
        (record (init concurrency) { reconnect_backoff = reconnect_backoff_initial * 2 })
      ∙ ap
          (λ d.
            some (record (init {M = M} concurrency) { point = acquiring; reconnect_backoff = d }))
          (omega (
            arith,
            capped n (reconnect_backoff_initial * 2) (omega arith),
            mul-pow-suc reconnect_backoff_initial n,
          ))
