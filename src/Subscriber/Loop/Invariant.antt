-- ===== src/Subscriber/Loop/Invariant.antt =====
-- What holds of the consumer task of crates/bus-nats/src/subscriber.rs after any sequence of events.
use eventbus_rs.Prelude.{
  ℕ, ◌+◌, ◌≤◌, ◌≡◌, refl, subst, arith, Bool, true, false, Option, none, some, List, [], ◌∷◌, ◌++◌,
}
use eventbus_rs.Subscriber.Loop.{
  Point, permitting, stopped, Loop, Happening, init, step, run, at_point, continue,
  reconnect_backoff_initial, reconnect_backoff_max,
}

module _ {M : Type 0} where
  -- These messages and then the one that waits for a permit, if one does.
  abbrev pub and_in_hand : List M → Point M → List M
  and_in_hand ms (permitting m) = ms ++ m ∷ []
  and_in_hand ms _ = ms

  abbrev pub is_stopped : Point M → Bool
  is_stopped stopped = true
  is_stopped _ = false

  pub record Inv (concurrency : ℕ) (s : Loop M) : Type 0 where
    pub conserved : s.permits + s.active ≡ concurrency
    pub above : reconnect_backoff_initial ≤ s.reconnect_backoff
    pub below : s.reconnect_backoff ≤ reconnect_backoff_max
    pub ordered : s.received ≡ and_in_hand s.spawned s.point
    pub settled : is_stopped s.point ≡ true → s.active + s.ended ≡ 0

  abbrev pub Holds {ℓ} : (Loop M → Type ℓ) → Option (Loop M) → Type ℓ
  Holds P none = Unit
  Holds P (some s) = P s

  pub init-Inv : (concurrency : ℕ) → Inv concurrency (init concurrency)
  unfolding init
  init-Inv concurrency = record {
    conserved = omega arith;
    above = omega arith;
    below = omega arith;
    ordered = refl;
    settled = λ _. refl;
  }

  step-conserved :
      (c : ℕ) (s : Loop M) (h : Happening M)
      → s.permits + s.active ≡ c
      → Holds (λ t. t.permits + t.active ≡ c) (step s h)
  unfolding step at_point
  step-conserved c s h e = ground arith

  step-bounded :
      (s : Loop M) (h : Happening M)
      → reconnect_backoff_initial ≤ s.reconnect_backoff
      → s.reconnect_backoff ≤ reconnect_backoff_max
      → Holds
          (λ t.
            (reconnect_backoff_initial ≤ t.reconnect_backoff)
            × (t.reconnect_backoff ≤ reconnect_backoff_max))
          (step s h)
  unfolding step at_point
  step-bounded s h a b = ground arith

  step-settled :
      (s : Loop M) (h : Happening M)
      → (is_stopped s.point ≡ true → s.active + s.ended ≡ 0)
      → Holds (λ t. is_stopped t.point ≡ true → t.active + t.ended ≡ 0) (step s h)
  unfolding step at_point
  step-settled s h e = ground arith

  step-ordered :
      (s : Loop M) (h : Happening M)
      → s.received ≡ and_in_hand s.spawned s.point
      → Holds (λ t. t.received ≡ and_in_hand t.spawned t.point) (step s h)
  unfolding step at_point
  step-ordered s h e = ground arith

  step-Inv : (c : ℕ) (s : Loop M) (h : Happening M) → Inv c s → Holds (Inv c) (step s h)
  step-Inv c s h i =
      gather (step s h) (step-conserved c s h i.conserved) (step-bounded s h i.above i.below)
        (step-ordered s h i.ordered) (step-settled s h i.settled)
    where
      gather :
          (t : Option (Loop M))
          → Holds (λ t. t.permits + t.active ≡ c) t
          → Holds
              (λ t.
                (reconnect_backoff_initial ≤ t.reconnect_backoff)
                × (t.reconnect_backoff ≤ reconnect_backoff_max))
              t
          → Holds (λ t. t.received ≡ and_in_hand t.spawned t.point) t
          → Holds (λ t. is_stopped t.point ≡ true → t.active + t.ended ≡ 0) t
          → Holds (Inv c) t
      gather none a b o e = tt
      gather (some t) a b o e = record {
        conserved = a;
        above = b.0;
        below = b.1;
        ordered = o;
        settled = e;
      }

  pub next-Inv : (c : ℕ) (s t : Loop M) (h : Happening M) → Inv c s → step s h ≡ some t → Inv c t
  next-Inv c s t h i e = subst (Holds (Inv c)) e (step-Inv c s h i)

  Holds-continue :
      (P : Loop M → Type 0) (f : Loop M → Option (Loop M)) (t : Option (Loop M))
      → ((u : Loop M) → P u → Holds P (f u))
      → Holds P t
      → Holds P (continue f t)
  unfolding continue
  Holds-continue P f none k p = tt
  Holds-continue P f (some t) k p = k t p

  -- A property that every step keeps holds at the end of every run.
  pub run-keeps :
      (P : Loop M → Type 0)
      → ((s : Loop M) (h : Happening M) → P s → Holds P (step s h))
      → (s : Loop M) (hs : List (Happening M)) → P s
      → Holds P (run s hs)
  unfolding run
  run-keeps P keeps s [] p = p
  run-keeps P keeps s (h ∷ hs) p =
      Holds-continue P (λ t. run t hs) (step s h) (λ t q. run-keeps P keeps t hs q) (keeps s h p)

  -- Whatever happens to the task, in whatever order: the free permits and the running workers are
  -- together the concurrency; the reconnect back-off is between 200 ms and 30 s; the workers have got
  -- the messages of the stream in the order received, all of them but one that waits for a permit;
  -- and once the task is over no worker runs or is unjoined.
  pub run-Inv :
      (concurrency : ℕ) (hs : List (Happening M))
      → Holds (Inv concurrency) (run (init concurrency) hs)
  run-Inv concurrency hs =
      run-keeps (Inv concurrency) (step-Inv concurrency) (init concurrency) hs
        (init-Inv concurrency)
