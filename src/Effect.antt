-- ===== src/Effect.antt =====
-- Async code as a tree of external calls: every `.await` on something outside the crate is a `call`,
-- whose reply the rest of the code receives. A signature is a type of calls with the type of each
-- call's reply. The environment is an oracle that answers from the history, so a statement about
-- every oracle is one about every run.
pub mod Traces
use eventbus_rs.Prelude.{List, [], ◌∷◌}

pub data Proc (C : Type 0) (R : C → Type 0) (A : Type 0) : Type 0 where
  ret : A → Proc C R A
  call : (c : C) → (R c → Proc C R A) → Proc C R A

module _ {C : Type 0} {R : C → Type 0} where
  infixl 5 ◌>>=◌ ◌>>◌
  abbrev pub ◌>>=◌ : {A B : Type 0} → Proc C R A → (A → Proc C R B) → Proc C R B
  ret a >>= f = f a
  call c k >>= f = call c (λ r. k r >>= f)

  abbrev pub ◌>>◌ : {A B : Type 0} → Proc C R A → Proc C R B → Proc C R B
  m >> n = m >>= λ _. n

-- One call, for its reply.
abbrev pub perform : {C : Type 0} {R : C → Type 0} (c : C) → Proc C R (R c)
perform c = call c ret

-- A task within one of more calls, each of its own standing for one of those.
module _ {C D : Type 0} {R : C → Type 0} {S : D → Type 0} (f : C → D)
    (g : (c : C) → S (f c) → R c) where
  abbrev pub embed : {A : Type 0} → Proc C R A → Proc D S A
  embed (ret a) = ret a
  embed (call c k) = call (f c) (λ r. embed (k (g c r)))

module _ {C D : Type 0} {R : C → Type 0} {S : D → Type 0} where
  -- Each call replaced by a task that makes out its reply.
  abbrev pub interpret : {A : Type 0} → ((c : C) → Proc D S (R c)) → Proc C R A → Proc D S A
  interpret run (ret a) = ret a
  interpret run (call c k) = run c >>= λ r. interpret run (k r)
