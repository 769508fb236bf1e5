-- ===== src/Effect/Traces.antt =====
-- Running a tree of calls against an oracle, and what holds on every run.
use eventbus_rs.Prelude.{List, [], ◌∷◌}
use eventbus_rs.Effect.{Proc, ret, call}

-- A call with the reply that it got.
abbrev pub Event : (C : Type 0) → (C → Type 0) → Type 0
Event C R = (c : C) × R c

-- The environment: the reply to a call, after the calls so far, the last one first.
abbrev pub Oracle : (C : Type 0) → (C → Type 0) → Type 0
Oracle C R = List (Event C R) → (c : C) → R c

module _ {C : Type 0} {R : C → Type 0} {A : Type 0} where
  -- The calls of a run, in order, with their replies.
  unfoldable pub trace : Oracle C R → List (Event C R) → Proc C R A → List (Event C R)
  trace o h (ret a) = []
  trace o h (call c k) = let r = o h c in (c, r) ∷ trace o ((c, r) ∷ h) (k r)

  -- What a run returns.
  unfoldable pub result : Oracle C R → List (Event C R) → Proc C R A → A
  result o h (ret a) = a
  result o h (call c k) = let r = o h c in result o ((c, r) ∷ h) (k r)

  -- The predicate holds of the calls of every run, whatever the replies.
  abbrev pub Every {ℓ} : (List (Event C R) → Type ℓ) → Proc C R A → Type ℓ
  Every P (ret a) = P []
  Every P (call c k) = (r : R c) → Every (λ t. P ((c, r) ∷ t)) (k r)

  pub Every-trace {ℓ} :
      (P : List (Event C R) → Type ℓ) (p : Proc C R A)
      → Every P p
      → (o : Oracle C R) (h : List (Event C R)) → P (trace o h p)
  unfolding trace
  Every-trace P (ret a) e o h = e
  Every-trace P (call c k) e o h =
      Every-trace (λ t. P ((c, o h c) ∷ t)) (k (o h c)) (e (o h c)) o ((c, o h c) ∷ h)

  pub Every-mono {ℓ} :
      (P Q : List (Event C R) → Type ℓ) (p : Proc C R A)
      → ((t : List (Event C R)) → P t → Q t)
      → Every P p
      → Every Q p
  Every-mono P Q (ret a) f e = f [] e
  Every-mono P Q (call c k) f e =
      λ r. Every-mono (λ t. P ((c, r) ∷ t)) (λ t. Q ((c, r) ∷ t)) (k r) (λ t. f ((c, r) ∷ t)) (e r)

  -- The same for a predicate on the calls of a run and on what it returns.
  abbrev pub Always {ℓ} : (List (Event C R) → A → Type ℓ) → Proc C R A → Type ℓ
  Always P (ret a) = P [] a
  Always P (call c k) = (r : R c) → Always (λ t. P ((c, r) ∷ t)) (k r)

  pub Always-run {ℓ} :
      (P : List (Event C R) → A → Type ℓ) (p : Proc C R A)
      → Always P p
      → (o : Oracle C R) (h : List (Event C R)) → P (trace o h p) (result o h p)
  unfolding trace result
  Always-run P (ret a) e o h = e
  Always-run P (call c k) e o h =
      Always-run (λ t. P ((c, o h c) ∷ t)) (k (o h c)) (e (o h c)) o ((c, o h c) ∷ h)

  pub Always-mono {ℓ} :
      (P Q : List (Event C R) → A → Type ℓ) (p : Proc C R A)
      → ((t : List (Event C R)) (a : A) → P t a → Q t a)
      → Always P p
      → Always Q p
  Always-mono P Q (ret a) f e = f [] a e
  Always-mono P Q (call c k) f e =
      λ r. Always-mono (λ t. P ((c, r) ∷ t)) (λ t. Q ((c, r) ∷ t)) (k r) (λ t. f ((c, r) ∷ t)) (e r)
