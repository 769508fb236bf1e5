-- ===== src/Subscription/Ledger.antt =====
-- What a subscription of crates/bus-nats/src/subscriber.rs promises for its messages, whatever the
-- order and the list that the code keeps them in: each message received is taken in hand, given to a
-- worker when less than the concurrency run, and ends with that worker.
use mathlib.Core.Quot.{ind}
use mathlib.Mathlib.Data.Multiset.Defs.{Multiset, of_list, card}
use mathlib.Mathlib.Data.Multiset.ZeroCons.{zero as empty, cons, singleton}
use mathlib.Mathlib.Data.Multiset.AddSub.{add, singleton-add, zero-add, cons-add, add-cons}
use native.Mathlib.Bridge.{from_ℕ}
use native.Mathlib.Nat.{ℕ_set}
use eventbus_rs.Prelude.{
  ℕ, suc, ◌<◌, ◌≤◌, ◌≡◌, refl, sym, ap, ◌∙◌, arith, Bool, true, false, Option, none, some, List, [],
  ◌∷◌, length,
}

module _ {M : Type 0} where
  abbrev pub size : Multiset M → ℕ
  size s = from_ℕ (card s)

  pub size-of_list : (xs : List M) → size (of_list xs) ≡ length xs
  size-of_list [] = refl
  size-of_list (x ∷ xs) = ap suc (size-of_list xs)

  size-cons : (m : M) (s : Multiset M) → size (cons m s) ≡ suc (size s)
  size-cons m = ind (λ s. ℕ_set _ _) (λ xs. refl)

module _ {M : Type 0} where
  abbrev pub hand : Option M → Multiset M
  hand none = empty
  hand (some m) = singleton m

pub record Ledger (M : Type 0) : Type 0 where
  pub received : Multiset M
  pub in_hand : Option M
  pub working : Multiset M
  pub returned : Multiset M
  pub panicked : Multiset M
  pub closed : Bool

module _ {M : Type 0} (concurrency : ℕ) where
  pub data LedgerStep (s : Ledger M) : Ledger M → Type 0 where
    takes :
        (m : M)
        → s.in_hand ≡ none
        → s.closed ≡ false
        → LedgerStep s (record s { received = cons m s.received; in_hand = some m })
    begins :
        (m : M)
        → s.in_hand ≡ some m
        → size s.working < concurrency
        → LedgerStep s (record s { in_hand = none; working = cons m s.working })
    returns :
        (m : M) (rest : Multiset M)
        → s.working ≡ cons m rest
        → LedgerStep s (record s { working = rest; returned = cons m s.returned })
    panics :
        (m : M) (rest : Multiset M)
        → s.working ≡ cons m rest
        → LedgerStep s (record s { working = rest; panicked = cons m s.panicked })
    closes : s.in_hand ≡ none → s.working ≡ empty → LedgerStep s (record s { closed = true })

  pub data LedgerReach : Ledger M → Type 0 where
    start : LedgerReach (record {
      received = empty;
      in_hand = none;
      working = empty;
      returned = empty;
      panicked = empty;
      closed = false;
    })
    later : {s t : Ledger M} → LedgerReach s → LedgerStep s t → LedgerReach t

  -- Nothing is lost, and the bound is kept.
  pub record Balanced (s : Ledger M) : Type 0 where
    pub accounted : s.received ≡ add (hand s.in_hand) (add s.working (add s.returned s.panicked))
    pub bounded : size s.working ≤ concurrency
    pub settled : s.closed ≡ true → (s.in_hand ≡ none) × (s.working ≡ empty)

  -- A message leaves the workers.
  moved :
      {s : Ledger M}
      → Balanced s
      → (m : M) (rest : Multiset M) → s.working ≡ cons m rest
      → s.received ≡ add (hand s.in_hand) (add rest (cons m (add s.returned s.panicked)))
  moved {s} i m rest e =
      let over = add s.returned s.panicked in
      i.accounted
      ∙ ap (λ w. add (hand s.in_hand) (add w over)) e
      ∙ ap (add (hand s.in_hand)) (cons-add m rest over ∙ sym (add-cons m rest over))

  none_working :
      {s : Ledger M}
      → Balanced s
      → (m : M) (rest : Multiset M) → s.working ≡ cons m rest
      → s.closed ≡ true
      → ⊥
  none_working i m rest e h = omega (arith, size-cons m rest, ap size e, ap size (i.settled h).1)

  step-Balanced : {s t : Ledger M} → Balanced s → LedgerStep s t → Balanced t
  step-Balanced {s} i (takes m e o) =
      let others = add s.working (add s.returned s.panicked) in
      record {
        accounted =
            ap (cons m) (i.accounted ∙ ap (λ h. add (hand h) others) e ∙ zero-add others)
            ∙ sym (singleton-add m others);
        bounded = i.bounded;
        settled = λ h. absurd (ground (arith, h, o));
      }
  step-Balanced {s} i (begins m e l) =
      let over = add s.returned s.panicked in
      record {
        accounted =
            i.accounted
            ∙ ap (λ h. add (hand h) (add s.working over)) e
            ∙ singleton-add m (add s.working over)
            ∙ sym (cons-add m s.working over)
            ∙ sym (zero-add (add (cons m s.working) over));
        bounded = omega (arith, size-cons m s.working, l);
        settled = λ h. absurd (ground (arith, (i.settled h).0, e));
      }
  step-Balanced {s} i (returns m rest e) = record {
    accounted =
        moved i m rest e
        ∙ ap (λ x. add (hand s.in_hand) (add rest x)) (sym (cons-add m s.returned s.panicked));
    bounded = omega (arith, size-cons m rest, ap size e, i.bounded);
    settled = λ h. absurd (none_working i m rest e h);
  }
  step-Balanced {s} i (panics m rest e) = record {
    accounted =
        moved i m rest e
        ∙ ap (λ x. add (hand s.in_hand) (add rest x)) (sym (add-cons m s.returned s.panicked));
    bounded = omega (arith, size-cons m rest, ap size e, i.bounded);
    settled = λ h. absurd (none_working i m rest e h);
  }
  step-Balanced {s} i (closes e f) = record {
    accounted = i.accounted;
    bounded = i.bounded;
    settled = λ _. (e, f);
  }

  -- In every state that the promise allows, the messages received are those in hand, at work and over,
  -- none lost and none twice; at most the concurrency are at work; and once the subscription is closed
  -- none is in hand or at work.
  pub reach-Balanced : {s : Ledger M} → LedgerReach s → Balanced s
  reach-Balanced start = record {
    accounted = refl;
    bounded = omega arith;
    settled = λ h. absurd (ground (arith, h));
  }
  reach-Balanced (later r st) = step-Balanced (reach-Balanced r) st
