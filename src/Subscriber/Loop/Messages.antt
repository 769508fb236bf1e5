-- ===== src/Subscriber/Loop/Messages.antt =====
-- What the steps of the consumer task do to its messages.
use eventbus_rs.Prelude.{◌≡◌, ◌+◌, arith, true, false, Option, none, some, [], ◌∷◌, ◌++◌}
use eventbus_rs.Subscriber.Loop.{
  Point, permitting, Loop, Happening, message, all_joined, permitted, worker_ended, step, at_point,
}
use eventbus_rs.Subscriber.Loop.Invariant.{is_stopped}
use eventbus_rs.Subscriber.Loop.Workers.{is_own}

module _ {M : Type 0} where
  abbrev pub held_message : Point M → Option M
  held_message (permitting m) = some m
  held_message _ = none

  -- What a step of the task alone does to its messages: nothing, or it takes one, or it is the last.
  pub data OwnStep (s t : Loop M) : Type 0 where
    quiet :
        t.received ≡ s.received
        → held_message t.point ≡ held_message s.point
        → is_stopped t.point ≡ is_stopped s.point
        → OwnStep s t
    took :
        (m : M)
        → held_message s.point ≡ none
        → is_stopped s.point ≡ false
        → t.received ≡ s.received ++ m ∷ []
        → held_message t.point ≡ some m
        → is_stopped t.point ≡ false
        → OwnStep s t
    ended :
        s.active ≡ 0
        → t.received ≡ s.received
        → held_message s.point ≡ none
        → held_message t.point ≡ none
        → is_stopped t.point ≡ true
        → OwnStep s t

  pub step-OwnStep :
      (s t : Loop M) (h : Happening M) → is_own h ≡ true → step s h ≡ some t → OwnStep s t
  unfolding step at_point
  step-OwnStep s t (message m) o e =
      took m (ground arith) (ground arith) (ground arith) (ground arith) (ground arith)
  step-OwnStep s t all_joined o e =
      ended (ground arith) (ground arith) (ground arith) (ground arith) (ground arith)
  step-OwnStep s t h o e = quiet (ground arith) (ground arith) (ground arith)

  -- The start of a worker, and its end.
  pub step-begins :
      (s t : Loop M) (m : M)
      → s.point ≡ permitting m
      → step s permitted ≡ some t
      → (t.received ≡ s.received)
        × (held_message t.point ≡ none)
        × (is_stopped s.point ≡ false)
        × (is_stopped t.point ≡ false)
        × (t.permits + 1 ≡ s.permits)
  unfolding step at_point
  step-begins s t m o e = (ground arith, ground arith, ground arith, ground arith, ground arith)

  pub step-over :
      (s t : Loop M)
      → step s worker_ended ≡ some t
      → (t.received ≡ s.received) × (t.point ≡ s.point)
  unfolding step at_point
  step-over s t e = (ground arith, ground arith)
