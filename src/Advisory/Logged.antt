-- ===== src/Advisory/Logged.antt =====
-- What the advisory task logs, and how long it waits.
use eventbus_rs.Prelude.{
  ℕ, zero, suc, ◌≤◌, ◌≡◌, refl, ap, sym, subst, ◌∙◌, arith, min, Bool, true, false, String, Option,
  none, some, List, [], ◌∷◌, ◌++◌, append_assoc, append_nil, length, take, Result, ok, err,
}
use eventbus_rs.Calls.{Bytes}
use eventbus_rs.Advisory.{
  JsonApi, Log, not_json, raw_prefix, advisory, log_one_advisory, Logger, Happening, reading,
  message, spawn_logger, step, run, continue, at_point, doubled, backoff_initial, backoff_max,
}

length-take : {A : Type 0} (n : ℕ) (xs : List A) → n ≤ length xs → length (take n xs) ≡ n
length-take zero xs h = refl
length-take (suc n) [] h = omega (arith, h)
length-take (suc n) (x ∷ xs) h = omega (arith, length-take n xs (omega (arith, h)))

-- The raw bytes that are logged.
abbrev pub prefixes : List Log → List Bytes
prefixes [] = []
prefixes (raw_prefix subject bytes ∷ l) = bytes ∷ prefixes l
prefixes (_ ∷ l) = prefixes l

abbrev pub Holds : (Logger → Type 0) → Option Logger → Type 0
Holds P none = Unit
Holds P (some t) = P t

-- Subject, JSON or not, length of the payload.
abbrev pub Heading : Type 0
Heading = String × Bool × ℕ

module _ {J : Type 0} (json : JsonApi J) (limit : ℕ) where
  -- The entries for the messages among these events, in order.
  abbrev pub entries : List Happening → List Log
  entries [] = []
  entries (message subject payload ∷ hs) = log_one_advisory json subject payload limit ++ entries hs
  entries (_ ∷ hs) = entries hs

  -- For each entry but the raw bytes: its subject, whether it is one for JSON, and the length it says.
  abbrev pub headings : List Log → List Heading
  headings [] = []
  headings (not_json subject n ∷ l) = (subject, false, n) ∷ headings l
  headings (advisory subject fields ∷ l) = (subject, true, fields.payload_len) ∷ headings l
  headings (raw_prefix subject bytes ∷ l) = headings l

  abbrev pub reads : Bytes → Bool
  reads payload = elim (json.from_slice payload) [ none ↦ false | some j ↦ true ]

  -- The subjects of the messages received, in order, whether their payloads are JSON, and how long they are.
  abbrev pub received : List Happening → List Heading
  received [] = []
  received (message subject payload ∷ hs) = (subject, reads payload, length payload) ∷ received hs
  received (_ ∷ hs) = received hs

  headings-append : (l m : List Log) → headings (l ++ m) ≡ headings l ++ headings m
  headings-append [] m = refl
  headings-append (not_json subject n ∷ l) m = ap ((subject, false, n) ∷◌) (headings-append l m)
  headings-append (advisory subject fields ∷ l) m =
      ap ((subject, true, fields.payload_len) ∷◌) (headings-append l m)
  headings-append (raw_prefix subject bytes ∷ l) m = headings-append l m

  headings-log_one_advisory :
      (subject : String) (payload : Bytes)
      → headings (log_one_advisory json subject payload limit)
        ≡ (subject, reads payload, length payload) ∷ []
  unfolding log_one_advisory
  headings-log_one_advisory subject payload = ground arith

  headings-entries : (hs : List Happening) → headings (entries hs) ≡ received hs
  headings-entries [] = refl
  headings-entries (message subject payload ∷ hs) =
      headings-append (log_one_advisory json subject payload limit) (entries hs)
      ∙ ap (◌++ headings (entries hs)) (headings-log_one_advisory subject payload)
      ∙ ap ((subject, reads payload, length payload) ∷◌) (headings-entries hs)
  headings-entries (h ∷ hs) = headings-entries hs

  pub record Logs (before : List Log) (hs : List Happening) (t : Logger) : Type 0 where
    pub complete : t.logged ≡ before ++ entries hs
    pub above : backoff_initial ≤ t.backoff_duration
    pub below : t.backoff_duration ≤ backoff_max

  step-Logs :
      (s : Logger) (h : Happening)
      → backoff_initial ≤ s.backoff_duration
      → s.backoff_duration ≤ backoff_max
      → Holds (Logs s.logged (h ∷ [])) (step json limit s h)
  unfolding step at_point doubled
  step-Logs s (message subject payload) a b =
      ground (arith, append_nil (log_one_advisory json subject payload limit))
  step-Logs s h a b = ground (arith, append_nil s.logged)

  entries-cons :
      (h : Happening) (hs : List Happening) → entries (h ∷ hs) ≡ entries (h ∷ []) ++ entries hs
  entries-cons (message subject payload) hs =
      ground (arith, append_nil (log_one_advisory json subject payload limit))
  entries-cons h hs = ground arith

  Logs-after :
      (s t : Logger) (h : Happening) (hs : List Happening) (o : Option Logger)
      → Logs s.logged (h ∷ []) t
      → Holds (Logs t.logged hs) o
      → Holds (Logs s.logged (h ∷ hs)) o
  Logs-after s t h hs none l m = tt
  Logs-after s t h hs (some u) l m = record {
    complete =
        m.complete
        ∙ ap (λ b. b ++ entries hs) l.complete
        ∙ append_assoc s.logged (entries (h ∷ [])) (entries hs)
        ∙ ap (s.logged ++◌) (sym (entries-cons h hs));
    above = m.above;
    below = m.below;
  }

  rest-Logs :
      (s : Logger) (h : Happening) (hs : List Happening) (t : Option Logger)
      → Holds (Logs s.logged (h ∷ [])) t
      → ((u : Logger)
          → backoff_initial ≤ u.backoff_duration
          → u.backoff_duration ≤ backoff_max
          → Holds (Logs u.logged hs) (run json limit u hs))
      → Holds (Logs s.logged (h ∷ hs)) (continue json limit (λ t. run json limit t hs) t)
  unfolding continue
  rest-Logs s h hs none l k = tt
  rest-Logs s h hs (some t) l k = Logs-after s t h hs (run json limit t hs) l (k t l.above l.below)

  run-Logs :
      (s : Logger) (hs : List Happening)
      → backoff_initial ≤ s.backoff_duration
      → s.backoff_duration ≤ backoff_max
      → Holds (Logs s.logged hs) (run json limit s hs)
  unfolding run
  run-Logs s [] a b = record { complete = sym (append_nil s.logged); above = a; below = b }
  run-Logs s (h ∷ hs) a b =
      rest-Logs s h hs (step json limit s h) (step-Logs s h a b) (λ u a b. run-Logs u hs a b)

  -- Each raw prefix has at most `limit` bytes, and there is none if that is 0.
  abbrev pub Short : List Log → Type 0
  Short [] = Unit
  Short (raw_prefix subject bytes ∷ l) = ((1 ≤ limit) × (length bytes ≤ limit)) × Short l
  Short (_ ∷ l) = Short l

  Short-append : (l m : List Log) → Short l → Short m → Short (l ++ m)
  Short-append [] m a b = b
  Short-append (raw_prefix subject bytes ∷ l) m a b = (a.0, Short-append l m a.1 b)
  Short-append (not_json subject n ∷ l) m a b = Short-append l m a b
  Short-append (advisory subject fields ∷ l) m a b = Short-append l m a b

  log_one_advisory-Short :
      (subject : String) (payload : Bytes) → Short (log_one_advisory json subject payload limit)
  unfolding log_one_advisory
  log_one_advisory-Short subject payload =
      ground (arith, length-take (min limit (length payload)) payload (omega arith))

  entries-Short : (hs : List Happening) → Short (entries hs)
  entries-Short [] = tt
  entries-Short (message subject payload ∷ hs) =
      Short-append (log_one_advisory json subject payload limit) (entries hs)
        (log_one_advisory-Short subject payload) (entries-Short hs)
  entries-Short (h ∷ hs) = entries-Short hs

  pub record Logged (hs : List Happening) (t : Logger) : Type 0 where
    pub each : headings t.logged ≡ received hs
    pub short : Short t.logged
    pub above : backoff_initial ≤ t.backoff_duration
    pub below : t.backoff_duration ≤ backoff_max

  Holds-Logged :
      (hs : List Happening) (o : Option Logger) → Holds (Logs [] hs) o → Holds (Logged hs) o
  Holds-Logged hs none l = tt
  Holds-Logged hs (some t) l = record {
    each = ap headings l.complete ∙ headings-entries hs;
    short = subst Short (sym l.complete) (entries-Short hs);
    above = l.above;
    below = l.below;
  }

  run-Logs-started :
      (reply : Result (Unit {0}) String) (s : Logger) (hs : List Happening)
      → spawn_logger reply ≡ ok s
      → Holds (Logs [] hs) (run json limit s hs)
  unfolding spawn_logger
  run-Logs-started (ok _) s hs e =
      subst (λ t. Holds (Logs [] hs) (run json limit t hs)) same
        (run-Logs started hs (omega arith) (omega arith))
    where
      started : Logger
      started = record { point = reading; backoff_duration = backoff_initial; logged = [] }

      same : started ≡ s
      same = ground (arith, e)
  run-Logs-started (err _) s hs e = ground (arith, e)

  -- Whatever happens to the advisory task: apart from raw bytes, it has logged one entry for every
  -- message that it has received and nothing else, in order, with the message's subject, whether its
  -- payload is JSON and the payload's length; it has logged raw bytes only where the limit is not 0, and
  -- never more than the limit of one message; and its back-off is between 200 ms and 30 s.
  pub run-Logged :
      (reply : Result (Unit {0}) String) (s : Logger) (hs : List Happening)
      → spawn_logger reply ≡ ok s
      → Holds (Logged hs) (run json limit s hs)
  run-Logged reply s hs e = Holds-Logged hs (run json limit s hs) (run-Logs-started reply s hs e)
