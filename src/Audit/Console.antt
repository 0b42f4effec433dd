-- ===== src/Audit/Console.antt =====
-- internal/audit/logger.go: the logger that keeps nothing and the one that prints to the standard
-- output, whose buffered channel its goroutine empties.
use mcpshield.Prelude.{
  ℕ, ◌≤◌, Bool, true, List, [], ◌∷◌, ◌++◌, length, ltb, if◌then◌else◌, ◌≡◌, refl, sym, ap, ◌∙◌,
  arith, append-nil, Bool-cases, inl, inr, ltb→lt, length-append,
}
use mathlib.Core.List.{append_assoc}
use mcpshield.Gateway.{Event}

-- The channel, and what the goroutine has printed so far.
pub record StdoutLogger : Type 0 where
  pub queue : List Event
  pub printed : List Event

abbrev pub stdout_capacity : ℕ
stdout_capacity = 256

abbrev pub new_stdout_logger : StdoutLogger
new_stdout_logger = record { queue = []; printed = [] }

-- `Log` of the logger that keeps nothing
unfoldable pub log_noop : Event → Bool
log_noop e = true

-- `Log`, which returns nil in any case; the gateway's events have their time
unfoldable pub log_stdout : Event → StdoutLogger → Bool × StdoutLogger
log_stdout e l =
    if ltb (length l.queue) stdout_capacity
    then (true, record l { queue = l.queue ++ e ∷ [] })
    else (true, l)

-- a turn of the loop of `run` with an event `e` from the channel, which leaves `rest` in it
unfoldable pub print_event : Event → List Event → StdoutLogger → StdoutLogger
print_event e rest l = record { queue = rest; printed = l.printed ++ e ∷ [] }

-- the loop once `Close` has closed the channel
unfoldable pub print_rest : List Event → StdoutLogger → StdoutLogger
unfolding print_event
print_rest [] l = l
print_rest (e ∷ rest) l = print_rest rest (print_event e rest l)

unfoldable pub close_stdout : StdoutLogger → StdoutLogger
unfolding print_rest
close_stdout l = print_rest l.queue l

-- An event that `Log` was given, with the number of those that waited then.
abbrev pub Given : Type 0
Given = Event × ℕ

-- A call of `Log` or a turn of the loop.
pub data Step : StdoutLogger → List Given → StdoutLogger → Type 0 where
  logged : (l : StdoutLogger) (e : Event) → Step l ((e, length l.queue) ∷ []) (log_stdout e l).1
  printed :
      (l : StdoutLogger) (e : Event) (rest : List Event)
      → l.queue ≡ e ∷ rest
      → Step l [] (print_event e rest l)

-- A run, with the events that its calls of `Log` were given.
pub data Run : StdoutLogger → List Given → StdoutLogger → Type 0 where
  start : (l : StdoutLogger) → Run l [] l
  then_step :
      {k l m : StdoutLogger} {es fs : List Given} → Run k es l → Step l fs m → Run k (es ++ fs) m

-- The events that were given while fewer than 256 waited.
abbrev pub with_room : List Given → List Event
with_room [] = []
with_room ((e, waiting) ∷ es) = if ltb waiting 256 then e ∷ with_room es else with_room es

with_room-append : (es fs : List Given) → with_room (es ++ fs) ≡ with_room es ++ with_room fs
with_room-append [] fs = refl
with_room-append ((e, waiting) ∷ es) fs = elim (Bool-cases (ltb waiting 256)) [
  | inl room ↦ rw room (ap (◌∷◌ e) (with_room-append es fs))
  | inr full ↦ rw full (with_room-append es fs)
]

-- All that the logger took in: what it has printed and what waits, in order.
abbrev pub kept : StdoutLogger → List Event
kept l = l.printed ++ l.queue

-- What is kept is what was given while there was room, in its order, and no more waits than fits.
pub record IsInOrder (es : List Given) (l : StdoutLogger) : Type 0 where
  pub order : kept l ≡ with_room es
  pub bounded : length l.queue ≤ stdout_capacity

Step-IsInOrder :
    {l m : StdoutLogger} {fs : List Given} (es : List Given)
    → IsInOrder es l
    → Step l fs m
    → IsInOrder (es ++ fs) m
unfolding log_stdout print_event
Step-IsInOrder es h (logged l e) = elim (Bool-cases (ltb (length l.queue) stdout_capacity)) [
  | inl room ↦ rw room (record {
    order =
        sym (append_assoc l.printed l.queue (e ∷ []))
        ∙ ap (λ xs. xs ++ e ∷ []) h.order
        ∙ sym (with_room-append es ((e, length l.queue) ∷ []) ∙ rw room refl);
    bounded = omega (arith, ltb→lt _ _ room, length-append l.queue (e ∷ []));
  })
  | inr full ↦ rw full (record {
    order =
        h.order
        ∙ sym
            (with_room-append es ((e, length l.queue) ∷ []) ∙ rw full (append-nil (with_room es)));
    bounded = h.bounded;
  })
]
Step-IsInOrder es h (printed l e rest waits) = record {
  order =
      append_assoc l.printed (e ∷ []) rest
      ∙ ap (◌++◌ l.printed) (sym waits)
      ∙ h.order
      ∙ ap with_room (sym (append-nil es));
  bounded = omega (arith, h.bounded, ap (λ (q : List Event). length q) waits);
}

Run-IsInOrder : {l : StdoutLogger} {es : List Given} → Run new_stdout_logger es l → IsInOrder es l
Run-IsInOrder (start l) = record { order = refl; bounded = omega arith }
Run-IsInOrder (then_step before last) = Step-IsInOrder _ (Run-IsInOrder before) last

print_rest-printed : (q : List Event) (l : StdoutLogger) → (print_rest q l).printed ≡ l.printed ++ q
unfolding print_rest
print_rest-printed [] l = sym (append-nil l.printed)
print_rest-printed (e ∷ rest) l =
    print_rest-printed rest (print_event e rest l) ∙ append_assoc l.printed (e ∷ []) rest

-- Once the stdout logger is closed it has printed just the events that it was given while fewer than
-- 256 waited in its channel, in their order and each once, whatever the order of calls and prints;
-- no more than 256 ever wait.
pub close_stdout-IsInOrder :
    {es : List Given} (l : StdoutLogger)
    → Run new_stdout_logger es l
    → ((close_stdout l).printed ≡ with_room es) × (length l.queue ≤ 256)
unfolding close_stdout
close_stdout-IsInOrder l run =
    let h = Run-IsInOrder run in (print_rest-printed l.queue l ∙ h.order, h.bounded)
