-- ===== src/Audit/Modes.antt =====
-- What `Log` of internal/audit/logger.go promises in each write mode.
use mcpshield.Prelude.{
  ◌+◌, Bool, true, false, [], ◌∷◌, ◌++◌, inl, inr, ◌⊎◌, ◌≡◌, refl, sym, subst, length, ltb,
}
use mcpshield.Audit.Hashing.{CanonicalPayload}
use mcpshield.Audit.Logger.{
  SqliteLogger, Selected, report_drop, enqueue, select_send, log_strict, log_or_drop, log_in,
  log_event,
}
use mcpshield.Audit.Open.{Opened}
use mcpshield.Audit.Logger.{fail_closed, best_effort, drop, sent, context_done, timer_fired}

-- The event was put at the end of the queue, and no event was counted as dropped.
pub record Enqueued (e : CanonicalPayload) (before after : SqliteLogger) : Type 0 where
  pub queued : after.queue ≡ before.queue ++ e ∷ []
  pub counted : after.dropped ≡ before.dropped

-- The queue is as before, and the event was counted as dropped.
pub record Dropped (before after : SqliteLogger) : Type 0 where
  pub unqueued : after.queue ≡ before.queue
  pub lost : after.dropped ≡ before.dropped + 1

enqueue-Enqueued : (e : CanonicalPayload) (l : SqliteLogger) → Enqueued e l (enqueue e l)
enqueue-Enqueued e l = record { queued = refl; counted = refl }

report_drop-Dropped : (l : SqliteLogger) → Dropped l (report_drop 1 l)
unfolding report_drop
report_drop-Dropped l = record { unqueued = refl; lost = refl }

-- what a logged event may come to
abbrev pub Kept : CanonicalPayload → SqliteLogger → Bool × SqliteLogger → Type 0
Kept e l r = (r.0 ≡ true) × Enqueued e l r.1

abbrev pub Refused : SqliteLogger → Bool × SqliteLogger → Type 0
Refused l r = (r.0 ≡ false) × (((l.db_failed ≡ true) × (r.1 ≡ l)) ⊎ Dropped l r.1)

log_strict-cases :
    (failed : Bool) (s : Selected) (e : CanonicalPayload) (l : SqliteLogger)
    → l.db_failed ≡ failed
    → Kept e l (log_strict failed s e l) ⊎ Refused l (log_strict failed s e l)
unfolding log_strict select_send
log_strict-cases true s e l f = inr (refl, inl (f, refl))
log_strict-cases false sent e l f = inl (refl, enqueue-Enqueued e l)
log_strict-cases false context_done e l f = inr (refl, inr (report_drop-Dropped l))
log_strict-cases false timer_fired e l f = inr (refl, inr (report_drop-Dropped l))

-- In the mode `fail_closed`, an event with its id is queued or refused.
pub log_event-fail_closed :
    (s : Selected) (e : CanonicalPayload) (l : SqliteLogger)
    → l.mode ≡ fail_closed
    → Kept e l (log_event s e l) ⊎ Refused l (log_event s e l)
unfolding log_event log_in
log_event-fail_closed s e l mode =
    subst (λ m. Kept e l (log_in m s e l) ⊎ Refused l (log_in m s e l)) (sym mode)
      (log_strict-cases l.db_failed s e l refl)

-- What `Log` made of the logger.
abbrev pub outcome : Bool × Opened → Bool × SqliteLogger
outcome r = (r.0, r.1.running.logger)

-- `Log` returns nil, with the event queued or counted as dropped
abbrev pub Lossy : CanonicalPayload → SqliteLogger → Bool × SqliteLogger → Type 0
Lossy e l r = (r.0 ≡ true) × (Enqueued e l r.1 ⊎ Dropped l r.1)

select_send-Lossy :
    (s : Selected) (e : CanonicalPayload) (l : SqliteLogger) → Lossy e l (select_send s true e l)
unfolding select_send
select_send-Lossy sent e l = (refl, inl (enqueue-Enqueued e l))
select_send-Lossy context_done e l = (refl, inr (report_drop-Dropped l))
select_send-Lossy timer_fired e l = (refl, inr (report_drop-Dropped l))

log_or_drop-Lossy :
    (room : Bool) (e : CanonicalPayload) (l : SqliteLogger) → Lossy e l (log_or_drop room e l)
unfolding log_or_drop
log_or_drop-Lossy true e l = (refl, inl (enqueue-Enqueued e l))
log_or_drop-Lossy false e l = (refl, inr (report_drop-Dropped l))

-- In the modes `best_effort` and `drop`, `Log` returns nil, and the event is queued or the queue is
-- as before with the event counted as dropped.
log_event-Lossy :
    (s : Selected) (e : CanonicalPayload) (l : SqliteLogger)
    → (l.mode ≡ best_effort) ⊎ (l.mode ≡ drop)
    → Lossy e l (log_event s e l)
unfolding log_event log_in
log_event-Lossy s e l (inl mode) =
    subst (λ m. Lossy e l (log_in m s e l)) (sym mode) (select_send-Lossy s e l)
log_event-Lossy s e l (inr mode) =
    subst (λ m. Lossy e l (log_in m s e l)) (sym mode)
      (log_or_drop-Lossy (ltb (length l.queue) l.channel_size) e l)
