-- ===== src/Audit/Taken.antt =====
-- What `Log` of internal/audit/logger.go does with an event: it waits in the channel, or it is counted
-- as dropped.
use mcpshield.Prelude.{
  ◌+◌, Bool, true, false, ◌&&◌, [], ◌∷◌, length, length-append, ltb, if◌then◌else◌, ◌≡◌, refl,
  arith,
}
use mcpshield.Audit.Hashing.{CanonicalPayload}
use mcpshield.Audit.Logger.{
  SqliteLogger, Selected, sent, context_done, timer_fired, WriteMode, log_in, log_strict,
  log_or_drop, select_send, report_drop, unknown, block, fail_closed, best_effort, drop,
}
use mcpshield.Audit.Loop.{is_strict}

select_send-length :
    (sel : Selected) (b : Bool) (e : CanonicalPayload) (l : SqliteLogger)
    → length (select_send sel b e l).1.queue + (select_send sel b e l).1.dropped
      ≡ length l.queue + l.dropped + 1
unfolding select_send report_drop
select_send-length sent b e l = omega (arith, length-append l.queue (e ∷ []))
select_send-length context_done b e l = omega arith
select_send-length timer_fired b e l = omega arith

log_or_drop-length :
    (room : Bool) (e : CanonicalPayload) (l : SqliteLogger)
    → length (log_or_drop room e l).1.queue + (log_or_drop room e l).1.dropped
      ≡ length l.queue + l.dropped + 1
unfolding log_or_drop report_drop
log_or_drop-length true e l = omega (arith, length-append l.queue (e ∷ []))
log_or_drop-length false e l = omega arith

log_strict-length :
    (failed : Bool) (sel : Selected) (e : CanonicalPayload) (l : SqliteLogger)
    → length (log_strict failed sel e l).1.queue + (log_strict failed sel e l).1.dropped
      ≡ length l.queue + l.dropped + (if failed then 0 else 1)
unfolding log_strict
log_strict-length true sel e l = omega arith
log_strict-length false sel e l = select_send-length sel false e l

pub log_in-length :
    (mode : WriteMode) (sel : Selected) (e : CanonicalPayload) (l : SqliteLogger)
    → length (log_in mode sel e l).1.queue + (log_in mode sel e l).1.dropped
      ≡ length l.queue + l.dropped + (if is_strict mode && l.db_failed then 0 else 1)
unfolding log_in
log_in-length block sel e l = omega (arith, length-append l.queue (e ∷ []))
log_in-length best_effort sel e l = select_send-length sel true e l
log_in-length drop sel e l = log_or_drop-length (ltb (length l.queue) l.channel_size) e l
log_in-length fail_closed sel e l = log_strict-length l.db_failed sel e l
log_in-length unknown sel e l = log_strict-length l.db_failed sel e l

log_strict-taken :
    (failed : Bool) (sel : Selected) (e : CanonicalPayload) (l : SqliteLogger)
    → (log_strict failed sel e l).0 ≡ true
    → failed ≡ false
unfolding log_strict
log_strict-taken true sel e l h = absurd (ground (arith, h))
log_strict-taken false sel e l h = refl

-- An event of which `Log` returns nil waits in the channel or is counted as dropped.
pub log_in-taken :
    (mode : WriteMode) (sel : Selected) (e : CanonicalPayload) (l : SqliteLogger)
    → (log_in mode sel e l).0 ≡ true
    → length (log_in mode sel e l).1.queue + (log_in mode sel e l).1.dropped
      ≡ length l.queue + l.dropped + 1
unfolding log_in
log_in-taken block sel e l h = log_in-length block sel e l
log_in-taken best_effort sel e l h = log_in-length best_effort sel e l
log_in-taken drop sel e l h = log_in-length drop sel e l
log_in-taken fail_closed sel e l h =
    let off = log_strict-taken l.db_failed sel e l h in
    ground (arith, log_in-length fail_closed sel e l)
log_in-taken unknown sel e l h =
    let off = log_strict-taken l.db_failed sel e l h in
    ground (arith, log_in-length unknown sel e l)
