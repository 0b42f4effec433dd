-- ===== src/Audit/Writer.antt =====
-- internal/audit/logger.go: what the writer does to the table, `flushBatch` and `runRetention`.
use mcpshield.Prelude.{
  ℕ, ◌+◌, String, Bool, true, false, ◌&&◌, ◌||◌, Option, none, some, List, [], ◌∷◌, length, ltb,
  if◌then◌else◌,
}
use mcpshield.Audit.Hashing.{
  CanonicalPayload, StoredEvent, Platform, hash_after, stored_last_hash, compute_hash, sealed,
}
use mcpshield.Audit.Table.{
  delete_before, trim_rounds, trim_to_size, insert_batch, reseal_from, reseal_chain,
}
use mcpshield.Audit.Logger.{SqliteLogger, report_write_fail}

-- The limits of `retentionCfg`: the cutoff that the age gives, and the size, where they are set.
pub record Retention : Type 0 where
  pub cutoff : Option ℕ
  pub max_size : Option ℕ

-- The errors of one run of the retention; `trim_fails` is the number of rounds of the
-- trimming before its own.
pub record Faults : Type 0 where
  pub delete_fails : Bool
  pub trim_fails : Option ℕ
  pub reseal_fails : Bool

-- the block of `runRetention` for the age: the rows that are left, and `deleted`
unfoldable pub retain_age : Option ℕ → Bool → List StoredEvent → List StoredEvent × Bool
unfolding delete_before
retain_age none fails rows = (rows, false)
retain_age (some cutoff) true rows = (rows, false)
retain_age (some cutoff) false rows =
    (delete_before cutoff rows, ltb (length (delete_before cutoff rows)) (length rows))

-- the block for the size
unfoldable pub retain_size :
    (List StoredEvent → ℕ) → Option ℕ → Option ℕ → List StoredEvent → Bool → List StoredEvent × Bool
unfolding trim_rounds
retain_size size none fails rows deleted = (rows, deleted)
retain_size size (some max) fails rows deleted =
    let (trimmed, kept) = trim_to_size size max fails rows in
    if ltb max (size rows) then (kept, trimmed || deleted) else (rows, deleted)

module _ (pf : Platform) where
  -- the loop of `flushBatch` with hash chaining: the rows and the new tip
  unfoldable pub seal_batch : String → List CanonicalPayload → List StoredEvent × String
  unfolding compute_hash
  seal_batch tip [] = ([], tip)
  seal_batch tip (p ∷ ps) =
      let (rest, tip') = seal_batch (compute_hash pf tip p) ps in (sealed pf tip p ∷ rest, tip')

  -- the same loop without hash chaining
  unfoldable pub hash_batch : List CanonicalPayload → List StoredEvent
  unfolding compute_hash
  hash_batch [] = []
  hash_batch (p ∷ ps) =
      record { payload = p; prev_hash = ""; event_hash = compute_hash pf "" p } ∷ hash_batch ps

  -- `flushBatch` from what `InsertBatch` returns
  unfoldable pub commit_batch : ℕ → String → Option (List StoredEvent) → SqliteLogger → SqliteLogger
  unfolding report_write_fail
  commit_batch n tip none l = report_write_fail n l
  commit_batch n tip (some rows) l = record l {
    rows = rows;
    db_failed = false;
    writes = l.writes + 1;
    last_hash = tip;
  }

  -- `flushBatch`; `healthy` is whether the database takes the transaction
  unfoldable pub flush_batch : Bool → List CanonicalPayload → SqliteLogger → SqliteLogger
  unfolding seal_batch hash_batch insert_batch commit_batch
  flush_batch healthy batch l =
      let (stored, tip) =
        if l.hash_chain then seal_batch l.last_hash batch else (hash_batch batch, l.last_hash) in
      commit_batch (length batch) tip (if healthy then insert_batch pf stored l.rows else none) l

  -- the end of `runRetention`
  unfoldable pub reseal_if : Bool → Bool → List StoredEvent → SqliteLogger → SqliteLogger
  unfolding reseal_from hash_after
  reseal_if deleted fails kept l =
      if deleted && l.hash_chain
      then (if fails then record l { rows = kept } else record l {
        rows = reseal_chain pf kept;
        last_hash = stored_last_hash (reseal_chain pf kept);
      })
      else record l { rows = kept }

  unfoldable pub run_retention :
      (List StoredEvent → ℕ) → Retention → Faults → SqliteLogger → SqliteLogger
  unfolding retain_age retain_size reseal_if
  run_retention size r f l =
      let (aged, by_age) = retain_age r.cutoff f.delete_fails l.rows in
      let (kept, deleted) = retain_size size r.max_size f.trim_fails aged by_age in
      reseal_if deleted f.reseal_fails kept l
