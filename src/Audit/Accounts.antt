-- ===== src/Audit/Accounts.antt =====
-- That the logger of internal/audit/logger.go loses no event without counting it.
use mcpshield.Prelude.{
  ℕ, suc, ◌+◌, ◌≤◌, String, Bool, true, false, Option, none, some, List, [], ◌∷◌, ◌++◌, length,
  length-append, leb, is_empty, if◌then◌else◌, ◌≡◌, refl, ◌∙◌, ap, arith, Bool-cases, inl, inr,
  if-elim,
}
use mcpshield.Audit.Hashing.{CanonicalPayload, StoredEvent, Platform, compute_hash}
use mcpshield.Audit.Table.{insert_row, has_id, insert_batch}
use mcpshield.Audit.Logger.{SqliteLogger, report_write_fail}
use mcpshield.Audit.Writer.{seal_batch, hash_batch, commit_batch, flush_batch}
use mcpshield.Audit.Loop.{Running, flush_pending, receive, drain}

-- The events that `Log` took in and the writer has not yet handed to the table.
abbrev pub pending : Running → ℕ
pending s = length s.logger.queue + length s.batch

is_empty-length {ℓ} : {A : Type ℓ} (xs : List A) → is_empty xs ≡ true → length xs ≡ 0
is_empty-length [] h = refl
is_empty-length (x ∷ xs) h = absurd (ground (arith, h))

module _ (pf : Platform) where
  insert_row-length :
      (e : StoredEvent) (rows : List StoredEvent) → length (insert_row pf e rows) ≡ length rows + 1
  unfolding insert_row
  insert_row-length e [] = omega arith
  insert_row-length e (r ∷ rs) = ground (arith, insert_row-length e rs)

  insert_batch-length :
      (batch rows rows' : List StoredEvent)
      → insert_batch pf batch rows ≡ some rows'
      → length rows' ≡ length rows + length batch
  unfolding insert_batch
  insert_batch-length [] rows rows' h = ground (arith, h)
  insert_batch-length (e ∷ es) rows rows' h =
      elim (Bool-cases (has_id pf e.payload.event_id rows)) [
        | inl taken ↦ absurd (ground (arith, taken, h))
        | inr fresh ↦
            let rest =
              insert_batch-length es (insert_row pf e rows) rows' (ground (arith, fresh, h)) in
            omega (arith, rest, insert_row-length e rows)
      ]

  seal_batch-length :
      (tip : String) (batch : List CanonicalPayload)
      → length (seal_batch pf tip batch).0 ≡ length batch
  unfolding seal_batch
  seal_batch-length tip [] = refl
  seal_batch-length tip (p ∷ ps) = ap suc (seal_batch-length (compute_hash pf tip p) ps)

  hash_batch-length : (batch : List CanonicalPayload) → length (hash_batch pf batch) ≡ length batch
  unfolding hash_batch
  hash_batch-length [] = refl
  hash_batch-length (p ∷ ps) = ap suc (hash_batch-length ps)

  -- A flush stores its batch or counts it.
  record Flushed (n : ℕ) (l l' : SqliteLogger) : Type 0 where
    pub queue : l'.queue ≡ l.queue
    pub kept : length l.rows ≤ length l'.rows
    pub total : length l'.rows + l'.dropped ≡ length l.rows + l.dropped + n

  commit_batch-Flushed :
      (n : ℕ) (tip : String) (inserted : Option (List StoredEvent)) (l : SqliteLogger)
      → ((rows : List StoredEvent) → inserted ≡ some rows → length rows ≡ length l.rows + n)
      → Flushed n l (commit_batch pf n tip inserted l)
  unfolding commit_batch report_write_fail
  commit_batch-Flushed n tip none l f = record {
    queue = refl;
    kept = omega arith;
    total = omega arith;
  }
  commit_batch-Flushed n tip (some rows) l f = record {
    queue = refl;
    kept = omega (arith, f rows refl);
    total = omega (arith, f rows refl);
  }

  -- what the database answers to the rows
  answered-length :
      (healthy : Bool) (n : ℕ) (stored rows rows' : List StoredEvent)
      → length stored ≡ n
      → (if healthy then insert_batch pf stored rows else none) ≡ some rows'
      → length rows' ≡ length rows + n
  answered-length true n stored rows rows' size h =
      omega (arith, insert_batch-length stored rows rows' h, size)
  answered-length false n stored rows rows' size h = absurd (ground (arith, h))

  flush_batch-Flushed :
      (healthy : Bool) (batch : List CanonicalPayload) (l : SqliteLogger)
      → Flushed (length batch) l (flush_batch pf healthy batch l)
  unfolding flush_batch
  flush_batch-Flushed healthy batch l =
      let sealing =
        if l.hash_chain
        then seal_batch pf l.last_hash batch
        else (hash_batch pf batch, l.last_hash) in
      commit_batch-Flushed (length batch) sealing.1
        (if healthy then insert_batch pf sealing.0 l.rows else none) l
        (λ rows. answered-length healthy (length batch) sealing.0 l.rows rows (
          if-elim (λ (x : List StoredEvent × String). length x.0 ≡ length batch) l.hash_chain
            (λ _. seal_batch-length l.last_hash batch) (λ _. hash_batch-length batch)))

  -- A turn of the loop moves events on: from the channel over the batch to the table or the count.
  pub record Balanced (s s' : Running) : Type 0 where
    pub kept : length s.logger.rows ≤ length s'.logger.rows
    pub total :
        length s'.logger.rows + s'.logger.dropped + pending s'
        ≡ length s.logger.rows + s.logger.dropped + pending s

  pub record IsTurned (s s' : Running) : Type 0 where
    pub balanced : Balanced s s'
    pub batch : length s'.batch ≡ 0
    pub queue : s'.logger.queue ≡ s.logger.queue

  pub flush_pending-IsTurned :
      (healthy : Bool) (s : Running) → IsTurned s (flush_pending pf healthy s)
  unfolding flush_pending
  flush_pending-IsTurned healthy s =
      if-elim (IsTurned s) (is_empty s.batch)
        (λ empty. record {
          balanced = record { kept = omega arith; total = refl };
          batch = is_empty-length s.batch empty;
          queue = refl;
        })
        (λ _.
          let f = flush_batch-Flushed healthy s.batch s.logger in
          record {
            balanced = record { kept = f.kept; total = omega (arith, f.total, ap length f.queue) };
            batch = refl;
            queue = f.queue;
          })

  take-Balanced :
      (s : Running) (e : CanonicalPayload) (rest : List CanonicalPayload)
      → s.logger.queue ≡ e ∷ rest
      → Balanced s
          (record s { logger = record s.logger { queue = rest }; batch = s.batch ++ e ∷ [] })
  take-Balanced s e rest h = record {
    kept = omega arith;
    total = omega (arith, ap length h, length-append s.batch (e ∷ []));
  }

  Balanced-trans : (s t u : Running) → Balanced s t → Balanced t u → Balanced s u
  Balanced-trans s t u a b = record {
    kept = omega (arith, a.kept, b.kept);
    total = omega (arith, a.total, b.total);
  }

  pub receive-Balanced :
      (healthy : Bool) (e : CanonicalPayload) (rest : List CanonicalPayload) (s : Running)
      → s.logger.queue ≡ e ∷ rest
      → Balanced s (receive pf healthy e rest s)
        × ((receive pf healthy e rest s).logger.queue ≡ rest)
  unfolding receive
  receive-Balanced healthy e rest s h =
      let s' : Running = record s {
        logger = record s.logger { queue = rest };
        batch = s.batch ++ e ∷ [];
      } in
      if-elim (λ t. Balanced s t × (t.logger.queue ≡ rest)) (leb s.batch_max (length s.batch + 1))
        (λ _.
          let f = flush_pending-IsTurned healthy s' in
          (
            Balanced-trans s s' (flush_pending pf healthy s') (take-Balanced s e rest h) f.balanced,
            f.queue,
          ))
        (λ _. (take-Balanced s e rest h, refl))

  pub drain-Balanced :
      (healthy : ℕ → Bool) (queue : List CanonicalPayload) (s : Running)
      → s.logger.queue ≡ queue
      → Balanced s (drain pf healthy queue s) × (pending (drain pf healthy queue s) ≡ 0)
  unfolding drain
  drain-Balanced healthy [] s h =
      let f = flush_pending-IsTurned (healthy 0) s in
      (f.balanced, omega (arith, f.batch, ap length (f.queue ∙ h)))
  drain-Balanced healthy (e ∷ rest) s h =
      let s' = receive pf (healthy 0) e rest s in
      let (balanced, queue) = receive-Balanced (healthy 0) e rest s h in
      let (later, nothing) = drain-Balanced (λ n. healthy (suc n)) rest s' queue in
      (Balanced-trans s s' (drain pf (λ n. healthy (suc n)) rest s') balanced later, nothing)
