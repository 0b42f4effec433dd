-- ===== src/Audit/Flush.antt =====
-- That what the writer of internal/audit/logger.go does to the table leaves a log that verifies.
use mcpshield.Prelude.{
  ℕ, String, Bool, true, false, Option, none, some, List, [], ◌∷◌, ◌++◌, append-nil,
  append-singleton, All, length, inl, inr, ◌≡◌, refl, sym, ◌∙◌, ap, subst, Bool-cases,
  if◌then◌else◌, arith,
}
use mcpshield.Audit.Hashing.{
  CanonicalPayload, StoredEvent, Platform, verify_from, verify_chain, hash_after, stored_last_hash,
}
use mcpshield.Audit.Logger.{SqliteLogger, report_write_fail}
use mcpshield.Audit.Writer.{seal_batch, commit_batch, flush_batch, hash_batch}
use mcpshield.Audit.Table.{row_before, insert_row, has_id, insert_batch}
use mcpshield.Audit.Chain.{verify_from-append_iff, seal_batch-verifies}

hash_after-append :
    (tip : String) (xs ys : List StoredEvent)
    → hash_after tip (xs ++ ys) ≡ hash_after (hash_after tip xs) ys
unfolding hash_after
hash_after-append tip [] ys = refl
hash_after-append tip (x ∷ xs) ys = hash_after-append x.event_hash xs ys

module _ (pf : Platform) where
  -- The table verifies, and the logger's tip is its last hash.
  pub record IsIntact (l : SqliteLogger) : Type 0 where
    pub verifies : verify_chain pf l.rows ≡ none
    pub tip : l.last_hash ≡ stored_last_hash l.rows

  -- Each event of the batch comes after the rows before it, in the order of a scan.
  abbrev pub InOrder : List StoredEvent → List StoredEvent → Type 0
  InOrder rows [] = Unit
  InOrder rows (e ∷ es) = All (λ r. row_before pf e r ≡ false) rows × InOrder (rows ++ e ∷ []) es

  insert_row-last :
      (e : StoredEvent) (rows : List StoredEvent)
      → All (λ r. row_before pf e r ≡ false) rows
      → insert_row pf e rows ≡ rows ++ e ∷ []
  unfolding insert_row
  insert_row-last e [] h = refl
  insert_row-last e (r ∷ rs) (late, h) =
      let rest = insert_row-last e rs h in ground (arith, late, rest)

  insert_batch-appends :
      (batch rows rows' : List StoredEvent)
      → InOrder rows batch
      → insert_batch pf batch rows ≡ some rows'
      → rows' ≡ rows ++ batch
  unfolding insert_batch
  insert_batch-appends [] rows rows' o h =
      let e : rows ≡ rows' = ground (arith, h) in sym e ∙ sym (append-nil rows)
  insert_batch-appends (e ∷ es) rows rows' (late, o) h =
      let placed = insert_row-last e rows late in
      elim (Bool-cases (has_id pf e.payload.event_id rows)) [
        | inl taken ↦ absurd (ground (arith, taken, h))
        | inr fresh ↦
            let inserted : insert_batch pf es (insert_row pf e rows) ≡ some rows' =
              ground (arith, fresh, h) in
            insert_batch-appends es (rows ++ e ∷ []) rows' o
              (subst (λ rs. insert_batch pf es rs ≡ some rows') placed inserted)
            ∙ append-singleton rows e es
      ]

  commit_batch-IsIntact :
      (n : ℕ) (batch : List CanonicalPayload) (inserted : Option (List StoredEvent))
      (l : SqliteLogger)
      → IsIntact l
      → ((rows : List StoredEvent)
          → inserted ≡ some rows
          → rows ≡ l.rows ++ (seal_batch pf l.last_hash batch).0)
      → IsIntact (commit_batch pf n (seal_batch pf l.last_hash batch).1 inserted l)
  unfolding commit_batch report_write_fail
  commit_batch-IsIntact n batch none l i f = record { verifies = i.verifies; tip = i.tip }
  commit_batch-IsIntact n batch (some rows) l i f =
      let (v, t) = seal_batch-verifies pf l.last_hash batch in
      let added = (seal_batch pf l.last_hash batch).0 in
      let whole : verify_chain pf (l.rows ++ added) ≡ none =
        (verify_from-append_iff pf "" l.rows added).1
          (i.verifies, subst (λ h. verify_from pf h added ≡ none) i.tip v) in
      record {
        verifies = subst (λ rs. verify_chain pf rs ≡ none) (sym (f rows refl)) whole;
        tip =
            sym t
            ∙ ap (λ h. hash_after h added) i.tip
            ∙ sym (hash_after-append "" l.rows added)
            ∙ ap stored_last_hash (sym (f rows refl));
      }

  -- what the database answers to the batch
  abbrev answer : Bool → List CanonicalPayload → SqliteLogger → Option (List StoredEvent)
  answer healthy batch l =
      if healthy then insert_batch pf (seal_batch pf l.last_hash batch).0 l.rows else none

  flush_batch-chained :
      (healthy : Bool) (batch : List CanonicalPayload) (l : SqliteLogger)
      → l.hash_chain ≡ true
      → flush_batch pf healthy batch l
        ≡ commit_batch pf
            (length batch)
            (seal_batch pf l.last_hash batch).1
            (answer healthy batch l)
            l
  unfolding flush_batch
  flush_batch-chained healthy batch l chained =
      ap
        (λ b.
          let s =
            if b then seal_batch pf l.last_hash batch else (hash_batch pf batch, l.last_hash) in
          commit_batch pf (length batch) s.1 (if healthy then insert_batch pf s.0 l.rows else none)
            l)
        chained

  -- With hash chaining, a flush keeps the table one that verifies and the tip its last hash, whether
  -- the transaction is taken, refused by the database or refused for a duplicate id, if the events
  -- of the batch come after the stored ones in the order of a scan.
  pub flush_batch-IsIntact :
      (healthy : Bool) (batch : List CanonicalPayload) (l : SqliteLogger)
      → l.hash_chain ≡ true
      → IsIntact l
      → InOrder l.rows (seal_batch pf l.last_hash batch).0
      → IsIntact (flush_batch pf healthy batch l)
  flush_batch-IsIntact healthy batch l chained i o =
      subst IsIntact (sym (flush_batch-chained healthy batch l chained)) (
        commit_batch-IsIntact (length batch) batch (answer healthy batch l) l i (λ rows taken.
          insert_batch-appends (seal_batch pf l.last_hash batch).0 l.rows rows o
            (ground (arith, taken))))
