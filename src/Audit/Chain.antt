-- ===== src/Audit/Chain.antt =====
-- What `VerifyChain` of internal/audit/hashchain.go accepts and what it finds.
use mcpshield.Prelude.{
  String, none, List, [], ◌∷◌, ◌++◌, inl, inr, ◌↔◌, ◌≡◌, ◌≢◌, refl, sym, ◌∙◌, Option-cases, eq_iff,
  arith,
}
use mcpshield.Audit.Hashing.{
  CanonicalPayload, StoredEvent, Platform, compute_hash, verify_event, verify_from, verify_chain,
  sealed, hash_after,
}
use mcpshield.Audit.Writer.{seal_batch}
use mcpshield.Audit.Table.{reseal_from}

module _ (pf : Platform) where
  -- the row continues the chain
  pub record Links (prev : String) (e : StoredEvent) : Type 0 where
    pub follows : e.prev_hash ≡ prev
    pub hashed : e.event_hash ≡ compute_hash pf prev e.payload

  verify_event-Links :
      (prev : String) (e : StoredEvent) → verify_event pf prev e ≡ none → Links prev e
  unfolding verify_event
  verify_event-Links prev e h = record {
    follows = ground (arith, eq_iff e.prev_hash prev);
    hashed = ground (arith, eq_iff e.event_hash (compute_hash pf prev e.payload));
  }

  Links-verify_event :
      (prev : String) (e : StoredEvent) → Links prev e → verify_event pf prev e ≡ none
  unfolding verify_event
  Links-verify_event prev e l =
      let a = (eq_iff e.prev_hash prev).1 l.follows in
      let b = (eq_iff e.event_hash (compute_hash pf prev e.payload)).1 l.hashed in rw (a, b)

  verify_from-Links :
      (prev : String) (e : StoredEvent) (es : List StoredEvent)
      → verify_from pf prev (e ∷ es) ≡ none
      → Links prev e × (verify_from pf e.event_hash es ≡ none)
  unfolding verify_from
  verify_from-Links prev e es h = elim (Option-cases (verify_event pf prev e)) [
    | inl good ↦ (verify_event-Links prev e good, ground (arith, good, h))
    | inr (x, bad) ↦ absurd (ground (arith, bad, h))
  ]

  Links-verify_from :
      (prev : String) (e : StoredEvent) (es : List StoredEvent)
      → Links prev e
      → verify_from pf e.event_hash es ≡ none
      → verify_from pf prev (e ∷ es) ≡ none
  unfolding verify_from
  Links-verify_from prev e es l h = ground (arith, Links-verify_event prev e l, h)

  -- A log verifies from a hash on just if its two parts do, the second from where the first ends.
  pub verify_from-append_iff :
      (prev : String) (xs ys : List StoredEvent)
      → (verify_from pf prev (xs ++ ys) ≡ none)
        ↔ ((verify_from pf prev xs ≡ none) × (verify_from pf (hash_after prev xs) ys ≡ none))
  unfolding hash_after
  verify_from-append_iff prev [] ys = (λ h. (unfold verify_from in refl, h), λ h. h.1)
  verify_from-append_iff prev (e ∷ xs) ys =
      let (split, join) = verify_from-append_iff e.event_hash xs ys in
      (
        λ h.
            let (l, rest) = verify_from-Links prev e (xs ++ ys) h in
            let (a, b) = split rest in (Links-verify_from prev e xs l a, b),
        λ h.
            let (l, rest) = verify_from-Links prev e xs h.0 in
            Links-verify_from prev e (xs ++ ys) l (join (rest, h.1)),
      )

  sealed-Links : (prev : String) (p : CanonicalPayload) → Links prev (sealed pf prev p)
  sealed-Links prev p = record { follows = refl; hashed = refl }

  -- A batch that the logger seals verifies from the tip that it was sealed from, and leaves the new
  -- tip as its last hash.
  pub seal_batch-verifies :
      (tip : String) (batch : List CanonicalPayload)
      → (verify_from pf tip (seal_batch pf tip batch).0 ≡ none)
        × (hash_after tip (seal_batch pf tip batch).0 ≡ (seal_batch pf tip batch).1)
  unfolding seal_batch hash_after
  seal_batch-verifies tip [] = (unfold verify_from in refl, refl)
  seal_batch-verifies tip (p ∷ ps) =
      let (v, t) = seal_batch-verifies (compute_hash pf tip p) ps in
      (
        Links-verify_from tip (sealed pf tip p) (seal_batch pf (compute_hash pf tip p) ps).0
            (sealed-Links tip p) v,
        t,
      )

  -- Any rows verify once they are resealed, from any hash on.
  pub reseal_from-verifies :
      (prev : String) (rows : List StoredEvent)
      → verify_from pf prev (reseal_from pf prev rows) ≡ none
  unfolding reseal_from
  reseal_from-verifies prev [] = unfold verify_from in refl
  reseal_from-verifies prev (e ∷ es) =
      Links-verify_from prev (sealed pf prev e.payload)
        (reseal_from pf (compute_hash pf prev e.payload) es) (sealed-Links prev e.payload)
        (reseal_from-verifies (compute_hash pf prev e.payload) es)

  -- If a log verifies, then no longer does once the payload of one row is another, unless the two
  -- payloads hash to the same text after the hash before that row.
  pub verify_chain-tampered :
      (front back : List StoredEvent) (e : StoredEvent) (p : CanonicalPayload)
      → verify_chain pf (front ++ e ∷ back) ≡ none
      → compute_hash pf (hash_after "" front) p ≢ compute_hash pf (hash_after "" front) e.payload
      → verify_chain pf (front ++ record e { payload = p } ∷ back) ≢ none
  verify_chain-tampered front back e p good no_collision bad =
      let e' : StoredEvent = record e { payload = p } in
      let a =
        (verify_from-Links (hash_after "" front) e back
          ((verify_from-append_iff "" front (e ∷ back)).0 good).1).0 in
      let b =
        (verify_from-Links (hash_after "" front) e' back
          ((verify_from-append_iff "" front (e' ∷ back)).0 bad).1).0 in
      no_collision (sym b.hashed ∙ a.hashed)

  -- If a log verifies, then no longer does once a row that has a successor is deleted, unless that
  -- row's hash is the hash before it.
  verify_chain-deleted :
      (front back : List StoredEvent) (e next : StoredEvent)
      → verify_chain pf (front ++ e ∷ next ∷ back) ≡ none
      → e.event_hash ≢ hash_after "" front
      → verify_chain pf (front ++ next ∷ back) ≢ none
  verify_chain-deleted front back e next good fresh bad =
      let a =
        verify_from-Links (hash_after "" front) e (next ∷ back)
          ((verify_from-append_iff "" front (e ∷ next ∷ back)).0 good).1 in
      let b = (verify_from-Links e.event_hash next back a.1).0 in
      let c =
        (verify_from-Links (hash_after "" front) next back
          ((verify_from-append_iff "" front (next ∷ back)).0 bad).1).0 in
      fresh (sym b.follows ∙ c.follows)

  -- The rows that follow can be cut off a log that verifies: what is left verifies.
  verify_chain-truncated :
      (front back : List StoredEvent)
      → verify_chain pf (front ++ back) ≡ none
      → verify_chain pf front ≡ none
  verify_chain-truncated front back good = ((verify_from-append_iff "" front back).0 good).0
