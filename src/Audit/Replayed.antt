-- ===== src/Audit/Replayed.antt =====
-- What `ReplayPolicyCheck` of internal/audit/replay.go prints for an event that the gateway recorded.
use mcpshield.Prelude.{
  ℕ, String, false, some, List, [], ◌∷◌, ◌++◌, map, ◌==◌, ◌≡◌, ◌↔◌, refl, sym, ap, ◌∙◌, eq_iff,
  is_empty, Bool, Bool-cases, inl, inr,
}
use mathlib.Core.List.{map-append}
use mcpshield.Mcp.{Object}
use mcpshield.Policy.Loader.{CompiledPolicy}
use mcpshield.Policy.Loader
use mcpshield.Policy.RateLimit.{Limiter}
use mcpshield.Policy.Engine.{yaml_engine}
use mcpshield.Gateway.{Event}
use mcpshield.Audit.Hashing.{StoredEvent}
use mcpshield.Audit.Replay.{DiffLine, filter, scan_session, replay_policy_check}
use mcpshield.Audit.Compared.{Unlimited, is_call, verdict, replay_policy_check-verdict}
use mcpshield.Audit.Stored.{Marshal, ReadsBack, event_to_stored, event_to_stored-verdict_iff}

filter-append {ℓ} :
    {A : Type ℓ} (p : A → Bool) (xs ys : List A) → filter p (xs ++ ys) ≡ filter p xs ++ filter p ys
filter-append p [] ys = refl
filter-append p (x ∷ xs) ys = elim (Bool-cases (p x)) [
  | inl on ↦ rw on (ap (◌∷◌ x) (filter-append p xs ys))
  | inr off ↦ rw off (filter-append p xs ys)
]

-- the row of an event
abbrev pub row_of : Marshal → String → String → String → Event → StoredEvent
row_of m id prev hash e = record {
  payload = event_to_stored m id "" "" e;
  prev_hash = prev;
  event_hash = hash;
}

module _ {L : Type 0} (lim : Limiter L) (unmarshal : String → Object) (format : ℕ → String)
    (p : CompiledPolicy) (s : L) (clock : ℕ → ℕ) where
  -- a replay against the policy
  abbrev pub replayed : String → List StoredEvent → List DiffLine
  replayed session rows =
      replay_policy_check (yaml_engine lim) unmarshal format clock session rows
        (record { policy = some p; limiter = s })

  -- the lines of a log of a session
  abbrev lines : String → List StoredEvent → List DiffLine
  lines session rows = map (verdict unmarshal format p) (filter is_call (scan_session session rows))

  lines-append :
      (session : String) (xs ys : List StoredEvent)
      → lines session (xs ++ ys) ≡ lines session xs ++ lines session ys
  unfolding scan_session
  lines-append session xs ys =
      let of_session : StoredEvent → Bool = λ e. e.payload.session_id == session in
      ap (λ rows. map (verdict unmarshal format p) (filter is_call rows))
        (filter-append of_session xs ys)
      ∙ ap (map (verdict unmarshal format p))
          (filter-append is_call (filter of_session xs) (filter of_session ys))
      ∙ map-append (verdict unmarshal format p) (filter is_call (filter of_session xs))
          (filter is_call (filter of_session ys))

  lines_call :
      (session : String) (r : StoredEvent) (rows : List StoredEvent)
      → r.payload.session_id ≡ session
      → r.payload.method ≡ "tools/call"
      → lines session (r ∷ rows) ≡ verdict unmarshal format p r ∷ lines session rows
  unfolding scan_session
  lines_call session r rows mine call =
      rw ((eq_iff r.payload.session_id session).1 mine)
        (rw ((eq_iff r.payload.method "tools/call").1 call) refl)

  -- In a replay against a policy without rate limits, each tool call that the gateway recorded in
  -- the session has its line, among those of the rows before and after it; the line says unchanged
  -- exactly when the policy decides the call of the event as was recorded, if the text of its
  -- arguments, where there are any, reads back.
  pub replay_policy_check-event_to_stored :
      (m : Marshal) (id prev hash : String) (e : Event) (before after : List StoredEvent)
      → Unlimited p.allow_rules
      → e.action ≡ "tools/call"
      → (is_empty e.arguments ≡ false → ReadsBack m unmarshal e.arguments)
      → (line : DiffLine) × (replayed e.session_id (before ++ row_of m id prev hash e ∷ after)
          ≡ replayed e.session_id before ++ line ∷ replayed e.session_id after)
        × ((line.tag ≡ "=") ↔ (
            (Loader.evaluate p (record { name = e.tool; arguments = e.arguments })).action
            ≡ e.decision))
  unfolding event_to_stored
  replay_policy_check-event_to_stored m id prev hash e before after free call codec =
      let r = row_of m id prev hash e in
      let shown : (rows : List StoredEvent) → replayed e.session_id rows ≡ lines e.session_id rows =
        λ rows. replay_policy_check-verdict lim unmarshal format p s clock e.session_id rows free in
      (
        verdict unmarshal format p r,
        shown (before ++ r ∷ after)
            ∙ lines-append e.session_id before (r ∷ after)
            ∙ ap (◌++◌ (lines e.session_id before)) (lines_call e.session_id r after refl call)
            ∙ ap (λ xs. xs ++ verdict unmarshal format p r ∷ lines e.session_id after)
                (sym (shown before))
            ∙ ap (λ ys. replayed e.session_id before ++ verdict unmarshal format p r ∷ ys)
                (sym (shown after)),
        event_to_stored-verdict_iff m unmarshal format p id "" "" prev hash e codec,
      )
