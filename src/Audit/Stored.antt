-- ===== src/Audit/Stored.antt =====
-- internal/audit/logger.go: `eventToStored`, from the gateway's event to the columns of a row, and
-- what a replay finds in them.
use mcpshield.Prelude.{
  ℕ, ◌/◌, String, true, false, not, Option, none, some, [], if◌then◌else◌, ◌==◌, is_empty, ◌≡◌, ◌≢◌,
  refl, sym, ap, ◌∙◌, subst, arith, eq_iff, Bool-cases, inl, inr, ◌↔◌, ◌∷◌,
}
use mcpshield.Mcp.{Json, Object}
use mcpshield.Policy.Loader.{CompiledPolicy}
use mcpshield.Policy.Loader
use mcpshield.Gateway.{Event, Payload, Failure}
use mcpshield.Audit.Hashing.{CanonicalPayload}
use mcpshield.Audit.Compared.{verdict}

-- encoding/json: a `none` is an error. `raw` is the text of a request id, `fallback` that of the
-- error that is recorded when an error does not marshal.
pub record Marshal : Type 0 where
  pub arguments : Object → Option String
  pub response : Payload → Option String
  pub failure : Failure → Option String
  pub fallback : Option String
  pub raw : Option Json → String

abbrev pub or_empty : Option String → String
or_empty none = ""
or_empty (some s) = s

abbrev pub or_else : Option String → Option String → Option String
or_else none o = o
or_else (some s) o = some s

abbrev pub response_json : Marshal → Option Payload → String
response_json m none = ""
response_json m (some p) = or_empty (m.response p)

abbrev pub error_json : Marshal → Option Failure → String
error_json m none = ""
error_json m (some f) = or_empty (or_else (m.failure f) m.fallback)

abbrev pub arguments_json : Marshal → Object → String
arguments_json m args = if is_empty args then "" else or_empty (m.arguments args)

-- `eventToStored` of an event with its id and its trace
unfoldable pub event_to_stored : Marshal → String → String → String → Event → CanonicalPayload
event_to_stored m event_id trace_id span_id e = record {
  event_id = event_id;
  ts_unix_nano = e.timestamp;
  trace_id = trace_id;
  span_id = span_id;
  session_id = e.session_id;
  request_id = m.raw e.request_id;
  client_id = e.client_id;
  method = e.action;
  tool_name = e.tool;
  upstream_id = e.upstream_id;
  decision = e.decision;
  policy_rule = e.policy_rule;
  reason = e.reason;
  arguments_json = arguments_json m e.arguments;
  response_json = response_json m e.response;
  error_json = error_json m e.failure;
  duration_us = e.duration / 1_000;
}

-- The text of the arguments reads as the arguments, and is not empty.
pub record ReadsBack (m : Marshal) (unmarshal : String → Object) (args : Object) : Type 0 where
  pub text : String
  pub written : m.arguments args ≡ some text
  pub not_empty : text ≢ ""
  pub read : unmarshal text ≡ args

-- what a replay makes of a text of arguments
abbrev decoded : (String → Object) → String → Object
decoded unmarshal text = if not (text == "") then unmarshal text else []

decoded-arguments_json :
    (m : Marshal) (unmarshal : String → Object) (args : Object)
    → (is_empty args ≡ false → ReadsBack m unmarshal args)
    → decoded unmarshal (arguments_json m args) ≡ args
decoded-arguments_json m unmarshal [] codec = refl
decoded-arguments_json m unmarshal (a ∷ args) codec =
    let r = codec refl in
    ap (λ o. decoded unmarshal (or_empty o)) r.written ∙ elim (Bool-cases (r.text == "")) [
      | inl empty ↦ absurd (r.not_empty ((eq_iff r.text "").0 empty))
      | inr other ↦ rw other r.read
    ]

changed : ◌≢◌ {A = String} "CHANGED" "="
changed h = let e : false ≡ true = (eq_iff "CHANGED" "=").1 h in ground (arith, e)

tag_iff :
    (now old : String)
    → (◌≡◌ {A = String} (if not (now == old) then "CHANGED" else "=") "=") ↔ (now ≡ old)
tag_iff now old = elim (Bool-cases (now == old)) [
  | inl same ↦ rw same (λ _. (eq_iff now old).0 same, λ _. refl)
  | inr other ↦ (
    λ h.
        absurd
          (changed (subst (λ b. ◌≡◌ {A = String} (if not b then "CHANGED" else "=") "=") other h)),
    λ h. absurd (ground (arith, other, (eq_iff now old).1 h)),
  )
]

-- The line for the row of an event is unchanged exactly when the policy's decision on the call of the
-- event is the one that was recorded, if the text of its arguments reads back.
pub event_to_stored-verdict_iff :
    (m : Marshal) (unmarshal : String → Object) (format : ℕ → String) (p : CompiledPolicy)
    (id trace span prev hash : String) (e : Event)
    → (is_empty e.arguments ≡ false → ReadsBack m unmarshal e.arguments)
    → ((verdict unmarshal format p (record {
      payload = event_to_stored m id trace span e;
      prev_hash = prev;
      event_hash = hash;
    })).tag
        ≡ "=")
      ↔ ((Loader.evaluate p (record { name = e.tool; arguments = e.arguments })).action
          ≡ e.decision)
unfolding event_to_stored
event_to_stored-verdict_iff m unmarshal format p id trace span prev hash e codec =
    subst
      (λ (args : Object).
        (◌≡◌ {A = String}
          (if not (
              (Loader.evaluate p (record { name = e.tool; arguments = args })).action == e.decision)
            then "CHANGED"
            else "=")
          "=")
        ↔ ((Loader.evaluate p (record { name = e.tool; arguments = e.arguments })).action
            ≡ e.decision))
      (sym (decoded-arguments_json m unmarshal e.arguments codec))
      (tag_iff (Loader.evaluate p (record { name = e.tool; arguments = e.arguments })).action
        e.decision)
