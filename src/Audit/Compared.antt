-- ===== src/Audit/Compared.antt =====
-- What the replay of internal/audit/replay.go compares.
use mcpshield.Prelude.{
  ℕ, suc, String, Bool, not, none, some, List, [], ◌∷◌, map, ◌==◌, ◌≡◌, refl, ap, ◌∙◌, arith, All,
  Bool-cases, if-elim, inl, inr,
}
use mcpshield.Mcp.{Object, ToolsCallRequest}
use mcpshield.Policy.Loader.{CompiledPolicy, CompiledRule, Decision}
use mcpshield.Policy.Loader
use mcpshield.Policy.RateLimit.{Limiter}
use mcpshield.Policy.Engine.{Engine, yaml_engine, evaluate, evaluate_loaded, limit_scan}
use mcpshield.Audit.Hashing.{StoredEvent}
use mcpshield.Audit.Replay.{
  DiffLine, diff_line, recorded_call, filter, scan_session, replay_rows, replay_policy_check,
}

-- No rule limits the rate.
abbrev pub Unlimited : List CompiledRule → Type 0
Unlimited = All (λ r. r.rate_limit ≡ none)

-- A row of a tool call.
abbrev pub is_call : StoredEvent → Bool
is_call e = e.payload.method == "tools/call"

-- What the policy says of a recorded call, against what was recorded.
abbrev pub verdict : (String → Object) → (ℕ → String) → CompiledPolicy → StoredEvent → DiffLine
verdict unmarshal format p e =
    diff_line format e.payload (Loader.evaluate p (recorded_call unmarshal e.payload))

module _ {L : Type 0} (lim : Limiter L) where
  limit_scan-Unlimited :
      (rs : List CompiledRule) (client : String) (now : ℕ) (call : ToolsCallRequest) (d : Decision)
      (s : L)
      → Unlimited rs
      → limit_scan lim rs client now call d s ≡ (d, s)
  unfolding limit_scan
  limit_scan-Unlimited [] client now call d s h = refl
  limit_scan-Unlimited (r ∷ rs) client now call d s (none_, h) =
      let rest = limit_scan-Unlimited rs client now call d s h in ground (arith, none_, rest)

  -- without rate limits the engine gives the policy's decision and stays as it is
  evaluate-Unlimited :
      (p : CompiledPolicy) (s : L) (client : String) (now : ℕ) (call : ToolsCallRequest)
      → Unlimited p.allow_rules
      → evaluate lim (record { policy = some p; limiter = s }) client now call
        ≡ (Loader.evaluate p call, record { policy = some p; limiter = s })
  unfolding evaluate evaluate_loaded
  evaluate-Unlimited p s client now call h =
      let scanned =
        limit_scan-Unlimited p.allow_rules client now call (Loader.evaluate p call) s h in
      if-elim
        (λ (x : Decision × Engine L).
          x ≡ (Loader.evaluate p call, record { policy = some p; limiter = s }))
        (not ((Loader.evaluate p call).action == "allow")) (λ _. refl)
        (λ _. ap (λ (o : Decision × L). (o.0, record { policy = some p; limiter = o.1 })) scanned)

  replay_rows-verdict :
      (unmarshal : String → Object) (format : ℕ → String) (p : CompiledPolicy) (s : L)
      → Unlimited p.allow_rules
      → (clock : ℕ → ℕ) (rows : List StoredEvent)
      → replay_rows
          (yaml_engine lim)
          unmarshal
          format
          clock
          rows
          (record { policy = some p; limiter = s })
        ≡ map (verdict unmarshal format p) (filter is_call rows)
  unfolding replay_rows
  replay_rows-verdict unmarshal format p s h clock [] = refl
  replay_rows-verdict unmarshal format p s h clock (e ∷ es) =
      let given =
        evaluate-Unlimited p s e.payload.client_id (clock 0) (recorded_call unmarshal e.payload)
          h in
      elim (Bool-cases (is_call e)) [
        | inr other ↦ rw other (replay_rows-verdict unmarshal format p s h clock es)
        | inl call ↦ rw call (
            ap
              (λ (o : Decision × Engine L).
                diff_line format e.payload o.0
                ∷ replay_rows (yaml_engine lim) unmarshal format (λ n. clock (suc n)) es o.1)
              given
            ∙ ap (◌∷◌ (verdict unmarshal format p e))
                (replay_rows-verdict unmarshal format p s h (λ n. clock (suc n)) es))
      ]

  -- With a policy without rate limits, a replay prints one line for each recorded tool call of the
  -- session, in the order of the scan, and the line compares what was recorded with what the policy
  -- says of that call alone, whatever the clock and the calls before it.
  pub replay_policy_check-verdict :
      (unmarshal : String → Object) (format : ℕ → String) (p : CompiledPolicy) (s : L)
      (clock : ℕ → ℕ) (session : String) (rows : List StoredEvent)
      → Unlimited p.allow_rules
      → replay_policy_check
          (yaml_engine lim)
          unmarshal
          format
          clock
          session
          rows
          (record { policy = some p; limiter = s })
        ≡ map (verdict unmarshal format p) (filter is_call (scan_session session rows))
  unfolding replay_policy_check
  replay_policy_check-verdict unmarshal format p s clock session rows h =
      replay_rows-verdict unmarshal format p s h clock (scan_session session rows)
