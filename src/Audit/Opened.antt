-- ===== src/Audit/Opened.antt =====
-- What the constructors of internal/audit make sure of.
use mcpshield.Prelude.{
  ℕ, ◌*◌, ◌≤◌, String, true, false, not, ◌||◌, none, some, [], if◌then◌else◌, ◌==◌, ℤ, pos, is_pos,
  ok, ◌>>=◌, Ensures, ensure, ensure_ok, ensure_any, ensure_err, ◌≡◌, ◌≢◌, refl, subst, arith,
  Bool-cases, inl, inr, if-elim, eq_iff,
}
use mcpshield.Config.{AuditConfig}
use mcpshield.Audit.Hashing.{stored_last_hash}
use mcpshield.Audit.Logger.{unknown, parse_sqlite_write_mode}
use mcpshield.Audit.Console.{new_stdout_logger}
use mcpshield.Audit.Open.{
  Environment, InitError, unknown_mode, path_required, unknown_backend, RetentionConfig, Opened,
  AuditLog, noop, stdout, sqlite, days, day, size_or_default, new_sqlite_store, new_sqlite_logger,
  new_logger, parse_retention_config, or_error,
}

-- A retention of up to 106751 days is its number of nanoseconds, past or future.
days-exact : (n : ℕ) → n ≤ 106_751 → (days (pos n) ≡ pos (n * day))
unfolding days
days-exact n h = ground arith

-- From 106752 days on, up to twice as many, the product wraps around to a negative duration.
days-wraps : (n : ℕ) → 106_752 ≤ n → n ≤ 213_503 → is_pos (days (pos n)) ≡ false
unfolding days
days-wraps n low high = ground arith

module _ (env : Environment) where
  -- A logger that was just started.
  pub record IsStarted (o : Opened) : Type 0 where
    pub batch_max : 1 ≤ o.running.batch_max
    pub channel_size : 1 ≤ o.running.logger.channel_size
    pub mode : o.running.logger.mode ≢ unknown
    pub queue : o.running.logger.queue ≡ []
    pub batch : o.running.batch ≡ []
    pub healthy : o.running.logger.db_failed ≡ false
    pub tip : o.running.logger.last_hash ≡ stored_last_hash o.running.logger.rows
    pub retention :
        (rc : RetentionConfig) → o.retention ≡ some rc → is_pos rc.vacuum_interval ≡ true

  size_or_default-pos : (z : ℤ) (def : ℕ) → 1 ≤ def → 1 ≤ size_or_default env z def
  size_or_default-pos z def h = ground arith

  parse_mode-known :
      (s : String)
      → Ensures {E = InitError}
          (λ m. m ≢ unknown)
          (or_error unknown_mode (parse_sqlite_write_mode s))
  unfolding parse_sqlite_write_mode
  parse_mode-known s = record { holds = λ m h. λ same. ground (arith, h, same) }

  retention-pos :
      (rc c : RetentionConfig)
      → (if is_pos rc.vacuum_interval then some rc else none) ≡ some c
      → is_pos c.vacuum_interval ≡ true
  retention-pos rc c h = elim (Bool-cases (is_pos rc.vacuum_interval)) [
    | inl positive ↦
        let same : rc ≡ c = ground (arith, h, positive) in
        subst (λ (r : RetentionConfig). is_pos r.vacuum_interval ≡ true) same positive
    | inr other ↦ absurd (ground (arith, h, other))
  ]

  new_sqlite_logger-IsStarted : (cfg : AuditConfig) → Ensures IsStarted (new_sqlite_logger env cfg)
  unfolding new_sqlite_logger
  new_sqlite_logger-IsStarted cfg = ensure (ensure_any (new_sqlite_store env cfg.sqlite)) λ rows _.
      ensure (parse_mode-known cfg.write.mode) λ mode known.
        ensure (ensure_any (parse_retention_config env cfg.retention)) λ rc _. ensure_ok (record {
          batch_max = size_or_default-pos cfg.write.batch_max_events 256 (omega arith);
          channel_size = size_or_default-pos cfg.write.channel_size 4096 (omega arith);
          mode = known;
          queue = refl;
          batch = refl;
          healthy = refl;
          tip = refl;
          retention = retention-pos rc;
        })

  -- What a logger of `NewLogger` says of the configuration, and how it starts.
  abbrev pub LogOf : AuditConfig → AuditLog → Type 0
  LogOf cfg noop = cfg.enabled ≡ false
  LogOf cfg (stdout l) = (cfg.enabled ≡ true) × (cfg.backend ≡ "stdout") × (l ≡ new_stdout_logger)
  LogOf cfg (sqlite o) = (cfg.enabled ≡ true) × ((cfg.sqlite.path == "") ≡ false) × IsStarted o

  sqlite-LogOf :
      (cfg : AuditConfig)
      → cfg.enabled ≡ true
      → (cfg.sqlite.path == "") ≡ false
      → Ensures (LogOf cfg) (new_sqlite_logger env cfg >>= λ o. ok (sqlite o))
  sqlite-LogOf cfg on path =
      ensure (new_sqlite_logger-IsStarted cfg) λ o started. ensure_ok (on, path, started)

  new_logger-Ensures : (cfg : AuditConfig) → Ensures (LogOf cfg) (new_logger env cfg)
  unfolding new_logger
  new_logger-Ensures cfg =
      if-elim (Ensures (LogOf cfg)) (not cfg.enabled) (λ off. ensure_ok (ground (arith, off)))
        λ on.
          if-elim (Ensures (LogOf cfg)) (cfg.backend == "stdout")
            (λ asked. ensure_ok (ground (arith, on), (eq_iff cfg.backend "stdout").0 asked, refl))
            λ _.
              if-elim (Ensures (LogOf cfg)) (cfg.backend == "sqlite" || cfg.backend == "")
                (λ _.
                  if-elim (Ensures (LogOf cfg)) (cfg.sqlite.path == "")
                    (λ _. ensure_err path_required)
                    λ path. sqlite-LogOf cfg (ground (arith, on)) path)
                (λ _. ensure_err unknown_backend)

  -- `NewLogger` gives the logger that keeps nothing only if auditing is off, the stdout logger only
  -- on request, and otherwise a SQLite logger on a path that is given: nothing waits in it, its
  -- channel and batch have room, its mode is known, its tip is the last hash of the table, and a
  -- retention has a positive interval.
  new_logger-LogOf :
      (cfg : AuditConfig) (log : AuditLog) → new_logger env cfg ≡ ok log → LogOf cfg log
  new_logger-LogOf cfg log opened = (new_logger-Ensures cfg).holds log opened
