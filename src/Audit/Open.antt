-- ===== src/Audit/Open.antt =====
-- internal/audit: `NewLogger`, `NewSQLiteAuditLogger`, `NewSQLiteStore` and the parsers of the
-- retention's settings. What the standard library and SQLite do is in `Environment`.
use Prim.Native.Nat.{◌%◌}
use Prim.Native.String
use mcpshield.Prelude.{
  ℕ, ◌+◌, ◌-◌, ◌*◌, String, len, Bool, false, not, ◌&&◌, ◌||◌, Option, none, some, List, [], ◌∷◌,
  ltb, leb, if◌then◌else◌, ◌==◌, ℤ, pos, negsuc, is_pos, pos_part, Result, ok, err, ◌>>=◌,
}
use mcpshield.Config.{AuditConfig, AuditSqliteConfig, AuditRetentionConfig}
use mcpshield.Audit.Console.{StdoutLogger, new_stdout_logger}
use mcpshield.Audit.Hashing.{StoredEvent, stored_last_hash}
use mcpshield.Audit.Logger.{parse_sqlite_write_mode}
use mcpshield.Audit.Loop.{Running}

-- A `none` is an error. `scaled` is the number in a text times the second argument, by
-- `strconv.ParseFloat` and float64 arithmetic; `open_db` gives the rows of the file at a path,
-- `exec` whether the database takes a statement.
pub record Environment : Type 0 where
  pub parse_duration : String → Option ℤ
  pub atoi : String → Option ℤ
  pub parse_int : String → Option ℤ
  pub scaled : String → ℕ → Option ℤ
  pub to_upper : String → String
  pub trim_space : String → String
  pub open_db : String → Option (List StoredEvent)
  pub exec : String → Bool

pub data InitError : Type 0 where
  path_required open_failed bad_synchronous bad_busy_timeout : InitError
  unknown_mode unknown_backend bad_max_age bad_max_size bad_vacuum_interval : InitError
  exec_failed : String → InitError

-- `retentionCfg`
pub record RetentionConfig : Type 0 where
  pub max_age : ℤ
  pub max_size_bytes : ℤ
  pub vacuum_interval : ℤ

-- A started SQLite logger: the state of the logger and of its loop, the ticks, the retention.
pub record Opened : Type 0 where
  pub running : Running
  pub batch_max_delay : ℤ
  pub retention : Option RetentionConfig

-- What `NewLogger` returns.
pub data AuditLog : Type 0 where
  noop : AuditLog
  stdout : StdoutLogger → AuditLog
  sqlite : Opened → AuditLog

-- nanoseconds of a day
abbrev pub day : ℕ
day = 86_400_000_000_000

-- the int64 with the bit pattern `n`, for `n` below 2 ^ 64
abbrev pub of_bits : ℕ → ℤ
of_bits n =
    if ltb n 9_223_372_036_854_775_808 then pos n else negsuc (18_446_744_073_709_551_615 - n)

-- the int64 that a number or its negation wraps around to
abbrev pub wrap : ℕ → ℤ
wrap n = of_bits (n % 18_446_744_073_709_551_616)

abbrev pub wrap_negated : ℕ → ℤ
wrap_negated n =
    of_bits
      ((18_446_744_073_709_551_616 - n % 18_446_744_073_709_551_616) % 18_446_744_073_709_551_616)

-- `time.Duration(n) * 24 * time.Hour`
unfoldable pub days : ℤ → ℤ
days (pos n) = wrap (n * day)
days (negsuc n) = wrap_negated ((n + 1) * day)

-- `strings.HasSuffix` with `strings.TrimSuffix`
abbrev pub cut_suffix : String → String → Option String
cut_suffix s p =
    if leb (len p) (len s) && (String.slice s (len s - len p) (len s) == p)
    then some (String.slice s 0 (len s - len p))
    else none

abbrev pub or_error {ℓ κ} : {E : Type ℓ} {A : Type κ} → E → Option A → Result E A
or_error e none = err e
or_error e (some a) = ok a

-- the units of `parseBytes`, in its order
abbrev pub units : List (String × ℕ)
units = ("TB", 1_099_511_627_776) ∷ ("GB", 1_073_741_824) ∷ ("MB", 1_048_576) ∷ ("KB", 1_024) ∷ []

module _ (env : Environment) where
  -- `parseDuration`
  unfoldable pub parse_duration : String → Option ℤ
  unfolding days
  parse_duration s = elim (cut_suffix s "d") [
    | none ↦ env.parse_duration s
    | some digits ↦ elim (env.atoi digits) [ none ↦ none | some n ↦ some (days n) ]
  ]

  -- the loop of `parseBytes` and what follows it
  unfoldable pub parse_units : List (String × ℕ) → String → String → Option ℤ
  parse_units [] upper s = env.parse_int (env.trim_space s)
  parse_units ((suffix, factor) ∷ rest) upper s =
      let later = parse_units rest upper s in
      elim (cut_suffix upper suffix) [ none ↦ later | some number ↦ env.scaled number factor ]

  -- `parseBytes`
  unfoldable pub parse_bytes : String → Option ℤ
  unfolding parse_units
  parse_bytes s = parse_units units (env.to_upper (env.trim_space s)) s

  -- the parser of one setting of the retention, which is zero where it is not set
  abbrev pub parse_setting : (String → Option ℤ) → InitError → String → Result InitError ℤ
  parse_setting parse e s = if s == "" then ok (pos 0) else or_error e (parse s)

  -- `parseRetentionConfig`
  unfoldable pub parse_retention_config : AuditRetentionConfig → Result InitError RetentionConfig
  parse_retention_config cfg = do
    age ← parse_setting parse_duration bad_max_age cfg.max_age
    size ← parse_setting parse_bytes bad_max_size cfg.max_size
    interval ←
        if cfg.vacuum_interval == ""
        then ok (if is_pos age || is_pos size then pos day else pos 0)
        else or_error bad_vacuum_interval (env.parse_duration cfg.vacuum_interval)
    ok (record { max_age = age; max_size_bytes = size; vacuum_interval = interval })

  -- `db.Exec`
  abbrev pub execute : String → Result InitError (Unit {0})
  execute statement = if env.exec statement then ok tt else err (exec_failed statement)

  -- the value of PRAGMA synchronous
  unfoldable pub synchronous_level : String → Result InitError String
  synchronous_level s =
      if s == ""
      then ok "FULL"
      else if env.to_upper s == "FULL" || env.to_upper s == "NORMAL" || env.to_upper s == "EXTRA"
      then ok (env.to_upper s)
      else err bad_synchronous

  unfoldable pub set_wal : AuditSqliteConfig → Result InitError (Unit {0})
  set_wal cfg = if not cfg.wal then ok tt else (do
    _ ← execute "PRAGMA journal_mode=WAL;"
    level ← synchronous_level cfg.synchronous
    execute (String.◌++◌ "PRAGMA synchronous=" (String.◌++◌ level ";")))

  -- the pragma's number is left out of the statement
  unfoldable pub set_busy_timeout : String → Result InitError (Unit {0})
  set_busy_timeout s =
      if s == ""
      then ok tt
      else (or_error bad_busy_timeout (env.parse_duration s) >>= λ d. execute "PRAGMA busy_timeout")

  abbrev path_given : String → Result InitError (Unit {0})
  path_given path = if path == "" then err path_required else ok tt

  -- `NewSQLiteStore`: the rows that the table has
  unfoldable pub new_sqlite_store : AuditSqliteConfig → Result InitError (List StoredEvent)
  new_sqlite_store cfg = do
    _ ← path_given cfg.path
    rows ← or_error open_failed (env.open_db cfg.path)
    _ ← set_wal cfg
    _ ← set_busy_timeout cfg.busy_timeout
    _ ← execute "CREATE TABLE"
    ok rows

  -- `batchDelay` of `NewSQLiteAuditLogger`
  abbrev pub batch_delay : String → ℤ
  batch_delay s =
      if s == ""
      then pos 100_000_000
      else (elim (env.parse_duration s) [ none ↦ pos 100_000_000 | some d ↦ d ])

  abbrev pub size_or_default : ℤ → ℕ → ℕ
  size_or_default z def = if is_pos z then pos_part z else def

  -- `NewSQLiteAuditLogger`
  unfoldable pub new_sqlite_logger : AuditConfig → Result InitError Opened
  new_sqlite_logger cfg = do
    rows ← new_sqlite_store cfg.sqlite
    mode ← or_error unknown_mode (parse_sqlite_write_mode cfg.write.mode)
    rc ← parse_retention_config cfg.retention
    ok (record {
      running = record {
        logger = record {
          rows = rows;
          last_hash = stored_last_hash rows;
          queue = [];
          channel_size = size_or_default cfg.write.channel_size 4096;
          mode = mode;
          hash_chain = cfg.hash_chain;
          dropped = 0;
          writes = 0;
          failures = 0;
          db_failed = false;
          metrics = none;
        };
        batch = [];
        batch_max = size_or_default cfg.write.batch_max_events 256;
      };
      batch_max_delay = batch_delay cfg.write.batch_max_delay;
      retention = if is_pos rc.vacuum_interval then some rc else none;
    })

  -- `NewLogger`
  unfoldable pub new_logger : AuditConfig → Result InitError AuditLog
  new_logger cfg =
      if not cfg.enabled
      then ok noop
      else if cfg.backend == "stdout"
      then ok (stdout new_stdout_logger)
      else if cfg.backend == "sqlite" || cfg.backend == ""
      then (if cfg.sqlite.path == ""
          then err path_required
          else (new_sqlite_logger cfg >>= λ o. ok (sqlite o)))
      else err unknown_backend
