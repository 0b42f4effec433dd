-- ===== src/Audit/OpenTests.antt =====
-- An environment with an empty database, and two configurations of the audit log.
use mcpshield.Prelude.{◌*◌, String, true, some, none, [], ◌≡◌, refl, is_pos, false, ok, err, pos}
use mcpshield.Config.{AuditConfig}
use mcpshield.Audit.Logger.{parse_sqlite_write_mode}
use mcpshield.Audit.Hashing.{hash_after}
use mcpshield.Audit.Open.{
  Environment, AuditLog, days, parse_duration, parse_units, parse_bytes, parse_retention_config,
  synchronous_level, set_wal, set_busy_timeout, new_sqlite_store, new_sqlite_logger, new_logger,
  unknown_mode,
}

abbrev empty_environment : Environment
empty_environment = record {
  parse_duration = λ s. none;
  atoi = λ s. some (pos 30);
  parse_int = λ s. none;
  scaled = λ s n. some (pos (3 * n));
  to_upper = λ s. s;
  trim_space = λ s. s;
  open_db = λ s. some [];
  exec = λ s. true;
}

abbrev sqlite_config : String → AuditConfig
sqlite_config mode = record {
  enabled = true;
  backend = "";
  sqlite = record { path = "audit.db"; wal = true; busy_timeout = ""; synchronous = "NORMAL" };
  write = record {
    batch_max_events = pos 0;
    batch_max_delay = "";
    channel_size = pos 8;
    mode = mode;
  };
  retention = record { max_age = "30d"; max_size = "3GB"; vacuum_interval = "" };
  hash_chain = true;
}

three_gigabytes : parse_bytes empty_environment "3GB" ≡ some (pos 3_221_225_472)
unfolding parse_bytes parse_units
three_gigabytes = refl

mode_refused : new_logger empty_environment (sqlite_config "fast") ≡ err unknown_mode
unfolding new_logger new_sqlite_logger new_sqlite_store set_wal synchronous_level set_busy_timeout
    parse_sqlite_write_mode
mode_refused = refl

opened : (log : AuditLog) × (new_logger empty_environment (sqlite_config "fail_closed") ≡ ok log)
unfolding new_logger new_sqlite_logger new_sqlite_store set_wal synchronous_level set_busy_timeout
    parse_sqlite_write_mode parse_retention_config parse_duration days parse_bytes parse_units
    hash_after
opened = (_, refl)

-- 120000 days
long_age_wraps : is_pos (days (pos 120_000)) ≡ false
unfolding days
long_age_wraps = refl
