-- ===== src/Logger.antt =====
-- src/logging/logger.cpp and include/cpp_chat/logging/logger.h: the lines of the console and the
-- table `server_logs`. What it writes to standard error about the database is left out; the time of
-- a line is an argument.
use cpp_chat.Base.{Bool, not, List, [], ◌∷◌, ◌++◌, if◌then◌else◌, Bytes, codes}
use cpp_chat.Storage.Statements.{
  text, Server, Client, Outcome, unprepared, refused, executed, Access, in_memory, unavailable,
  available, mysql_stmt_close, run_statement, execute_query,
}

pub data LogLevel : Type 0 where
  info warn error : LogLevel

unfoldable pub level_to_string : LogLevel → Bytes
level_to_string LogLevel.info = codes "INFO"
level_to_string LogLevel.warn = codes "WARN"
level_to_string LogLevel.error = codes "ERROR"

-- `current_timestamp()` is the first argument.
unfoldable pub log_line : Bytes → LogLevel → Bytes → Bytes
unfolding level_to_string
log_line now level message = now ++ (codes " [" ++ level_to_string level ++ codes "] " ++ message)

unfoldable pub create_log_table : Bytes
create_log_table =
    codes "CREATE TABLE IF NOT EXISTS server_logs ("
    ++ codes "id BIGINT UNSIGNED NOT NULL AUTO_INCREMENT PRIMARY KEY,"
    ++ codes "created_at TIMESTAMP NOT NULL DEFAULT CURRENT_TIMESTAMP,"
    ++ codes "level VARCHAR(16) NOT NULL,"
    ++ codes "message TEXT NOT NULL"
    ++ codes ") ENGINE=InnoDB DEFAULT CHARSET=utf8mb4"

unfoldable pub log_query : Bytes
log_query = codes "INSERT INTO server_logs (level, message) VALUES (?, ?)"

-- The end of `write`, behind the statement.
unfoldable pub after_log : {D : Type 0} → Client D × Outcome → Client D
unfolding mysql_stmt_close
after_log (c, unprepared) = c
after_log (c, refused error_number) = c
after_log (c, executed reply) = mysql_stmt_close c

-- The lines of the console, and the database.
pub record Log (D : Type 0) : Type 0 where
  pub console : List Bytes
  pub client : Client D

module _ {D : Type 0} (server : Server D) where
  -- The constructor with a pool.
  unfoldable pub open_logger : Bool → Client D → Client D
  unfolding execute_query
  open_logger acquired c = if not acquired then c else (execute_query server create_log_table c).0

  unfoldable pub insert_log : Access → Client D → LogLevel → Bytes → Client D
  unfolding after_log run_statement level_to_string
  insert_log in_memory c level message = c
  insert_log unavailable c level message = c
  insert_log available c level message =
      after_log
        (run_statement server log_query (text (level_to_string level) ∷ text message ∷ []) c)

  unfoldable pub write : Access → Bytes → Log D → LogLevel → Bytes → Log D
  unfolding log_line insert_log
  write access now log level message = record {
    console = log.console ++ log_line now level message ∷ [];
    client = insert_log access log.client level message;
  }
