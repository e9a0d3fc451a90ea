-- ===== src/Log.antt =====
-- log/log.c and log/log.h: init_log_level, server_log, save_log.
pub mod Bounded
use bo_atom.Prelude.{
  ℕ, Bool, true, false, Option, none, some, List, [], ◌∷◌, ◌++◌, ltb, leb, if◌then◌else◌, length,
}

-- LOG_LEVEL
pub data LogLevel : Type 0 where
  log_notice log_alert log_error : LogLevel

abbrev pub rank : LogLevel → ℕ
rank log_notice = 0
rank log_alert = 1
rank log_error = 2

-- LOG_FILE_MAX_SIZE, 512 * 1024
abbrev pub log_file_max_size : ℕ
log_file_max_size = 524288

-- The level that is set, and the log file, none where there is no file.
pub record Log : Type 0 where
  pub global_log_level : LogLevel
  pub file : Option (List ℕ)

unfoldable pub init_log_level : LogLevel → Log → Log
init_log_level level l = record l { global_log_level = level }

-- What is in the file once it is opened: nothing after mode "w", and all after "a+".
unfoldable pub opened : Option (List ℕ) → List ℕ
opened none = []
opened (some old) = if ltb log_file_max_size (length old) then [] else old

-- save_log, with the text of the time and of the message, and whether fopen succeeds; 0 or -1
unfoldable pub save_log : Log → List ℕ → List ℕ → Bool → Log × Bool
unfolding opened
save_log l time text can_open =
    if can_open
    then (record l { file = some (opened l.file ++ time ++ text) }, true)
    else (l, false)

-- server_log
unfoldable pub server_log : LogLevel → List ℕ → List ℕ → Bool → Log → Log
unfolding save_log
server_log level time text can_open l =
    if leb (rank l.global_log_level) (rank level) then (save_log l time text can_open).0 else l
