-- ===== src/Log/Bounded.antt =====
-- The log file stays bounded.
use bo_atom.Prelude.{
  ℕ, ◌+◌, ◌≤◌, Bool, Option, none, some, List, [], ◌∷◌, ◌++◌, ltb, leb, length, arith, tests,
  Bool-cases, inl, inr, length-append, ltb_false→le,
}
use bo_atom.Log.{LogLevel, rank, Log, log_file_max_size, opened, save_log, server_log}

-- one call of server_log
pub record Entry : Type 0 where
  pub level : LogLevel
  pub time : List ℕ
  pub text : List ℕ
  pub can_open : Bool

abbrev pub log_all : List Entry → Log → Log
log_all [] l = l
log_all (e ∷ es) l = log_all es (server_log e.level e.time e.text e.can_open l)

-- No entry is longer than `n` bytes.
abbrev pub AllShort : ℕ → List Entry → Type 0
AllShort n [] = Unit
AllShort n (e ∷ es) = (length e.time + length e.text ≤ n) × AllShort n es

abbrev pub size : Option (List ℕ) → ℕ
size none = 0
size (some f) = length f

opened-max : (f : Option (List ℕ)) → length (opened f) ≤ log_file_max_size
unfolding opened
opened-max none = omega arith
opened-max (some f) = elim (Bool-cases (ltb log_file_max_size (length f))) [
  | inl big ↦ rw big (omega arith)
  | inr small ↦ rw small (omega (tests, ltb_false→le log_file_max_size (length f) small))
]

server_log-size :
    (e : Entry) (n : ℕ) (l : Log)
    → length e.time + length e.text ≤ n
    → size l.file ≤ log_file_max_size + n
    → size (server_log e.level e.time e.text e.can_open l).file ≤ log_file_max_size + n
unfolding server_log save_log
server_log-size e n l short h = elim (Bool-cases (leb (rank l.global_log_level) (rank e.level))) [
  | inr quiet ↦ rw quiet h
  | inl loud ↦ elim (Bool-cases e.can_open) [
    | inr fails ↦ rw (loud, fails) h
    | inl opens ↦
        rw (loud, opens)
          (omega (
            arith,
            opened-max l.file,
            length-append (opened l.file) e.time,
            length-append (opened l.file ++ e.time) e.text,
          ))
  ]
]

-- If no entry is longer than `n` bytes and the file is at most `n` bytes above LOG_FILE_MAX_SIZE, then it
-- stays so through any sequence of calls of server_log, at any levels and with or without
-- failures to open the file.
pub log_all-size :
    (es : List Entry) (n : ℕ) (l : Log)
    → AllShort n es
    → size l.file ≤ log_file_max_size + n
    → size (log_all es l).file ≤ log_file_max_size + n
log_all-size [] n l short h = h
log_all-size (e ∷ es) n l short h =
    log_all-size es n (server_log e.level e.time e.text e.can_open l) short.1
      (server_log-size e n l short.0 h)
