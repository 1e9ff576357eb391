-- ===== src/Logger.antt =====
-- pkg/logger: writers into files and to a remote server, and the writer that cmd/app makes of them.
pub mod Fanout
use clean_architect.Common.Int.{ℤ, to_word64}
use clean_architect.Errs.{GoError, text_error}
use clean_architect.Common.{
  ℕ, ◌/◌, ◌%◌, ◌^◌, Bool, Option, none, some, List, [], ◌∷◌, ◌++◌, nat_beq, if◌then◌else◌, ◌==◌,
  nat_eq, length, Text, txt, text_eq, decimal,
}

-- io.Writer over a state: the number of bytes that were taken, and the error.
abbrev pub Writer : Type 0 → Type 0
Writer S = Text → S → (ℕ × Option GoError) × S

-- type FileLoggerType uint8, with constants from iota.
abbrev pub log_none : ℕ
log_none = 0

abbrev pub file_log_mono : ℕ
file_log_mono = 1

abbrev pub file_log_hourly : ℕ
file_log_hourly = 2

abbrev pub file_log_daily : ℕ
file_log_daily = 3

-- The local date and hour.
pub record Clock : Type 0 where
  pub year : ℕ
  pub month : ℕ
  pub day : ℕ
  pub hour : ℕ

-- Packages os and net/http over a state: `dir_of` is filepath.Dir, `missing` says that os.Stat answers
-- os.ErrNotExist, `open_file` opens a file for appending, and `post` is the goroutine of http.Post.
pub record Outside (S : Type 0) : Type 0 where
  pub dir_of : Text → Text
  pub missing : Text → S → Bool
  pub mkdir_all : Text → S → Option GoError × S
  pub open_file : Text → S → Option GoError × S
  pub write_file : Text → Writer S
  pub post : Text → Text → S → S
  pub stdout : Writer S

-- config.logger
pub record LoggerSettings : Type 0 where
  pub log_level : ℤ
  pub directory_path : Text
  pub file_creation_mode_type : ℤ
  pub remote_address_url : Text
  pub console_printer : Bool

module _ {S : Type 0} (os : Outside S) where
  abbrev opened : Text → Option GoError × S → Option GoError × S
  opened path (some err, s) = (some err, s)
  opened path (none, s) = os.open_file path s

  -- openLogFile
  unfoldable pub open_log_file : Text → S → Option GoError × S
  open_log_file path s =
      if os.missing (os.dir_of path) s
      then opened path (os.mkdir_all (os.dir_of path) s)
      else os.open_file path s

  abbrev written : Text → Text → Option GoError × S → (ℕ × Option GoError) × S
  written path p (some err, s) = ((0, some err), s)
  written path p (none, s) = os.write_file path p s

  unfoldable pub write_to : Text → Writer S
  unfolding open_log_file
  write_to path p s = written path p (open_log_file path s)

  abbrev below : Text → ℕ → Text
  unfolding decimal
  below path n = path ++ (txt "/" ++ decimal n)

  -- The switch of Write: `none` for no file and for an undefined type.
  unfoldable pub log_file_name : ℕ → Text → Clock → Option Text
  unfolding decimal
  log_file_name logger_type directory now =
      let daily = below (below (below directory now.year) now.month) now.day in
      if logger_type == file_log_hourly
      then some (below daily now.hour ++ txt ".log")
      else if logger_type == file_log_daily
      then some (daily ++ txt ".log")
      else if logger_type == file_log_mono
      then some (directory ++ txt "/log.log")
      else none

  -- Write of a fileLogger, at a time whose hour does not change between the two calls of time.Now.
  unfoldable pub file_write : ℕ → Text → Clock → Writer S
  unfolding log_file_name write_to
  file_write logger_type directory now p s =
      if logger_type == log_none
      then ((0, none), s)
      else elim (log_file_name logger_type directory now) [
        | some path ↦ write_to path p s
        | none ↦ ((0, some (text_error (txt "invalid logger type"))), s)
      ]

  -- Write of a remoteLogger
  unfoldable pub remote_write : Text → Writer S
  remote_write url p s = ((0, none), os.post url p s)

  -- After one writer: an error or a short write ends the loop.
  unfoldable pub continued :
      ℕ → (ℕ × Option GoError) × S → (ℕ × Option GoError) × S → (ℕ × Option GoError) × S
  continued all ((n, some err), s) rest = ((n, some err), s)
  continued all ((n, none), s) rest =
      if nat_beq n all then rest else ((n, some (text_error (txt "short write"))), s)

  -- io.MultiWriter
  unfoldable pub multi_write : List (Writer S) → Writer S
  unfolding continued
  multi_write [] p s = ((length p, none), s)
  multi_write (writer ∷ writers) p s =
      continued (length p) (writer p s) (multi_write writers p (writer p s).1)

  -- logWriter; a conversion to FileLoggerType keeps the last byte of the int.
  unfoldable pub file_type : LoggerSettings → ℕ
  unfolding to_word64
  file_type cfg = to_word64 cfg.file_creation_mode_type % 2 ^ 8

  unfoldable file_writers : LoggerSettings → Clock → List (Writer S)
  unfolding file_type file_write
  file_writers cfg now =
      if cfg.directory_path == []
      then []
      else file_write (file_type cfg) cfg.directory_path now ∷ []

  unfoldable remote_writers : LoggerSettings → List (Writer S)
  unfolding remote_write
  remote_writers cfg =
      if cfg.remote_address_url == [] then [] else remote_write cfg.remote_address_url ∷ []

  unfoldable log_writers : LoggerSettings → Clock → List (Writer S)
  unfolding file_writers remote_writers
  log_writers cfg now =
      (if cfg.console_printer then os.stdout ∷ [] else [])
      ++ (file_writers cfg now ++ remote_writers cfg)

  abbrev pub fanned : List (Writer S) → Writer S
  unfolding multi_write
  fanned [] p s = ((length p, none), s)
  fanned (writer ∷ writers) p s = multi_write (writer ∷ writers) p s

  unfoldable pub log_writer : LoggerSettings → Clock → Writer S
  unfolding log_writers multi_write
  log_writer cfg now p s = fanned (log_writers cfg now) p s
