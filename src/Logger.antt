-- ===== src/Logger.antt =====
-- codechiev/base/Logger.hpp and Logger.cpp: a line is put together in a buffer of 2048 bytes and
-- written when the logger is destroyed. boost makes the texts of numbers, which are arguments; the
-- time, the thread's name and its id are too. What a log statement writes to stdout is `none` where
-- `append` ends without a return value or `at` throws.
pub mod Lines
pub mod Chain
pub mod Full
use codechiev.Common.{
  ◌%◌, ◌/◌, ℕ, zero, suc, ◌+◌, ◌-◌, ◌≡◌, Bool, true, false, ◌||◌, Option, none, some, List, [], ◌∷◌,
  ◌++◌, length, take, drop, if◌then◌else◌, ltb, leb, ◌==◌, ℤ, pos, guard, ◌>>=◌, ◌>>◌,
}
use codechiev.Buffer
use codechiev.Buffer.{Buffer}
use codechiev.Buffer.Memory.{load}

pub data Level : Type 0 where
  trace debug info warn error : Level

abbrev pub rank : Level → ℕ
rank trace = 0
rank debug = 1
rank info = 2
rank warn = 3
rank error = 4

-- kLoggerLevels
abbrev pub level_name : Level → List ℕ
level_name trace = 116 ∷ 114 ∷ 97 ∷ 99 ∷ 101 ∷ []
level_name debug = 100 ∷ 101 ∷ 98 ∷ 117 ∷ 103 ∷ []
level_name info = 105 ∷ 110 ∷ 102 ∷ 111 ∷ []
level_name warn = 119 ∷ 97 ∷ 114 ∷ 110 ∷ []
level_name error = 101 ∷ 114 ∷ 114 ∷ 111 ∷ 114 ∷ []

-- gLevel, and the three bits of gDetail
pub record Config : Type 0 where
  pub level : Level
  pub detail_thread : Bool
  pub detail_file : Bool
  pub detail_func : Bool

-- initLoggerLevel and gDetail without the macros LoggerThread, LoggerFile, LoggerFunc and LoggerLevel.
unfoldable pub init : Config
init = record { level = info; detail_thread = false; detail_file = false; detail_func = false }

unfoldable pub set_logger_level : Level → Config → Config
set_logger_level lv config = record config { level = lv }

-- The three bits of the argument.
unfoldable pub set_logger_detail : ℕ → Config → Config
set_logger_detail detail config = record config {
  detail_thread = detail % 2 == 1;
  detail_file = detail / 2 % 2 == 1;
  detail_func = detail / 4 % 2 == 1;
}

abbrev pub buffer_size : ℕ
buffer_size = 2048

-- ": ", " file:", " line:", " func:", " thread:", " tid:", " ===" and "===\n"
abbrev pub colon : List ℕ
colon = 58 ∷ 32 ∷ []

abbrev pub file_label : List ℕ
file_label = 32 ∷ 102 ∷ 105 ∷ 108 ∷ 101 ∷ 58 ∷ []

abbrev pub line_label : List ℕ
line_label = 32 ∷ 108 ∷ 105 ∷ 110 ∷ 101 ∷ 58 ∷ []

abbrev pub func_label : List ℕ
func_label = 32 ∷ 102 ∷ 117 ∷ 110 ∷ 99 ∷ 58 ∷ []

abbrev pub thread_label : List ℕ
thread_label = 32 ∷ 116 ∷ 104 ∷ 114 ∷ 101 ∷ 97 ∷ 100 ∷ 58 ∷ []

abbrev pub tid_label : List ℕ
tid_label = 32 ∷ 116 ∷ 105 ∷ 100 ∷ 58 ∷ []

abbrev pub opening : List ℕ
opening = 32 ∷ 61 ∷ 61 ∷ 61 ∷ []

abbrev pub closing : List ℕ
closing = 61 ∷ 61 ∷ 61 ∷ 10 ∷ []

-- LOG_CHECK
unfoldable pub log_check : Level → Config → Bool
log_check lv config = leb (rank config.level) (rank lv)

-- operator<<(const char *); the other operators come to it with a text of theirs.
unfoldable pub put : List ℕ → Buffer → Option Buffer
put str b = do done ← Buffer.append_str buffer_size b (str ++ (0 ∷ [])); some done.1

-- A chain of operator<<.
unfoldable pub put_all : List (List ℕ) → Buffer → Option Buffer
put_all [] b = some b
put_all (str ∷ strs) b = do b' ← put str b; put_all strs b'

-- `time.at(time.size()-1)='\0'`: the text of the time has its last character cut off as a C string.
unfoldable pub cut_last : List ℕ → Option (List ℕ)
cut_last [] = none
cut_last (c ∷ cs) = some (take (length cs) (c ∷ cs) ++ (0 ∷ []))

-- `str.substr(str.find_last_of("/\\")+1)`
unfoldable pub base_name : List ℕ → List ℕ → List ℕ
base_name seen [] = seen
base_name seen (c ∷ cs) =
    if (c == 47) || (c == 92) then base_name [] cs else base_name (seen ++ (c ∷ [])) cs

-- Where a log statement stands, and what it asks the system.
pub record Site : Type 0 where
  pub file : List ℕ
  pub func : List ℕ
  pub line : ℤ
  pub time : List ℕ
  pub thread_name : List ℕ
  pub tid : ℤ

pub data Value (F : Type 0) : Type 0 where
  text : List ℕ → Value F
  number : ℤ → Value F
  float double : F → Value F

-- ~Logger(): what is written to stdout.
unfoldable pub finish : Buffer → Option (List ℕ)
finish b = do closed ← put closing b; n ← Buffer.readable closed; load closed.cells closed.reader n

module _ {F : Type 0} (cast : ℤ → List ℕ) (format format_f : F → List ℕ) where
  abbrev pub show : Value F → List ℕ
  show (text str) = str
  show (number val) = cast val
  show (float val) = format val
  show (double val) = format_f val

  unfoldable pub put_values : List (Value F) → Buffer → Option Buffer
  put_values [] b = some b
  put_values (v ∷ vs) b = do b' ← put (show v) b; put_values vs b'

  -- Logger()
  unfoldable pub begin : Config → Site → Level → Option Buffer
  begin config site lv = do
    named ← put (level_name lv) (Buffer.new buffer_size)
    time ← cut_last site.time
    timed ← put_all (colon ∷ time ∷ []) named
    filed ←
        if config.detail_file
        then put_all (file_label ∷ base_name [] site.file ∷ line_label ∷ cast site.line ∷ []) timed
        else some timed
    funced ← if config.detail_func then put_all (func_label ∷ site.func ∷ []) filed else some filed
    threaded ←
        if config.detail_thread
        then put_all (thread_label ∷ site.thread_name ∷ tid_label ∷ cast site.tid ∷ []) funced
        else some funced
    put opening threaded

  unfoldable pub write_line : Config → Site → Level → List (Value F) → Option (List ℕ)
  write_line config site lv values = do
    began ← begin config site lv
    full ← put_values values began
    finish full

  -- A log statement: LOG_CHECK and the operators behind it.
  unfoldable pub log : Config → Site → Level → List (Value F) → Option (List ℕ)
  log config site lv values =
      if log_check lv config then write_line config site lv values else some []
