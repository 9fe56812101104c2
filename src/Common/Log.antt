-- ===== src/Common/Log.antt =====
-- Logging and allocation in src/common.c. The process's standard error is a list of the texts that
-- are written; the time stamp and the formatted message are arguments.
use shardingsim.Prelude.{
  ℕ, true, false, Option, none, some, List, [], ◌∷◌, ◌++◌, ltb, if◌then◌else◌, replicate, memcpy,
  length, length-append, ap, memcpy_all, length-replicate, ◌+◌, ◌≤◌, ◌<◌, ◌≡◌, arith,
}

pub data LogLevel : Type 0 where
  log_debug : LogLevel
  log_info : LogLevel
  log_warn : LogLevel
  log_error : LogLevel

-- The value of the enumeration.
pub level_value : LogLevel → ℕ
level_value log_debug = 0
level_value log_info = 1
level_value log_warn = 2
level_value log_error = 3

-- The texts of `level_str`.
level_str : LogLevel → List ℕ
level_str log_debug = b'D' ∷ b'E' ∷ b'B' ∷ b'U' ∷ b'G' ∷ []
level_str log_info = b'I' ∷ b'N' ∷ b'F' ∷ b'O' ∷ []
level_str log_warn = b'W' ∷ b'A' ∷ b'R' ∷ b'N' ∷ []
level_str log_error = b'E' ∷ b'R' ∷ b'R' ∷ b'O' ∷ b'R' ∷ []

-- The last digit of the escape sequence in `colors`.
color_digit : LogLevel → ℕ
color_digit log_debug = b'6'
color_digit log_info = b'2'
color_digit log_warn = b'3'
color_digit log_error = b'1'

-- The level in force, and what was written.
pub record Log : Type 0 where
  pub current_log_level : LogLevel
  pub written : List (List ℕ)

pub set_log_level : LogLevel → Log → Log
set_log_level level log = record log { current_log_level = level }

-- The escape character is 27.
log_line : LogLevel → List ℕ → List ℕ → List ℕ
unfolding level_str color_digit
log_line level timestamp message =
    (27 ∷ b'[' ∷ b'3' ∷ color_digit level ∷ b'm' ∷ b'[' ∷ [])
    ++ (level_str level
        ++ ((b']' ∷ b' ' ∷ [])
            ++ (timestamp
                ++ ((b':' ∷ b' ' ∷ []) ++ (message ++ (27 ∷ b'[' ∷ b'0' ∷ b'm' ∷ 10 ∷ []))))))

pub log_msg : LogLevel → List ℕ → List ℕ → Log → Log
unfolding level_value log_line
log_msg level timestamp message log =
    if ltb (level_value level) (level_value log.current_log_level)
    then log
    else record log { written = log.written ++ (log_line level timestamp message ∷ []) }

-- What an allocation gives: a block, NULL, which is a good answer for no bytes, or the end of the
-- process. `found` is the answer of `malloc` or `realloc`.
pub data Allocation : Type 0 where
  allocated : Option ℕ → Allocation
  process_exit : Allocation

pub safe_malloc : Option ℕ → ℕ → Allocation
safe_malloc none size = if ltb 0 size then process_exit else allocated none
safe_malloc (some block) size = allocated (some block)

pub safe_realloc : Option ℕ → ℕ → Allocation
safe_realloc none size = if ltb 0 size then process_exit else allocated none
safe_realloc (some block) size = allocated (some block)

-- The block's contents when it is freed: the first `size` bytes are cleared.
pub secure_free : Option (List ℕ) → ℕ → Option (List ℕ)
secure_free none size = none
secure_free (some content) size = some (memcpy content 0 (replicate size 0) size)

-- A message above or at the level that was set is written, one below it is not, and messages that
-- were written stay.
log_msg-set_log_level :
    (level at_level : LogLevel) (timestamp message : List ℕ) (log : Log)
    → let after = log_msg level timestamp message (set_log_level at_level log) in
      (level_value at_level ≤ level_value level → length after.written ≡ length log.written + 1)
      × (level_value level < level_value at_level → after.written ≡ log.written)
unfolding log_msg set_log_level
log_msg-set_log_level level at_level timestamp message log = (
  λ h.
      let high : ltb (level_value level) (level_value at_level) ≡ false = ground arith in
      rw (high) (length-append log.written (log_line level timestamp message ∷ [])),
  λ h. let low : ltb (level_value level) (level_value at_level) ≡ true = ground arith in rw (low),
)

-- A block of the given size is all zeros when it is freed.
pub secure_free-cleared :
    (content : List ℕ) (size : ℕ)
    → length content ≡ size
    → secure_free (some content) size ≡ some (replicate size 0)
unfolding secure_free
secure_free-cleared content size h =
    ap (λ (t : List ℕ). some t)
      (memcpy_all size content (replicate size 0) h (length-replicate {A = ℕ} size 0))
