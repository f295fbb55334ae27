-- ===== src/Logs.antt =====
-- src/main.rs, `SlintLogger::log`: the text of the log. A `String` is its bytes, and a slice that does
-- not start at a character is a panic, as `none`.
pub mod Tail
pub mod Format
mod Tests
use webuiboot.Base.{
  ℕ, zero, suc, ◌+◌, ◌-◌, ◌≤◌, Bool, true, false, not, ◌&&◌, List, [], ◌∷◌, ◌++◌, Option, none,
  some, if◌then◌else◌, length, ltb, leb, ◌==◌,
}
use webuiboot.Text.{Str, codes}
use webuiboot.Text.Utf8.{Bytes, as_bytes}

-- `is_char_boundary` at the start of the rest of a string: no continuation byte stands there.
abbrev pub is_boundary : Bytes → Bool
is_boundary [] = true
is_boundary (b ∷ s) = not (leb 128 b && ltb b 192)

abbrev pub skip : ℕ → Bytes → Bytes
skip zero s = s
skip (suc n) [] = []
skip (suc n) (b ∷ s) = skip n s

-- `&s[n..]`, which panics beyond the end, and inside of a character
abbrev pub slice_from : ℕ → Bytes → Option Bytes
slice_from n s =
    let rest = skip n s in if leb n (length s) && is_boundary rest then some rest else none

abbrev pub one_more : Option ℕ → Option ℕ
one_more none = none
one_more (some n) = some (suc n)

-- `find('\n')`
abbrev pub find_newline : Bytes → Option ℕ
find_newline [] = none
find_newline (b ∷ s) = if b == b'\n' then some 0 else one_more (find_newline s)

abbrev pub limit : ℕ
limit = 4000

-- The text is longer than the limit: the rest behind `drain_index` is looked through.
abbrev pub drained : ℕ → Bytes → Option ℕ → Option Bytes
drained drain_index logs none = slice_from drain_index logs
drained drain_index logs (some next_nl) = slice_from (drain_index + next_nl + 1) logs

abbrev pub with_slice : Bytes → ℕ → Option Bytes → Option Bytes
with_slice logs drain_index none = none
with_slice logs drain_index (some rest) = drained drain_index logs (find_newline rest)

unfoldable pub truncate : Bytes → Option Bytes
truncate logs =
    if ltb limit (length logs)
    then (let drain_index = length logs - limit in
        with_slice logs drain_index (slice_from drain_index logs))
    else some logs

-- The texts that the logger keeps: the window's, while there is a window, and the pending one.
pub record Logs : Type 0 where
  pub window : Option Bytes
  pub pending : Option Bytes

abbrev pub or_empty : Option Bytes → Bytes
or_empty none = []
or_empty (some s) = s

abbrev pub kept : (Bytes → Logs) → Option Bytes → Option Logs
kept f none = none
kept f (some s) = some (f s)

abbrev pub log_to : Option Bytes → Bytes → Option Bytes → Option Logs
log_to none msg pending =
    kept (λ s. record { window = none; pending = some s }) (truncate (or_empty pending ++ msg))
log_to (some text) msg pending =
    kept (λ s. record { window = some s; pending = none })
      (truncate (text ++ or_empty pending ++ msg))

-- `log`, for a message that is enabled and formatted. The print to the console and the flush of the
-- screen are in Screen/Flush.
unfoldable pub log : Bytes → Logs → Option Logs
unfolding truncate
log msg l = log_to l.window msg l.pending
