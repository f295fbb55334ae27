-- ===== src/Screen/Flush.antt =====
-- `force_flush_logs` of src/slint_plat.rs and `SlintLogger::log` of src/main.rs, which call each other: the
-- logger flushes the screen, and the rendering of the screen can log. The rendering is a parameter,
-- which sees the statics and gives the frame and what it logs. `IN_FLUSH` guards the flush.
pub mod Ends
use webuiboot.Base.{
  ℕ, zero, suc, Bool, true, false, List, [], ◌∷◌, ◌++◌, Option, none, some, if◌then◌else◌,
}
use webuiboot.Text.Utf8.{Bytes}
use webuiboot.Logs.{Logs}
use webuiboot.Logs
use webuiboot.Logs.Format.{LogRecord, enabled, format_line}
use webuiboot.Screen.Pixel.{BltPixel}

-- a copy to the screen
pub record Blt : Type 0 where
  pub buffer : List BltPixel
  pub dims : ℕ × ℕ

pub record Statics : Type 0 where
  pub in_flush : Bool
  -- `GLOBAL_WINDOW` is set, and its window is still there
  pub has_window : Bool
  -- `GLOBAL_GOP`, by the resolution of its current mode
  pub gop : Option (ℕ × ℕ)
  -- `GLOBAL_FB`
  pub fb : Option (List BltPixel)
  -- `APP_WINDOW`'s log text, and `PENDING_LOGS`
  pub logs : Logs
  -- what was printed, and what was copied to the screen
  pub stdout : List Bytes
  pub screen : List Blt

pub data Outcome : Type 0 where
  done : Statics → Outcome
  panicked out_of_fuel : Outcome

abbrev pub and_then : (Statics → Outcome) → Outcome → Outcome
and_then f (done s) = f s
and_then f panicked = panicked
and_then f out_of_fuel = out_of_fuel

-- messages that are logged in turn
unfoldable pub log_all : (LogRecord → Statics → Outcome) → List LogRecord → Statics → Outcome
log_all log [] s = done s
log_all log (m ∷ ms) s = and_then (log_all log ms) (log m s)

abbrev pub is_some : {A : Type 0} → Option A → Bool
is_some none = false
is_some (some a) = true

module _ (render : Statics → ℕ → List BltPixel → List BltPixel × List LogRecord) where
  abbrev pub draw : (LogRecord → Statics → Outcome) → ℕ × ℕ → List BltPixel → Statics → Outcome
  draw log (screen_width, screen_height) fb s =
      let (rendered, messages) = render s screen_width fb in
      and_then
        (λ s'. done (record s' {
          fb = some rendered;
          screen =
              s'.screen ++ record { buffer = rendered; dims = (screen_width, screen_height) } ∷ [];
          in_flush = false;
        }))
        (log_all log messages s)

  -- behind the guard: the early returns, and the drawing
  abbrev pub flush_window :
      (LogRecord → Statics → Outcome)
      → Bool
      → Option (ℕ × ℕ)
      → Option (List BltPixel)
      → Statics
      → Outcome
  flush_window log false gop fb s = done (record s { in_flush = false })
  flush_window log true none fb s = done (record s { in_flush = false })
  flush_window log true (some resolution) none s = done (record s { in_flush = false })
  flush_window log true (some resolution) (some fb) s = draw log resolution fb s

  unfoldable pub force_flush_logs : (LogRecord → Statics → Outcome) → Statics → Outcome
  unfolding log_all
  force_flush_logs log s =
      if s.in_flush
      then done s
      else flush_window log s.has_window s.gop s.fb (record s { in_flush = true })

  -- The text is set, and flushed where there is a window.
  abbrev pub set_logs : (Statics → Outcome) → Option Logs → Statics → Outcome
  set_logs flush none s = panicked
  set_logs flush (some l) s =
      let s' : Statics = record s { logs = l } in if is_some l.window then flush s' else done s'

  -- `SlintLogger::log`, with fuel for the calls of each other
  unfoldable pub log_record : ℕ → LogRecord → Statics → Outcome
  unfolding force_flush_logs
  log_record zero m s = out_of_fuel
  log_record (suc fuel) m s =
      let msg = format_line m in
      let flushed = force_flush_logs (λ m' t. log_record fuel m' t) in
      if enabled m.level
      then set_logs flushed (Logs.log msg s.logs) (record s { stdout = s.stdout ++ msg ∷ [] })
      else done s
