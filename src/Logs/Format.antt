-- ===== src/Logs/Format.antt =====
-- src/main.rs, `SlintLogger`: the level filter, and the line that is made of a record. The arguments are
-- given as they are printed.
use webuiboot.Base.{ℕ, zero, suc, Bool, [], ◌∷◌, ◌++◌, leb}
use webuiboot.Text.{codes}
use webuiboot.Text.Utf8.{Bytes}

pub data Level : Type 0 where
  error warn info debug trace : Level

-- the number of a level, by which they compare
abbrev pub rank : Level → ℕ
rank error = 1
rank warn = 2
rank info = 3
rank debug = 4
rank trace = 5

abbrev pub as_str : Level → Bytes
as_str error = codes "ERROR"
as_str warn = codes "WARN"
as_str info = codes "INFO"
as_str debug = codes "DEBUG"
as_str trace = codes "TRACE"

pub record LogRecord : Type 0 where
  pub level : Level
  pub args : Bytes

abbrev pub enabled : Level → Bool
enabled level = leb (rank level) (rank info)

-- `{:5}`
abbrev pub padded : ℕ → Bytes → Bytes
padded zero s = s
padded (suc n) [] = b' ' ∷ padded n []
padded (suc n) (b ∷ s) = b ∷ padded n s

abbrev pub format_line : LogRecord → Bytes
format_line r = codes "[" ++ (padded 5 (as_str r.level) ++ (codes "]: " ++ (r.args ++ codes "\n")))
