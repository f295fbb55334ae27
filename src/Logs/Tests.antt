-- ===== src/Logs/Tests.antt =====
-- Messages to the logger of src/main.rs.
use webuiboot.Base.{◌≤◌, ◌≡◌, refl, ◌++◌, none, some, length}
use webuiboot.Text.{codes}
use webuiboot.Text.Utf8.{Bytes}
use webuiboot.Logs.{limit, truncate, Logs, log}
use webuiboot.Logs.Tail.{Kept, text_of, truncate-ascii, log-Kept}

abbrev message : Bytes
message = codes "[INFO ]: ready\n"

truncate-ascii_example : (t : Bytes) × (truncate message ≡ some t)
truncate-ascii_example = truncate-ascii message refl

abbrev before : Logs
before = record { window = some (codes "a\n"); pending = some (codes "b\n") }

abbrev after : Logs
after = record { window = some (codes "a\nb\n[INFO ]: ready\n"); pending = none }

log-Kept_example :
    Kept (text_of before ++ message) (text_of after) × (length (text_of after) ≤ limit)
unfolding log truncate
log-Kept_example = log-Kept message before after refl
