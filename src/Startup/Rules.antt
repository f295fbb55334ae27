-- ===== src/Startup/Rules.antt =====
-- The rules by which the steps of the start-up are followed: what holds behind a sequence, a step that is
-- unwrapped, and messages.
use webuiboot.Base.{
  ◌++◌, ◌∙◌, Option-cases, ◌≡◌, refl, ap, Bool, true, false, inl, inr, List, [], ◌∷◌, Option, none,
  some,
}
use webuiboot.Logs.{Logs, log}
use webuiboot.Logs.Tail.{none-some, some-injective}
use webuiboot.Logs.Format.{LogRecord, format_line}
use webuiboot.Startup.{
  Main, Exit, goes_on, panicked, unsupported, Startup, continue, ◌>>=◌, with_machine, expected,
  unwrap, log_lines, log_messages, logged,
}

module _ {S : Type 0} where
  -- What holds behind a step: where it goes on, where it panicked, and where it gave up.
  abbrev pub After :
      {A : Type 0}
      → (A → Main S → Type 0)
      → (Main S → Type 0)
      → (Main S → Type 0)
      → Exit A × Main S
      → Type 0
  After P E U (goes_on a, m) = P a m
  After P E U (panicked, m) = E m
  After P E U (unsupported, m) = U m

  continue_lem :
      {A B : Type 0} (P : A → Main S → Type 0) (Q : B → Main S → Type 0) (E U : Main S → Type 0)
      (r : Exit A) (f : A → Startup S B) (m : Main S)
      → After P E U (r, m)
      → ((a : A) (m' : Main S) → P a m' → After Q E U (f a m'))
      → After Q E U (continue r f m)
  continue_lem P Q E U (goes_on a) f m h g = g a m h
  continue_lem P Q E U panicked f m h g = h
  continue_lem P Q E U unsupported f m h g = h

  -- the rule of a sequence
  pub bind_lem :
      {A B : Type 0} (P : A → Main S → Type 0) (Q : B → Main S → Type 0) (E U : Main S → Type 0)
      (x : Startup S A) (f : A → Startup S B) (m : Main S)
      → After P E U (x m)
      → ((a : A) (m' : Main S) → P a m' → After Q E U (f a m'))
      → After Q E U ((x >>= f) m)
  bind_lem P Q E U x f m h g = continue_lem P Q E U (x m).0 f (x m).1 h g

  -- The machine may change.
  abbrev pub IsStable : (Main S → Type 0) → Type 0
  IsStable P = (m : Main S) (s : S) → P m → P (with_machine s m)

  pub unwrap_lem :
      (P E U : Main S → Type 0) (op : S → Bool × S) (m : Main S)
      → IsStable P
      → ((m' : Main S) → P m' → E m')
      → P m
      → After (λ _. P) E U (unwrap op m)
  unwrap_lem P E U op m stable e p = expected_lem (op m.world.machine).0
    where
      expected_lem :
          (b : Bool) → After (λ _. P) E U (expected b, with_machine (op m.world.machine).1 m)
      expected_lem true = stable m (op m.world.machine).1 p
      expected_lem false =
          e (with_machine (op m.world.machine).1 m) (stable m (op m.world.machine).1 p)

  pub log_lem :
      (P E U : Main S → Type 0) (ms : List LogRecord) (m : Main S)
      → E m
      → ((l : Logs) → log_lines ms m.logs ≡ some l → P (record m { logs = l }))
      → After (λ _. P) E U (log_messages ms m)
  log_lem P E U ms m e p = logged_lem (log_lines ms m.logs) p
    where
      logged_lem :
          (o : Option Logs)
          → ((l : Logs) → o ≡ some l → P (record m { logs = l }))
          → After (λ _. P) E U (logged o m)
      logged_lem none p = e
      logged_lem (some l) p = p l refl

pub log_lines-append :
    (ms ns : List LogRecord) (l l' l'' : Logs)
    → log_lines ms l ≡ some l'
    → log_lines ns l' ≡ some l''
    → log_lines (ms ++ ns) l ≡ some l''
unfolding log_lines
log_lines-append [] ns l l' l'' e f = ap (log_lines ns) (some-injective e) ∙ f
log_lines-append (m ∷ ms) ns l l' l'' e f = elim (Option-cases (log (format_line m) l)) [
  | inl h ↦ absurd (none-some (rw (h, log_lines) at e))
  | inr (k, h) ↦ rw (log_lines, h) (log_lines-append ms ns k l' l'' (rw (h, log_lines) at e) f)
]
