-- ===== src/Screen/Flush/Ends.antt =====
-- The logger and the flush of the screen end, and the guard is put back.
use webuiboot.Base.{
  ℕ, suc, ◌+◌, ◌≤◌, ◌≡◌, refl, sym, ap, ◌∙◌, Bool, true, false, List, [], ◌∷◌, Option, none, some,
  if◌then◌else◌, length, length-append, arith, Bool-cases, Option-cases, inl, inr,
}
use webuiboot.Logs.{log}
use webuiboot.Logs.Format.{LogRecord, enabled, format_line}
use webuiboot.Screen.Pixel.{BltPixel}
use webuiboot.Screen.Flush.{
  Statics, Outcome, done, panicked, out_of_fuel, and_then, log_all, is_some, flush_window,
  force_flush_logs, set_logs, log_record,
}

-- It ends, with a panic or as it is said.
abbrev pub Ends : (Statics → Type 0) → Outcome → Type 0
Ends P (done s) = P s
Ends P panicked = Unit
Ends P out_of_fuel = ⊥

-- Nothing was drawn, and the guard is set.
abbrev pub IsQuiet : Statics → Statics → Type 0
IsQuiet s s' = (s'.in_flush ≡ true) × (s'.screen ≡ s.screen)

-- The guard is as it was, and at most one frame was copied, and only where the guard was not set.
abbrev pub IsRestored : Statics → Statics → Type 0
IsRestored s s' =
    (s'.in_flush ≡ s.in_flush)
    × (length s.screen ≤ length s'.screen)
    × (length s'.screen ≤ length s.screen + (if s.in_flush then 0 else 1))

Ends-and_then :
    (P Q : Statics → Type 0) (f : Statics → Outcome) (o : Outcome)
    → ((s : Statics) → P s → Ends Q (f s))
    → Ends P o
    → Ends Q (and_then f o)
Ends-and_then P Q f (done s) h e = h s e
Ends-and_then P Q f panicked h e = tt
Ends-and_then P Q f out_of_fuel h e = e

Ends-imp :
    (P Q : Statics → Type 0) (o : Outcome) → ((s : Statics) → P s → Q s) → Ends P o → Ends Q o
Ends-imp P Q (done s) h e = h s e
Ends-imp P Q panicked h e = tt
Ends-imp P Q out_of_fuel h e = e

log_all-IsQuiet :
    (log : LogRecord → Statics → Outcome) (ms : List LogRecord) (s : Statics)
    → ((m : LogRecord) (t : Statics) → t.in_flush ≡ true → Ends (IsQuiet t) (log m t))
    → s.in_flush ≡ true
    → Ends (IsQuiet s) (log_all log ms s)
unfolding log_all
log_all-IsQuiet log [] s q h = (h, refl)
log_all-IsQuiet log (m ∷ ms) s q h =
    Ends-and_then (IsQuiet s) (IsQuiet s) (log_all log ms) (log m s)
      (λ s' e.
        Ends-imp (IsQuiet s') (IsQuiet s) (log_all log ms s') (λ t e'. (e'.0, e'.1 ∙ e.1))
          (log_all-IsQuiet log ms s' q e.0))
      (q m s h)

module _ (render : Statics → ℕ → List BltPixel → List BltPixel × List LogRecord) where
  -- What holds of every state with the same guard and screen, and is kept by the flush, the logger keeps.
  log_record-by_flush :
      (P : Statics → Type 0) (fuel : ℕ) (m : LogRecord) (s : Statics)
      → ((t : Statics) → t.in_flush ≡ s.in_flush → t.screen ≡ s.screen → P t)
      → ((t : Statics)
          → t.in_flush ≡ s.in_flush
          → t.screen ≡ s.screen
          → Ends P (force_flush_logs render (λ m' t'. log_record render fuel m' t') t))
      → Ends P (log_record render (suc fuel) m s)
  unfolding log_record
  log_record-by_flush P fuel m s p q = elim (Bool-cases (enabled m.level)) [
    | inr e ↦ rw (e, log_record) (p s refl refl)
    | inl e ↦ elim (Option-cases (log (format_line m) s.logs)) [
      | inl f ↦ rw (log_record, e, f) tt
      | inr (l, f) ↦ elim (Bool-cases (is_some l.window)) [
        | inl g ↦ rw (log_record, e, f, set_logs, g) (q _ refl refl)
        | inr g ↦ rw (log_record, e, f, set_logs, g) (p _ refl refl)
      ]
    ]
  ]

  nested_lem :
      (fuel : ℕ) (m : LogRecord) (s : Statics)
      → s.in_flush ≡ true
      → Ends (IsQuiet s) (log_record render (suc fuel) m s)
  unfolding force_flush_logs
  nested_lem fuel m s h =
      log_record-by_flush (IsQuiet s) fuel m s (λ t i e. (i ∙ h, e))
        (λ t i e. rw (force_flush_logs, i ∙ h) (refl, e))

  -- The guard is put back, and one frame is copied at most.
  abbrev Flushed : Statics → Statics → Type 0
  Flushed s s' =
      (s'.in_flush ≡ false)
      × (length s.screen ≤ length s'.screen)
      × (length s'.screen ≤ length s.screen + 1)

  flush_window_lem :
      (log : LogRecord → Statics → Outcome) (b : Bool) (gop : Option (ℕ × ℕ))
      (fb : Option (List BltPixel)) (s : Statics)
      → ((m : LogRecord) (t : Statics) → t.in_flush ≡ true → Ends (IsQuiet t) (log m t))
      → s.in_flush ≡ true
      → Ends (Flushed s) (flush_window render log b gop fb s)
  flush_window_lem log false gop fb s q h = (refl, omega arith, omega arith)
  flush_window_lem log true none fb s q h = (refl, omega arith, omega arith)
  flush_window_lem log true (some r) none s q h = (refl, omega arith, omega arith)
  flush_window_lem log true (some r) (some fb) s q h =
      Ends-and_then (IsQuiet s) (Flushed s) _ (log_all log (render s r.0 fb).1 s)
        (λ t e.
          let more =
            length-append t.screen (record { buffer = (render s r.0 fb).0; dims = r } ∷ []) in
          let same = ap length e.1 in (refl, omega (arith, more, same), omega (arith, more, same)))
        (log_all-IsQuiet log (render s r.0 fb).1 s q h)

  guard_open :
      (log : LogRecord → Statics → Outcome) (s : Statics)
      → s.in_flush ≡ false
      → force_flush_logs render log s
        ≡ flush_window render log s.has_window s.gop s.fb (record s { in_flush = true })
  unfolding force_flush_logs
  guard_open log s h =
      ap
        (λ b.
          if b
          then done s
          else flush_window render log s.has_window s.gop s.fb (record s { in_flush = true }))
        h

  -- The logger ends, whatever the rendering logs while it draws: two levels of calls are enough. Where
  -- it does not panic, the guard of the flush is as it was, and one frame at most is copied to the
  -- screen, none where the guard was set.
  pub log_record-Ends :
      (fuel : ℕ) (m : LogRecord) (s : Statics)
      → Ends (IsRestored s) (log_record render (suc (suc fuel)) m s)
  unfolding force_flush_logs
  log_record-Ends fuel m s =
      log_record-by_flush (IsRestored s) (suc fuel) m s
        (λ t i e. (i, omega (arith, ap length e), ground (arith, ap length e)))
        (λ t i e. elim (Bool-cases s.in_flush) [
          | inl f ↦
              rw (force_flush_logs, i, f)
                (refl, omega (arith, ap length e), omega (arith, ap length e))
          | inr f ↦ rw (guard_open (λ m' t'. log_record render (suc fuel) m' t') t (i ∙ f)) (
              Ends-imp (Flushed t) (IsRestored s) _
                (λ t' r. (r.0 ∙ sym f, omega (arith, ap length e), ground (arith, ap length e, f)))
                (flush_window_lem (λ m' t'. log_record render (suc fuel) m' t') t.has_window t.gop
                  t.fb (record t { in_flush = true }) (nested_lem fuel) refl))
        ])
