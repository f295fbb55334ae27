-- ===== src/Device/Recycling.antt =====
-- The wait for the transmitted buffer.
use webuiboot.Base.{
  ℕ, zero, suc, ◌<◌, ◌≡◌, refl, ap, ◌∙◌, Bool, true, false, ◌⊎◌, inl, inr, some, if◌then◌else◌,
  ◌==◌, Bool-cases, arith,
}
use webuiboot.Base.Arrays.{replicate}
use webuiboot.Text.Utf8.{Bytes}
use webuiboot.Device.{SimpleNetwork, Recycled, buffer_at, no_buffer, failed, wait_recycled, consume}

Recycled-cases : (r : Recycled) → ((a : ℕ) × (r ≡ buffer_at a)) ⊎ (r ≡ no_buffer) ⊎ (r ≡ failed)
Recycled-cases (buffer_at a) = inl (a, refl)
Recycled-cases no_buffer = inr (inl refl)
Recycled-cases failed = inr (inr refl)

found : (a b : ℕ) → (a == b) ≡ true → a ≡ b
found a b e = ground arith

module _ {W : Type 0} (snp : SimpleNetwork W) where
  -- How the wait for a buffer goes: other buffers are taken, up to the buffer itself, or up to where the firmware has none or
  -- an error.
  pub data Waits (address : ℕ) : W → W → Type 0 where
    recycled :
        {w : W}
        → (snp.get_recycled_transmit_buffer_status w).0 ≡ buffer_at address
        → Waits address w (snp.get_recycled_transmit_buffer_status w).1
    none_yet :
        {w : W}
        → (snp.get_recycled_transmit_buffer_status w).0 ≡ no_buffer
        → Waits address w (snp.get_recycled_transmit_buffer_status w).1
    error :
        {w : W}
        → (snp.get_recycled_transmit_buffer_status w).0 ≡ failed
        → Waits address w (snp.get_recycled_transmit_buffer_status w).1
    another :
        {a : ℕ} {w w' : W}
        → (snp.get_recycled_transmit_buffer_status w).0 ≡ buffer_at a
        → (a == address) ≡ false
        → Waits address (snp.get_recycled_transmit_buffer_status w).1 w'
        → Waits address w w'

  -- Every buffer that the firmware hands back is one less of those that it holds.
  abbrev pub Counts : (W → ℕ) → Type 0
  Counts held =
      (w : W) (a : ℕ)
      → (snp.get_recycled_transmit_buffer_status w).0 ≡ buffer_at a
      → held (snp.get_recycled_transmit_buffer_status w).1 < held w

  wait_recycled-Waits :
      (held : W → ℕ) (fuel address : ℕ) (w : W)
      → Counts held
      → held w < fuel
      → (w' : W) × (wait_recycled snp fuel address w ≡ some w') × Waits address w w'
  unfolding wait_recycled
  wait_recycled-Waits held zero address w c h = absurd (omega arith)
  wait_recycled-Waits held (suc fuel) address w c h =
      let w' = (snp.get_recycled_transmit_buffer_status w).1 in
      elim (Recycled-cases (snp.get_recycled_transmit_buffer_status w).0) [
        | inl (a, e) ↦ elim (Bool-cases (a == address)) [
          | inl f ↦
              (w', rw (wait_recycled, e, f) refl, recycled (e ∙ ap buffer_at (found a address f)))
          | inr f ↦
              let (w'', more, waits) =
                wait_recycled-Waits held fuel address w' c (omega (arith, c w a e)) in
              (w'', rw (wait_recycled, e, f) more, another e f waits)
        ]
        | inr (inl e) ↦ (w', rw (wait_recycled, e) refl, none_yet e)
        | inr (inr e) ↦ (w', rw (wait_recycled, e) refl, error e)
      ]

  -- what is transmitted, and the world behind it
  abbrev pub transmitted : {R : Type 0} → ℕ → (Bytes → R × Bytes) → W → Bool × W
  transmitted len f w = snp.transmit (f (replicate len 0)).1 w

  -- Sending ends with the result of the closure, which fills a buffer of zeros: where the buffer was
  -- transmitted, with fuel above the number of the buffers that the firmware holds to be handed back,
  -- behind the wait for it, and at once where the transmission failed.
  pub consume-ends :
      {R : Type 0} (held : W → ℕ) (fuel address len : ℕ) (f : Bytes → R × Bytes) (w : W)
      → Counts held
      → held (transmitted len f w).1 < fuel
      → (w' : W) × (consume snp fuel address len f w ≡ some ((f (replicate len 0)).0, w'))
        × (if (transmitted len f w).0
            then Waits address (transmitted len f w).1 w'
            else w' ≡ (transmitted len f w).1)
  unfolding consume
  consume-ends held fuel address len f w c h = elim (Bool-cases (transmitted len f w).0) [
    | inr e ↦ ((transmitted len f w).1, rw (consume, e) refl, rw e refl)
    | inl e ↦
        let (w', more, waits) = wait_recycled-Waits held fuel address (transmitted len f w).1 c h in
        (w', rw (consume, e, more) refl, rw e waits)
  ]
