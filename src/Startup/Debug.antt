-- ===== src/Startup/Debug.antt =====
-- src/main.rs, `wait_for_gdb`, which a debug build calls behind the set-up of the logger. The memory and
-- the clock are parameters; the loop is on fuel, and `none` is out of fuel.
use webuiboot.Base.{
  ℕ, zero, suc, ◌+◌, ◌-◌, ◌≤◌, ◌≡◌, Bool, true, false, ◌⊎◌, inl, inr, if◌then◌else◌, leb, arith,
  Bool-cases,
}

pub record Debuggee (W : Type 0) : Type 0 where
  -- the protocol of the image opens, or it panics
  pub has_loaded_image : W → Bool
  pub base_addr : W → ℕ
  pub write_volatile : ℕ → ℕ → W → W
  -- `GDB_ATTACHED` is not 0
  pub is_attached : W → Bool
  pub get_ms_since_start : W → ℕ
  pub spin_loop : W → W

pub data Waited (W : Type 0) : Type 0 where
  resumed : W → Waited W
  panicked out_of_fuel : Waited W

module _ {W : Type 0} (host : Debuggee W) where
  -- the loop, with the time before it
  unfoldable pub wait_attached : ℕ → ℕ → W → Waited W
  wait_attached zero start_time w = out_of_fuel
  wait_attached (suc fuel) start_time w =
      let rest = wait_attached fuel start_time (host.spin_loop w) in
      if host.is_attached w
      then resumed w
      else if leb 3000 (host.get_ms_since_start w - start_time)
      then resumed w
      else rest

  unfoldable pub wait_for_gdb : ℕ → W → Waited W
  unfolding wait_attached
  wait_for_gdb fuel w =
      let w' =
        host.write_volatile 0x10000 0xDEADBEEF (host.write_volatile 0x10008 (host.base_addr w) w) in
      if host.has_loaded_image w
      then wait_attached fuel (host.get_ms_since_start w') w'
      else panicked

  -- the loop's wait, so many times
  abbrev pub spins : ℕ → W → W
  spins zero w = w
  spins (suc n) w = spins n (host.spin_loop w)

  -- The wait is over in this state: a debugger is there, or three seconds have passed.
  abbrev pub IsOver : ℕ → Waited W → Type 0
  IsOver start_time (resumed w) =
      (host.is_attached w ≡ true) ⊎ (start_time + 3000 ≤ host.get_ms_since_start w)
  IsOver start_time panicked = ⊥
  IsOver start_time out_of_fuel = ⊥

  step-IsOver :
      (fuel start_time : ℕ) (w : W)
      → (leb 3000 (host.get_ms_since_start w - start_time) ≡ false
          → IsOver start_time (wait_attached fuel start_time (host.spin_loop w)))
      → IsOver start_time (wait_attached (suc fuel) start_time w)
  unfolding wait_attached
  step-IsOver fuel start_time w later = elim (Bool-cases (host.is_attached w)) [
    | inl e ↦ rw (wait_attached, e) (inl e)
    | inr e ↦ elim (Bool-cases (leb 3000 (host.get_ms_since_start w - start_time))) [
      | inl f ↦ rw (wait_attached, e, f) (inr (ground (arith, f)))
      | inr f ↦ rw (wait_attached, e, f) (later f)
    ]
  ]

  -- Where the clock comes to three seconds behind the start after so many waits, the loop ends by then,
  -- at a debugger or at the three seconds.
  pub wait_attached-IsOver :
      (n start_time : ℕ) (w : W)
      → start_time + 3000 ≤ host.get_ms_since_start (spins n w)
      → IsOver start_time (wait_attached (suc n) start_time w)
  wait_attached-IsOver zero start_time w h =
      step-IsOver zero start_time w (λ f. absurd (ground (arith, f)))
  wait_attached-IsOver (suc n) start_time w h =
      step-IsOver (suc n) start_time w (λ f. wait_attached-IsOver n start_time (host.spin_loop w) h)
