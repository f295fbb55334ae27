-- ===== src/Screen/Start/Scale.antt =====
-- The size and the scale that the user interface starts with.
use webuiboot.Base.{
  ◌*◌, ◌≤◌, ◌≡◌, refl, ap, true, List, [], ◌∷◌, none, some, arith, ◌&&◌, length, if◌then◌else◌,
}
use webuiboot.Base.Arrays.{replicate, length-replicate}
use webuiboot.Executor.{spawn}
use webuiboot.Screen.{Mode, Best, no_mode, choose_mode, fits}
use webuiboot.Screen.Modes.{Chosen, none_fits, chosen, choose_mode_lem}
use webuiboot.Screen.Pixel.{BltPixel, black}
use webuiboot.Screen.Cursor.{pointer_width, pointer_height}
use webuiboot.Screen.Mouse.{scale_factor_changed}
use webuiboot.Screen.Start.{
  Gop, run, run_slint_ui, Started, scale_factor, fits_u32, started, resolution_with, run_event_loop,
}

Chosen-fits :
    {A : Type 0} (ms : List (Mode A)) (b : Best A) (m : Mode A)
    → Chosen ms b
    → b.best_mode ≡ some m
    → fits m ≡ true
Chosen-fits ms b m none_fits e = absurd cc
Chosen-fits ms b m (chosen n i f) e = cc

-- The start in this mode: the window has its size, unscaled, and so has the frame buffer.
abbrev pub StartsIn : {A W : Type 0} → Gop A → W → Mode A → Type 0
StartsIn gop w m =
    (s : Started _) × (fb : List BltPixel) × (mfb : List BltPixel) × (run_event_loop gop true w
      ≡ some s)
    × (m.width ≤ 1920)
    × (m.height ≤ 1080)
    × (s.size ≡ (m.width, m.height))
    × (s.event ≡ scale_factor_changed 2)
    × (s.global_fb ≡ some fb)
    × (length fb ≡ m.width * m.height)
    × (s.executor.tasks ≡ (0, run) ∷ (1, run_slint_ui fb mfb m.width m.height 2) ∷ [])
    × (s.executor.run_queue ≡ 0 ∷ 1 ∷ [])

-- Where a mode fits and `set_mode` succeeds, and a mode that is set is the current one, the interface
-- starts without a panic, in the chosen mode, which is at most 1920 wide and 1080 high, and unscaled;
-- the frame buffer has the size of the screen, and the network's task is queued before the interface's.
pub run_event_loop-unscaled :
    {A W : Type 0} (gop : Gop A) (w : W) (m : Mode A)
    → ((n : Mode A) → (gop.set_mode n).0 ≡ true → (gop.set_mode n).1 ≡ (n.width, n.height))
    → (choose_mode gop.modes no_mode).best_mode ≡ some m
    → (gop.set_mode m).0 ≡ true
    → StartsIn gop w m
unfolding run_event_loop spawn
run_event_loop-unscaled gop w m sets best ok =
    let f =
      Chosen-fits gop.modes (choose_mode gop.modes no_mode) m (choose_mode_lem gop.modes).0 best in
    let wide : m.width ≤ 1920 = ground (arith, f) in
    let high : m.height ≤ 1080 = ground (arith, f) in
    let size : resolution_with gop (choose_mode gop.modes no_mode).best_mode ≡ (m.width, m.height) =
      rw (best, resolution_with) (sets m ok) in
    let fb = replicate (m.width * m.height) black in
    let scale : scale_factor m.width ≡ 2 = ground arith in
    let mfb = replicate (pointer_width * pointer_height) black in
    let u : (fits_u32 m.width && fits_u32 m.height) ≡ true = ground arith in
    (
      started m.width m.height w,
      fb,
      mfb,
      rw (run_event_loop, size) (ap (λ b. if b then some (started m.width m.height w) else none) u),
      wide,
      high,
      refl,
      ap scale_factor_changed scale,
      refl,
      length-replicate (m.width * m.height) black,
      ap (λ n. (0, run) ∷ (1, run_slint_ui fb mfb m.width m.height n) ∷ []) scale,
      refl,
    )
