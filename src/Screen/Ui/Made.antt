-- ===== src/Screen/Ui/Made.antt =====
-- What the calls of the rounds make of the window and the frame buffer.
use webuiboot.Base.{ℕ, ◌≡◌, refl, ◌∙◌, List, [], ◌∷◌, ◌++◌, Option, none, some, length}
use webuiboot.Text.{Str}
use webuiboot.Logs.Format.{LogRecord}
use webuiboot.Screen.Pixel.{BltPixel}
use webuiboot.Screen.Cursor.{◌>>=◌, draw_frame}
use webuiboot.Screen.Mouse.{WindowEvent}
use webuiboot.Screen.Ui.{
  Screen, Host, UiCall, update_timers_and_animations, dispatch, log, boot_os, boot_linux_direct,
  request_redraw, booted, perform, perform_all, shown,
}

module _ {W : Type 0} where
  -- There is no panic, and the frame is of its size.
  abbrev pub GoesOn : ℕ → Option (Screen W) → Type 0
  GoesOn size o = (s : Screen W) × (o ≡ some s) × (length s.fb ≡ size)

  abbrev pub KeepsSize : (Screen W → Option (Screen W)) → Type 0
  KeepsSize f = (s : Screen W) → GoesOn (length s.fb) (f s)

  -- Nothing that the rounds call panics or changes the frame's size, the logger's flush included.
  pub record IsSound (host : Host W) : Type 0 where
    pub timers : KeepsSize host.update_timers_and_animations
    pub events : (e : WindowEvent) → KeepsSize (host.try_dispatch_event e)
    pub logger : (r : LogRecord) → KeepsSize (host.log r)
    pub boots_os :
        (path : Str) (s : Screen W)
        → (e : Option Str) × (s' : Screen W) × (host.boot_os path s ≡ some (e, s'))
          × (length s'.fb ≡ length s.fb)
    pub boots_linux : KeepsSize host.boot_linux_direct
    pub renders : KeepsSize host.render

  -- The screen that these calls, in order, and drawings among them make of one: of a drawing, the frame
  -- with the cursor goes to the firmware, and the frame buffer is as the rendering left it.
  pub data Made (host : Host W) (screen_width screen_height : ℕ)
      : Screen W → List UiCall → Screen W → Type 0 where
    nothing_more : {s : Screen W} → Made host screen_width screen_height s [] s
    called :
        {c : UiCall} {s s' t : Screen W} {cs : List UiCall}
        → perform host c s ≡ some s'
        → Made host screen_width screen_height s' cs t
        → Made host screen_width screen_height s (c ∷ cs) t
    drawn :
        (x y : ℕ) {frame : List BltPixel} {s s' t : Screen W} {cs : List UiCall}
        → host.render s ≡ some s'
        → draw_frame screen_width screen_height x y s'.fb ≡ some (frame, s'.fb)
        → Made host screen_width screen_height (shown host s' (frame, s'.fb)) cs t
        → Made host screen_width screen_height s cs t

  pub Made-append :
      {host : Host W} {w h : ℕ} {a b c : Screen W} {cs ds : List UiCall}
      → Made host w h a cs b
      → Made host w h b ds c
      → Made host w h a (cs ++ ds) c
  Made-append nothing_more q = q
  Made-append (called e p) q = called e (Made-append p q)
  Made-append (drawn x y e d p) q = drawn x y e d (Made-append p q)

module _ {W : Type 0} (host : Host W) (sound : IsSound host) where
  perform_lem : (c : UiCall) → KeepsSize (perform host c)
  perform_lem update_timers_and_animations s = sound.timers s
  perform_lem (dispatch e) s = sound.events e s
  perform_lem (log r) s = sound.logger r s
  perform_lem (boot_os path) s =
      let (e, s', h, l) = sound.boots_os path s in
      let (t, h', l') = booted_lem e s' in (t, rw (h, ◌>>=◌) h', l' ∙ l)
    where
      booted_lem : (e : Option Str) → KeepsSize (λ s'. booted host (e, s'))
      booted_lem none s' = (s', refl, refl)
      booted_lem (some e) s' = sound.logger _ s'
  perform_lem boot_linux_direct s = sound.boots_linux s
  perform_lem request_redraw s = (_, refl, refl)

  pub perform_all_lem :
      (screen_width screen_height : ℕ) (cs : List UiCall) (s : Screen W)
      → (t : Screen W) × (perform_all host cs s ≡ some t)
        × (length t.fb ≡ length s.fb)
        × Made host screen_width screen_height s cs t
  unfolding perform_all
  perform_all_lem w h [] s = (s, refl, refl, nothing_more)
  perform_all_lem w h (c ∷ cs) s =
      let (s', e, l) = perform_lem c s in
      let (t, e', l', made) = perform_all_lem w h cs s' in
      (t, rw (e, ◌>>=◌) e', l' ∙ l, called e made)
