-- ===== src/Screen/Ui/Calls.antt =====
-- What a round of the user interface dispatches and boots.
use webuiboot.Base.{
  ℕ, ◌≡◌, refl, ap, Bool, inl, inr, List, [], ◌∷◌, ◌++◌, map, Option, none, some, Bool-cases,
}
use mathlib.Core.List.{append-nil}
use webuiboot.Text.{Str}
use webuiboot.Web.{BootSelection, windows, linux}
use webuiboot.Screen.Mouse.{WindowEvent, Mouse, read_pointer}
use webuiboot.Screen.Ui.{
  UiCall, update_timers_and_animations, dispatch, log, boot_os, boot_linux_direct, request_redraw,
  boot_directly, redraw_requests, mouse_error, Pointer, read_pointers,
}

-- The events that are dispatched, in order.
abbrev pub dispatched : List UiCall → List WindowEvent
dispatched [] = []
dispatched (update_timers_and_animations ∷ cs) = dispatched cs
dispatched (dispatch e ∷ cs) = e ∷ dispatched cs
dispatched (log r ∷ cs) = dispatched cs
dispatched (boot_os p ∷ cs) = dispatched cs
dispatched (boot_linux_direct ∷ cs) = dispatched cs
dispatched (request_redraw ∷ cs) = dispatched cs

pub dispatched-append :
    (cs ds : List UiCall) → dispatched (cs ++ ds) ≡ dispatched cs ++ dispatched ds
dispatched-append [] ds = refl
dispatched-append (update_timers_and_animations ∷ cs) ds = dispatched-append cs ds
dispatched-append (dispatch e ∷ cs) ds = ap (λ l. e ∷ l) (dispatched-append cs ds)
dispatched-append (log r ∷ cs) ds = dispatched-append cs ds
dispatched-append (boot_os p ∷ cs) ds = dispatched-append cs ds
dispatched-append (boot_linux_direct ∷ cs) ds = dispatched-append cs ds
dispatched-append (request_redraw ∷ cs) ds = dispatched-append cs ds

dispatched-map : (es : List WindowEvent) → dispatched (map dispatch es) ≡ es
dispatched-map [] = refl
dispatched-map (e ∷ es) = ap (λ l. e ∷ l) (dispatched-map es)

dispatched-boot : (d : Option BootSelection) → dispatched (boot_directly d) ≡ []
dispatched-boot none = refl
dispatched-boot (some windows) = refl
dispatched-boot (some linux) = refl

dispatched-mouse_error : (e : Option Str) → dispatched (mouse_error e) ≡ []
dispatched-mouse_error none = refl
dispatched-mouse_error (some e) = refl

-- The boots that are asked for, in order.
abbrev pub boots : List UiCall → List UiCall
boots [] = []
boots (update_timers_and_animations ∷ cs) = boots cs
boots (dispatch e ∷ cs) = boots cs
boots (log r ∷ cs) = boots cs
boots (boot_os p ∷ cs) = boot_os p ∷ boots cs
boots (boot_linux_direct ∷ cs) = boot_linux_direct ∷ boots cs
boots (request_redraw ∷ cs) = boots cs

boots-append : (cs ds : List UiCall) → boots (cs ++ ds) ≡ boots cs ++ boots ds
boots-append [] ds = refl
boots-append (update_timers_and_animations ∷ cs) ds = boots-append cs ds
boots-append (dispatch e ∷ cs) ds = boots-append cs ds
boots-append (log r ∷ cs) ds = boots-append cs ds
boots-append (boot_os p ∷ cs) ds = ap (λ l. boot_os p ∷ l) (boots-append cs ds)
boots-append (boot_linux_direct ∷ cs) ds = ap (λ l. boot_linux_direct ∷ l) (boots-append cs ds)
boots-append (request_redraw ∷ cs) ds = boots-append cs ds

boots-map : (es : List WindowEvent) → boots (map dispatch es) ≡ []
boots-map [] = refl
boots-map (e ∷ es) = boots-map es

boots-mouse_error : (e : Option Str) → boots (mouse_error e) ≡ []
boots-mouse_error none = refl
boots-mouse_error (some e) = refl

module _ (screen_width screen_height scale_factor : ℕ) where
  -- the events of the pointers' states, one pointer after the other
  abbrev pub pointed : List Pointer → Mouse → List WindowEvent
  pointed [] m = []
  pointed (p ∷ ps) m =
      let (events, m') = read_pointer screen_width screen_height scale_factor p.states m in
      events ++ pointed ps m'

  dispatched-read_pointers :
      (ps : List Pointer) (m : Mouse)
      → dispatched (read_pointers screen_width screen_height scale_factor ps m).0 ≡ pointed ps m
  unfolding read_pointers
  dispatched-read_pointers [] m = refl
  dispatched-read_pointers (p ∷ ps) m =
      let (events, m') = read_pointer screen_width screen_height scale_factor p.states m in
      let rest = (read_pointers screen_width screen_height scale_factor ps m').0 in
      simp (
        dispatched-append (map dispatch events),
        dispatched-append (mouse_error p.error),
        dispatched-map events,
        dispatched-mouse_error p.error,
        dispatched-read_pointers ps m',
      )

  boots-read_pointers :
      (ps : List Pointer) (m : Mouse)
      → boots (read_pointers screen_width screen_height scale_factor ps m).0 ≡ []
  unfolding read_pointers
  boots-read_pointers [] m = refl
  boots-read_pointers (p ∷ ps) m =
      let (events, m') = read_pointer screen_width screen_height scale_factor p.states m in
      simp (
        boots-append (map dispatch events),
        boots-append (mouse_error p.error),
        boots-map events,
        boots-mouse_error p.error,
        boots-read_pointers ps m',
      )

  -- what a round dispatches: the keys' events, then the mouse's
  pub round-dispatched :
      (es : List WindowEvent) (d : Option BootSelection) (ps : List Pointer) (m : Mouse) (b : Bool)
      → dispatched (
          map dispatch es
          ++ (boot_directly d
              ++ ((read_pointers screen_width screen_height scale_factor ps m).0
                  ++ redraw_requests b)))
        ≡ es ++ pointed ps m
  round-dispatched es d ps m b =
      let requests : dispatched (redraw_requests b) ≡ [] = elim (Bool-cases b) [
        | inl e ↦ rw e refl
        | inr e ↦ rw e refl
      ] in
      simp (
        dispatched-append (map dispatch es),
        dispatched-append (boot_directly d),
        dispatched-append (read_pointers screen_width screen_height scale_factor ps m).0,
        dispatched-map es,
        dispatched-boot d,
        dispatched-read_pointers ps m,
        requests,
        append-nil (pointed ps m),
      )

  -- what a round boots: what the keys asked for
  pub round-boots :
      (es : List WindowEvent) (d : Option BootSelection) (ps : List Pointer) (m : Mouse) (b : Bool)
      → boots (
          map dispatch es
          ++ (boot_directly d
              ++ ((read_pointers screen_width screen_height scale_factor ps m).0
                  ++ redraw_requests b)))
        ≡ boots (boot_directly d)
  round-boots es d ps m b =
      let requests : boots (redraw_requests b) ≡ [] = elim (Bool-cases b) [
        | inl e ↦ rw e refl
        | inr e ↦ rw e refl
      ] in
      simp (
        boots-append (map dispatch es),
        boots-append (boot_directly d),
        boots-append (read_pointers screen_width screen_height scale_factor ps m).0,
        boots-map es,
        boots-read_pointers ps m,
        requests,
        append-nil (boots (boot_directly d)),
      )
