-- ===== src/Futures/Polls.antt =====
-- The two polls of the input's sleep of src/futures.rs.
use webuiboot.Base.{
  ℕ, ◌≡◌, refl, ◌∙◌, Bool, false, ◌||◌, List, [], ◌∷◌, ◌++◌, Option, none, some, ◌==◌, arith,
}
use webuiboot.Executor.{TaskId, Event, ready, pending, Effect, wake, register}
use webuiboot.Executor.Events.{registers}
use webuiboot.Futures
use webuiboot.Futures.{
  Timers, Sleep, ticks, registered, all_registered, start_positive, poll_slint_sleep,
}

-- The event is among those that could be had.
abbrev pub listed : List (Option Event) → Event → Bool
listed [] e = false
listed (none ∷ os) e = listed os e
listed (some d ∷ os) e = d == e || listed os e

registers-append :
    (es fs : List Effect) (e : Event) → registers (es ++ fs) e ≡ (registers es e || registers fs e)
registers-append [] fs e = refl
registers-append (wake j ∷ es) fs e = registers-append es fs e
registers-append (register d ∷ es) fs e = ground (arith, registers-append es fs e)

listed-append :
    (os ps : List (Option Event)) (e : Event) → listed (os ++ ps) e ≡ (listed os e || listed ps e)
listed-append [] ps e = refl
listed-append (none ∷ os) ps e = listed-append os ps e
listed-append (some d ∷ os) ps e = ground (arith, listed-append os ps e)

registers-registered :
    (o : Option Event) (e : Event) → registers (registered o) e ≡ listed (o ∷ []) e
registers-registered none e = refl
registers-registered (some d) e = refl

registers-all_registered :
    (os : List (Option Event)) (e : Event) → registers (all_registered os) e ≡ listed os e
registers-all_registered [] e = refl
registers-all_registered (none ∷ os) e = registers-all_registered os e
registers-all_registered (some d ∷ os) e = ground (arith, registers-all_registered os e)

module _ {W : Type 0} (fw : Timers W) (id : TaskId) (duration : ℕ) (w : W) where
  -- the events that the first poll asks for, in order
  abbrev pub asked : List (Option Event)
  asked =
      let (key, w1) = fw.key_event w in
      let (inputs, w2) = fw.input_events w1 in
      (key ∷ inputs) ++ (start_positive fw (ticks duration) w2).0 ∷ []

  -- `SlintSleepFuture` is not ready at its first poll, and is at its second, in whatever task and
  -- world. The first registers exactly the events of the keyboard, the pointers and the timer that
  -- could be had.
  pub slint_sleep_lem :
      (s : Sleep) × ((poll_slint_sleep fw id (webuiboot.Futures.new duration) w).outcome
        ≡ pending s)
      × ((e : Event)
          → registers (poll_slint_sleep fw id (webuiboot.Futures.new duration) w).effects e
            ≡ listed asked e)
      × ((id' : TaskId) (w' : W) → (poll_slint_sleep fw id' s w').outcome ≡ ready)
  unfolding poll_slint_sleep
  slint_sleep_lem = (_, refl, λ e. registers-asked e, λ id' w'. refl)
    where
      registers-asked :
          (e : Event)
          → registers (poll_slint_sleep fw id (webuiboot.Futures.new duration) w).effects e
            ≡ listed asked e
      registers-asked e =
          let (key, w1) = fw.key_event w in
          let (inputs, w2) = fw.input_events w1 in
          let timer = (start_positive fw (ticks duration) w2).0 in
          registers-append (registered key ++ all_registered inputs) (registered timer) e
          ∙ ground (
            arith,
            registers-append (registered key) (all_registered inputs) e,
            registers-registered key e,
            registers-registered timer e,
            registers-all_registered inputs e,
            listed-append (key ∷ inputs) (timer ∷ []) e,
            listed-append (key ∷ []) inputs e,
          )
