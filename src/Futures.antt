-- ===== src/Futures.antt =====
-- src/futures.rs: the futures that sleep. The firmware's events and timers are parameters.
pub mod Polls
pub mod Tasks
pub mod Stuck
mod Tests
use webuiboot.Base.{
  ℕ, zero, suc, ◌+◌, ◌/◌, ◌%◌, ◌^◌, Bool, true, false, List, [], ◌∷◌, ◌++◌, Option, none, some, ltb,
  if◌then◌else◌,
}
use webuiboot.Executor.{TaskId, Event, Poll, ready, pending, Effect, register, Polled}

pub record Timers (W : Type 0) : Type 0 where
  -- `create_event` of a timer
  pub create_event : W → Option Event × W
  pub set_timer : Event → ℕ → W → W
  -- `get_packet_wait_event`
  pub packet_wait_event : W → Option Event × W
  -- `wait_for_key_event` of the standard input
  pub key_event : W → Option Event × W
  -- `wait_for_input_event` of each of the pointers
  pub input_events : W → List (Option Event) × W

pub record Sleep : Type 0 where
  pub timer_event : Option Event
  pub is_started : Bool
  -- in nanoseconds
  pub duration : ℕ

abbrev pub new : ℕ → Sleep
new duration = record { timer_event = none; is_started = false; duration = duration }

-- `NetworkSleepFuture` has no duration.
abbrev pub new_network_sleep : Sleep
new_network_sleep = new 0

-- `Drop`: the event is taken out, and nothing closes it.
abbrev pub drop : Sleep → Sleep
drop s = record s { timer_event = none }

-- The `packet_wait_event` of a build without the feature `wait-packet-workaround`, from whether `GLOBAL_NET`
-- is set and the event of its card; with the feature, which is the default, there is none.
abbrev pub get_packet_wait_event :
    {W : Type 0} → (W → Bool) → (W → Option Event × W) → W → Option Event × W
get_packet_wait_event has_net wait_for_packet_event w =
    if has_net w then wait_for_packet_event w else (none, w)

-- `(self.duration.as_nanos() / 100) as u64`
abbrev pub ticks : ℕ → ℕ
ticks duration = duration / 100 % 2 ^ 64

abbrev pub registered : Option Event → List Effect
registered none = []
registered (some e) = register e ∷ []

abbrev pub all_registered : List (Option Event) → List Effect
all_registered [] = []
all_registered (o ∷ os) = registered o ++ all_registered os

-- the first poll's end
abbrev pub sleeping : {W : Type 0} → Sleep → List Effect → Option Event → W → Polled Sleep W
sleeping s effects timer w = record {
  effects = effects ++ registered timer;
  outcome = pending (record s { is_started = true; timer_event = timer });
  world = w;
}

-- any poll but the first
abbrev pub awoken : {W : Type 0} → W → Polled Sleep W
awoken w = record { effects = []; outcome = ready; world = w }

module _ {W : Type 0} (fw : Timers W) where
  -- A timer that is created is set.
  abbrev pub set_created : ℕ → Option Event × W → Option Event × W
  set_created n (none, w) = (none, w)
  set_created n (some e, w) = (some e, fw.set_timer e n w)

  abbrev pub start_timer : ℕ → W → Option Event × W
  start_timer n w = set_created n (fw.create_event w)

  -- `if ticks > 0`
  abbrev pub start_positive : ℕ → W → Option Event × W
  start_positive n w = let started = start_timer n w in if ltb 0 n then started else (none, w)

module _ {W : Type 0} (fw : Timers W) where
  unfoldable pub poll_timer_sleep : TaskId → Sleep → W → Polled Sleep W
  poll_timer_sleep id s w =
      let (timer, w') = start_positive fw (ticks s.duration) w in
      if s.is_started then awoken w else sleeping s [] timer w'

  -- The duration is the 100000 ticks of the source, whatever the field says.
  unfoldable pub poll_network_sleep : TaskId → Sleep → W → Polled Sleep W
  poll_network_sleep id s w =
      let (packet, w1) = fw.packet_wait_event w in
      let (timer, w2) = start_timer fw 100000 w1 in
      if s.is_started then awoken w else sleeping s (registered packet) timer w2

  unfoldable pub poll_slint_sleep : TaskId → Sleep → W → Polled Sleep W
  poll_slint_sleep id s w =
      let (key, w1) = fw.key_event w in
      let (inputs, w2) = fw.input_events w1 in
      let (timer, w3) = start_positive fw (ticks s.duration) w2 in
      if s.is_started
      then awoken w
      else sleeping s (registered key ++ all_registered inputs) timer w3
