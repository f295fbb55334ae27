-- ===== src/Device.antt =====
-- src/net.rs: the network device over the simple network protocol, which is a parameter on the world `W`.
-- A buffer is its bytes, and its address where that matters. A panic is `panicked`, and the loop over
-- the recycled buffers is on fuel.
pub mod Frames
pub mod Recycling
mod Tests
use webuiboot.Base.{
  ℕ, zero, suc, Bool, true, false, List, [], ◌∷◌, Option, none, some, if◌then◌else◌, ◌==◌, leb,
  length,
}
use webuiboot.Base.Arrays.{replicate}
use webuiboot.Text.Utf8.{Bytes}

pub data ReceiveFlag : Type 0 where
  unicast broadcast : ReceiveFlag

-- `get_recycled_transmit_buffer_status`: the address of a buffer, none, or an error
pub data Recycled : Type 0 where
  buffer_at : ℕ → Recycled
  no_buffer failed : Recycled

pub record SimpleNetwork (W : Type 0) : Type 0 where
  pub start : W → W
  pub initialize : ℕ → ℕ → W → W
  -- the flags to enable and to disable, and whether the multicast filter is reset
  pub receive_filters : List ReceiveFlag → List ReceiveFlag → Bool → W → W
  -- `mode().current_address`, of 32 bytes
  pub current_address : W → Bytes
  -- on the buffer: the size of the packet, or an error, and the buffer behind it
  pub receive : Bytes → W → Option ℕ × Bytes × W
  -- whether it succeeded
  pub transmit : Bytes → W → Bool × W
  pub get_recycled_transmit_buffer_status : W → Recycled × W

pub record UefiSnpDevice (W : Type 0) : Type 0 where
  pub snp : W
  pub rx_buffer : Bytes

abbrev pub take : ℕ → Bytes → Bytes
take zero s = []
take (suc n) [] = []
take (suc n) (b ∷ s) = b ∷ take n s

pub data Received (W : Type 0) : Type 0 where
  -- the buffer of the `UefiRxToken`
  token : Bytes → UefiSnpDevice W → Received W
  nothing : UefiSnpDevice W → Received W
  panicked : Received W

pub data Medium : Type 0 where
  ethernet : Medium

pub record DeviceCapabilities : Type 0 where
  pub max_transmission_unit : ℕ
  pub medium : Medium

abbrev pub capabilities : DeviceCapabilities
capabilities = record { max_transmission_unit = 1500; medium = ethernet }

module _ {W : Type 0} (snp : SimpleNetwork W) where
  unfoldable pub new : W → UefiSnpDevice W
  new w = record {
    snp = snp.receive_filters (unicast ∷ broadcast ∷ []) [] true (snp.initialize 0 0 (snp.start w));
    rx_buffer = replicate 2048 0;
  }

  -- `mac.0[0..6]`
  unfoldable pub mac_address : UefiSnpDevice W → Bytes
  mac_address d = take 6 (snp.current_address d.snp)

  -- `self.rx_buffer[..size]`
  abbrev pub rx_token : Option ℕ → UefiSnpDevice W → Received W
  rx_token none d = nothing d
  rx_token (some size) d =
      if leb size (length d.rx_buffer) then token (take size d.rx_buffer) d else panicked

  unfoldable pub receive : UefiSnpDevice W → Received W
  receive d =
      let (size, buffer, w) = snp.receive d.rx_buffer d.snp in
      rx_token size (record { snp = w; rx_buffer = buffer })

  -- the loop behind a transmission; `none` is out of fuel
  unfoldable pub wait_recycled : ℕ → ℕ → W → Option W
  wait_recycled zero address w = none
  wait_recycled (suc fuel) address w =
      let (recycled, w') = snp.get_recycled_transmit_buffer_status w in
      elim recycled [
        | no_buffer ↦ some w'
        | failed ↦ some w'
        | buffer_at a ↦
            let rest = wait_recycled fuel address w' in if a == address then some w' else rest
      ]

  -- `UefiTxToken::consume`: the closure fills a buffer of zeros, and its result is returned.
  unfoldable pub consume : {R : Type 0} → ℕ → ℕ → ℕ → (Bytes → R × Bytes) → W → Option (R × W)
  unfolding wait_recycled
  consume fuel address len f w =
      let (result, buffer) = f (replicate len 0) in
      let (sent, w') = snp.transmit buffer w in
      if sent
      then elim (wait_recycled fuel address w') [ none ↦ none | some w'' ↦ some (result, w'') ]
      else some (result, w')

-- `UefiRxToken::consume`
abbrev pub consume_rx : {R : Type 0} → Bytes → (Bytes → R) → R
consume_rx buffer f = f buffer
