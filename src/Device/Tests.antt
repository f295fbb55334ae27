-- ===== src/Device/Tests.antt =====
-- Packets for the device of src/net.rs.
use webuiboot.Base.{ℕ, ◌≡◌, refl, true, Option, List, [], ◌∷◌, none, some, length, arith}
use webuiboot.Base.Arrays.{replicate}
use webuiboot.Text.Utf8.{Bytes}
use webuiboot.Device.{
  SimpleNetwork, Recycled, buffer_at, no_buffer, UefiSnpDevice, receive, consume,
}
use webuiboot.Device.Frames.{KeepsSize, FitsBuffer, Gives, receive-Gives}
use webuiboot.Device.Recycling.{Counts, Waits, consume-ends}

abbrev read_one : Bytes → List ℕ → Option ℕ × Bytes × List ℕ
read_one [] w = (none, [], w)
read_one (b ∷ s) w = (some 1, 9 ∷ s, w)

abbrev hand_back : List ℕ → Recycled × List ℕ
hand_back [] = (no_buffer, [])
hand_back (a ∷ w) = (buffer_at a, w)

-- A card whose state is the addresses of the buffers that it holds: it receives packets of one byte.
abbrev card : SimpleNetwork (List ℕ)
card = record {
  start = λ w. w;
  initialize = λ a b w. w;
  receive_filters = λ on off reset w. w;
  current_address = λ w. replicate 32 7;
  receive = read_one;
  transmit = λ s w. (true, w);
  get_recycled_transmit_buffer_status = hand_back;
}

abbrev device : UefiSnpDevice (List ℕ)
device = record { snp = []; rx_buffer = 0 ∷ 0 ∷ 0 ∷ [] }

card-KeepsSize : KeepsSize card
card-KeepsSize [] w = refl
card-KeepsSize (b ∷ s) w = refl

card-FitsBuffer : FitsBuffer card
card-FitsBuffer [] w n e = absurd cc
card-FitsBuffer (b ∷ s) w n e = ground (arith, e)

card-Counts : Counts card (λ w. length w)
card-Counts [] a e = absurd cc
card-Counts (b ∷ w) a e = omega arith

receive-Gives_example : Gives card (some 1) (9 ∷ 0 ∷ 0 ∷ []) (receive card device)
receive-Gives_example = receive-Gives card device card-KeepsSize card-FitsBuffer

-- The closure writes two bytes, and returns a number.
abbrev write_two : Bytes → ℕ × Bytes
write_two s = (5, 1 ∷ 2 ∷ [])

-- The card holds another buffer, and behind it the one at 8.
consume-ends_example :
    (w' : List ℕ) × (consume card 3 8 2 write_two (6 ∷ 8 ∷ []) ≡ some (5, w'))
    × Waits card 8 (6 ∷ 8 ∷ []) w'
consume-ends_example =
    consume-ends card (λ w. length w) 3 8 2 write_two (6 ∷ 8 ∷ []) card-Counts (omega arith)
