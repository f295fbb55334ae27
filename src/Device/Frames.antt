-- ===== src/Device/Frames.antt =====
-- What is received, and the address.
use webuiboot.Base.{
  ℕ, zero, suc, ◌≤◌, ◌<◌, ◌≡◌, refl, true, [], ◌∷◌, Option, none, some, inl, inr, leb, length,
  arith, get_elem?, Option-cases,
}
use webuiboot.Text.Utf8.{Bytes}
use webuiboot.Device.{
  SimpleNetwork, UefiSnpDevice, take, Received, token, nothing, panicked, receive,
}

length-take : (n : ℕ) (s : Bytes) → n ≤ length s → length (take n s) ≡ n
length-take zero s h = refl
length-take (suc n) [] h = omega arith
length-take (suc n) (b ∷ s) h = omega (arith, length-take n s (omega arith))

get_elem?-take : (n : ℕ) (s : Bytes) (i : ℕ) → i < n → get_elem? (take n s) i ≡ get_elem? s i
get_elem?-take zero s i h = absurd (omega arith)
get_elem?-take (suc n) [] i h = refl
get_elem?-take (suc n) (b ∷ s) zero h = refl
get_elem?-take (suc n) (b ∷ s) (suc i) h = get_elem?-take n s i (omega arith)

-- Bytes that are the first ones of the others.
abbrev pub IsPrefix : ℕ → Bytes → Bytes → Type 0
IsPrefix n s t = (length s ≡ n) × ((i : ℕ) → i < n → get_elem? s i ≡ get_elem? t i)

take-IsPrefix : (n : ℕ) (s : Bytes) → n ≤ length s → IsPrefix n (take n s) s
take-IsPrefix n s h = (length-take n s h, λ i k. get_elem?-take n s i k)

module _ {W : Type 0} (snp : SimpleNetwork W) where
  -- The firmware leaves a buffer its size.
  abbrev pub KeepsSize : Type 0
  KeepsSize = (s : Bytes) (w : W) → length (snp.receive s w).1 ≡ length s

  -- The size of a packet is not above the buffer's.
  abbrev pub FitsBuffer : Type 0
  FitsBuffer = (s : Bytes) (w : W) (n : ℕ) → (snp.receive s w).0 ≡ some n → n ≤ length s

  -- What it gives: nothing on an error, and else the bytes of the packet.
  abbrev pub Gives : Option ℕ → Bytes → Received W → Type 0
  Gives size buffer (token s d) =
      (n : ℕ) × (size ≡ some n) × IsPrefix n s buffer × (d.rx_buffer ≡ buffer)
  Gives size buffer (nothing d) = (size ≡ none) × (d.rx_buffer ≡ buffer)
  Gives size buffer panicked = ⊥

  -- Receiving does not panic, where the firmware gives no size above its buffer's: an error gives
  -- nothing, and a packet gives a token of just its bytes. The device keeps the buffer as the firmware
  -- leaves it, whose size does not change.
  pub receive-Gives :
      (d : UefiSnpDevice W)
      → KeepsSize
      → FitsBuffer
      → Gives (snp.receive d.rx_buffer d.snp).0 (snp.receive d.rx_buffer d.snp).1 (receive snp d)
  unfolding receive
  receive-Gives d k f = elim (Option-cases (snp.receive d.rx_buffer d.snp).0) [
    | inl e ↦ rw (e, receive) (refl, refl)
    | inr (n, e) ↦
        let h : n ≤ length (snp.receive d.rx_buffer d.snp).1 =
          omega (arith, f d.rx_buffer d.snp n e, k d.rx_buffer d.snp) in
        let fits : leb n (length (snp.receive d.rx_buffer d.snp).1) ≡ true = ground arith in
        rw (receive, e, fits) (n, refl, take-IsPrefix n (snp.receive d.rx_buffer d.snp).1 h, refl)
  ]
