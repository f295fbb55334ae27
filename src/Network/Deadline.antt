-- ===== src/Network/Deadline.antt =====
-- How long src/main.rs's `run_network` keeps a boot pending.
use webuiboot.Base.{
  ℕ, zero, suc, ◌+◌, ◌≤◌, ◌<◌, ◌≡◌, refl, ◌∙◌, ap, subst, true, false, List, [], ◌∷◌, Option, none,
  some, leb, arith, Bool-cases, inl, inr,
}
use webuiboot.Text.{Str}
use webuiboot.Web.{BootSelection, Parse}
use webuiboot.Network.{Net, Waiting, nothing_pending, elapsed, due, release, network_round}
use webuiboot.Network.Pending.{selected, asked_world, chosen, round-release}

abbrev pub listed : Option BootSelection → List BootSelection → List BootSelection
listed none bs = bs
listed (some s) bs = s ∷ bs

abbrev pub pending_since : BootSelection → ℕ → Waiting
pending_since s t = record { pending_boot = some s; pending_boot_time = some t }

module _ {W : Type 0} (net : Net W) (parse : Parse) (html_ui : Str) where
  due_late :
      (ms t : ℕ) (w : W) (p : Waiting)
      → p.pending_boot_time ≡ some t
      → t + 500 ≤ ms
      → due net parse html_ui ms w p ≡ true
  due_late ms t w p h l = rw h (ground arith)

  release-late :
      (o : Option BootSelection) (s : BootSelection) (ms : ℕ) (w : W) (p : Waiting)
      → p.pending_boot ≡ o
      → (release net parse html_ui o ms w p).1.pending_boot ≡ some s
      → leb 500 (elapsed ms (release net parse html_ui o ms w p).1.pending_boot_time) ≡ false
  release-late none s ms w p h e = cc
  release-late (some s') s ms w p h e = elim (Bool-cases (due net parse html_ui ms w p)) [
    | inl d ↦ rw d refl
    | inr d ↦ rw d (ground arith)
  ]

  -- While the network is there, a boot that is still pending behind a round has been pending for
  -- less than 500 milliseconds by the clock of the round.
  pub network_round-in_time :
      (w : W) (p : Waiting) (s : BootSelection)
      → net.has_net w ≡ true
      → (network_round net parse html_ui w p).1.pending_boot ≡ some s
      → elapsed (net.get_ms_since_start w) (network_round net parse html_ui w p).1.pending_boot_time
        < 500
  network_round-in_time w p s h e =
      let ms = net.get_ms_since_start w in
      let (kept, booted) = round-release net parse html_ui w p h in
      let current = chosen net parse html_ui w p in
      let early =
        release-late current.pending_boot s ms (asked_world net parse html_ui w p) current refl
          (rw kept at e) in
      rw kept (ground (arith, early))

  quiet-round :
      (w : W) (p : Waiting)
      → net.has_net w ≡ true
      → selected net parse html_ui w ≡ none
      → ((network_round net parse html_ui w p).1
          ≡ (release net parse html_ui p.pending_boot
              (net.get_ms_since_start w)
              (asked_world net parse html_ui w p)
              p).1)
        × ((network_round net parse html_ui w p).2
            ≡ (release net parse html_ui p.pending_boot
                (net.get_ms_since_start w)
                (asked_world net parse html_ui w p)
                p).0)
  quiet-round w p h q =
      let c : chosen net parse html_ui w p ≡ p = rw q refl in
      subst
        (λ x.
          ((network_round net parse html_ui w p).1
            ≡ (release net parse html_ui x.pending_boot (net.get_ms_since_start w)
                (asked_world net parse html_ui w p) x).1)
          × ((network_round net parse html_ui w p).2
              ≡ (release net parse html_ui x.pending_boot (net.get_ms_since_start w)
                  (asked_world net parse html_ui w p) x).0))
        c (round-release net parse html_ui w p h)

  module _ (sleep : W → W) where
    -- What is booted in so many rounds, with a sleep behind each.
    abbrev pub boots : ℕ → W → Waiting → List BootSelection
    boots zero w p = []
    boots (suc n) w p =
        let (w', p', b) = network_round net parse html_ui w p in listed b (boots n (sleep w') p')

    -- No request selects a boot in these rounds, and the network stays.
    abbrev pub Quiet : ℕ → W → Waiting → Type 0
    Quiet zero w p = Unit
    Quiet (suc n) w p =
        let (w', p', b) = network_round net parse html_ui w p in
        (net.has_net w ≡ true) × (selected net parse html_ui w ≡ none) × Quiet n (sleep w') p'

    -- the clock of the last round
    abbrev pub clock_after : ℕ → W → Waiting → ℕ
    clock_after zero w p = net.get_ms_since_start w
    clock_after (suc n) w p =
        let (w', p', b) = network_round net parse html_ui w p in clock_after n (sleep w') p'

    boots-nothing : (n : ℕ) (w : W) → Quiet n w nothing_pending → boots n w nothing_pending ≡ []
    boots-nothing zero w q = refl
    boots-nothing (suc n) w (h, q, later) =
        let (kept, booted) = quiet-round w nothing_pending h q in
        let w' = sleep (network_round net parse html_ui w nothing_pending).0 in
        rw (kept, booted) (boots-nothing n w' (rw kept at later))

    boots-now :
        (n : ℕ) (w : W) (s : BootSelection) (t : ℕ)
        → Quiet n
            (sleep (network_round net parse html_ui w (pending_since s t)).0)
            (network_round net parse html_ui w (pending_since s t)).1
        → (network_round net parse html_ui w (pending_since s t)).1 ≡ nothing_pending
        → (network_round net parse html_ui w (pending_since s t)).2 ≡ some s
        → boots (suc n) w (pending_since s t) ≡ s ∷ []
    boots-now n w s t later kept booted =
        let w' = sleep (network_round net parse html_ui w (pending_since s t)).0 in
        rw (kept, booted) (ap (λ x. s ∷ x) (boots-nothing n w' (rw kept at later)))

    -- A boot that is pending since the time `t`, in rounds in which the network is there and no
    -- request selects a boot: if the clock of the last of them is at `t + 500` milliseconds or
    -- later, the boot happens in one of these rounds, once, and no other.
    pub boots_by_deadline :
        (n : ℕ) (w : W) (s : BootSelection) (t : ℕ)
        → Quiet (suc n) w (pending_since s t)
        → t + 500 ≤ clock_after n w (pending_since s t)
        → boots (suc n) w (pending_since s t) ≡ s ∷ []
    boots_by_deadline zero w s t (h, q, later) l =
        let p = pending_since s t in
        let (kept, booted) = quiet-round w p h q in
        let asked = asked_world net parse html_ui w p in
        let d = due_late (net.get_ms_since_start w) t asked p refl l in
        boots-now zero w s t later (kept ∙ rw d refl) (booted ∙ rw d refl)
    boots_by_deadline (suc n) w s t (h, q, later) l =
        let p = pending_since s t in
        let ms = net.get_ms_since_start w in
        let (kept, booted) = quiet-round w p h q in
        let w' = sleep (network_round net parse html_ui w p).0 in
        elim (Bool-cases (due net parse html_ui ms (asked_world net parse html_ui w p) p)) [
          | inl d ↦ boots-now (suc n) w s t later (kept ∙ rw d refl) (booted ∙ rw d refl)
          | inr d ↦
              let same : (network_round net parse html_ui w p).1 ≡ p = kept ∙ rw d refl in
              let quiet : (network_round net parse html_ui w p).2 ≡ none = booted ∙ rw d refl in
              rw (same, quiet) (boots_by_deadline n w' s t (rw same at later) (rw same at l))
        ]
