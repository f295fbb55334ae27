-- ===== src/Network/Pending.antt =====
-- The pending boot of src/main.rs's `run_network`.
use webuiboot.Base.{
  ℕ, ◌≡◌, refl, true, Option, none, some, if◌then◌else◌, is_empty, Bool-cases, inl, inr, ◌⊎◌,
}
use webuiboot.Text.{Str}
use webuiboot.Text.Utf8.{Bytes}
use webuiboot.Web.{BootSelection, Parse, handle_http_request}
use webuiboot.Network.{
  Net, Waiting, select, respond, answer_request, receive, due, release, serve, network_round,
}

-- The one that was asked for last.
abbrev pub latest : Option BootSelection → Option BootSelection → Option BootSelection
latest none before = before
latest (some s) before = some s

abbrev selection_of : Option (Str × Option BootSelection) → Option BootSelection
selection_of none = none
selection_of (some (response, selection)) = selection

select-latest :
    (ms : ℕ) (o : Option BootSelection) (p : Waiting)
    → (select ms o p).pending_boot ≡ latest o p.pending_boot
select-latest ms none p = refl
select-latest ms (some s) p = refl

module _ {W : Type 0} (net : Net W) (parse : Parse) (html_ui : Str) where
  abbrev requested : Option Bytes → Option BootSelection
  requested none = none
  requested (some request) =
      if is_empty request then none else selection_of (handle_http_request parse html_ui request)

  -- What the request selects that is read in this round.
  abbrev pub selected : W → Option BootSelection
  selected w =
      let (ip, w1) = serve net parse html_ui (net.get_ms_since_start w) w in
      if net.can_recv w1 then requested (net.recv_slice w1).0 else none

  respond-pending :
      (ms : ℕ) (o : Option (Str × Option BootSelection)) (w : W) (p : Waiting)
      → (respond net parse html_ui ms o w p).1 ≡ select ms (selection_of o) p
  respond-pending ms none w p = refl
  respond-pending ms (some (response, selection)) w p = refl

  answer_request-pending :
      (ms : ℕ) (o : Option Bytes) (w : W) (p : Waiting)
      → (answer_request net parse html_ui ms o w p).1 ≡ select ms (requested o) p
  answer_request-pending ms none w p = refl
  answer_request-pending ms (some request) w p = elim (Bool-cases (is_empty request)) [
    | inl e ↦ rw e refl
    | inr e ↦ rw e (respond-pending ms (handle_http_request parse html_ui request) w p)
  ]

  receive-pending :
      (ms : ℕ) (w : W) (p : Waiting)
      → (receive net parse html_ui ms w p).1
        ≡ select ms (if net.can_recv w then requested (net.recv_slice w).0 else none) p
  unfolding receive
  receive-pending ms w p = elim (Bool-cases (net.can_recv w)) [
    | inl e ↦ rw e (answer_request-pending ms (net.recv_slice w).0 (net.recv_slice w).1 p)
    | inr e ↦ rw e refl
  ]

  -- the world in which the pending boot is looked at
  abbrev pub asked_world : W → Waiting → W
  asked_world w p =
      let ms = net.get_ms_since_start w in
      (receive net parse html_ui ms (serve net parse html_ui ms w).1 p).0

  abbrev pub chosen : W → Waiting → Waiting
  chosen w p = select (net.get_ms_since_start w) (selected w) p

  pub round-release :
      (w : W) (p : Waiting)
      → net.has_net w ≡ true
      → ((network_round net parse html_ui w p).1
          ≡ (release net parse html_ui
              (chosen w p).pending_boot
              (net.get_ms_since_start w)
              (asked_world w p)
              (chosen w p)).1)
        × ((network_round net parse html_ui w p).2
            ≡ (release net parse html_ui
                (chosen w p).pending_boot
                (net.get_ms_since_start w)
                (asked_world w p)
                (chosen w p)).0)
  unfolding network_round
  round-release w p h =
      let ms = net.get_ms_since_start w in
      let e = receive-pending ms (serve net parse html_ui ms w).1 p in rw (h, e) (refl, refl)

  -- what `release` does with the pending boot
  abbrev pub Released : Option BootSelection → Option BootSelection → Option BootSelection → Type 0
  Released current b after = ((b ≡ none) × (after ≡ current)) ⊎ ((b ≡ current) × (after ≡ none))

  release_lem :
      (o : Option BootSelection) (ms : ℕ) (w : W) (p : Waiting)
      → p.pending_boot ≡ o
      → Released o
          (release net parse html_ui o ms w p).0
          (release net parse html_ui o ms w p).1.pending_boot
  release_lem none ms w p h = inl (refl, h)
  release_lem (some s) ms w p h = elim (Bool-cases (due net parse html_ui ms w p)) [
    | inl e ↦ rw e (inr (refl, refl))
    | inr e ↦ rw e (inl (refl, h))
  ]

  -- While the network is there, a round loses no selection and makes none up: the one that its
  -- request makes, or else the one that was pending, is booted and then no longer pending, or is
  -- not booted and pending.
  pub network_round-Released :
      (w : W) (p : Waiting)
      → net.has_net w ≡ true
      → Released
          (latest (selected w) p.pending_boot)
          (network_round net parse html_ui w p).2
          (network_round net parse html_ui w p).1.pending_boot
  network_round-Released w p h =
      let ms = net.get_ms_since_start w in
      let (kept, booted) = round-release w p h in
      rw (kept, booted, ← select-latest ms (selected w) p)
        (release_lem (chosen w p).pending_boot ms (asked_world w p) (chosen w p) refl)
