-- ===== src/Wifi/Nl80211/Power/Restored.antt =====
-- The adapter brings down only an interface that it has brought up.
use precision_location_lite.Base.{
  Bool, true, false, not, ◌&&◌, ◌||◌, some, if◌then◌else◌, ◌≡◌, refl, arith, Bool-cases, inl, inr,
  ◌⊎◌, >>=-eq-some, some_inj, some_pair_inj,
}
use precision_location_lite.Api.Client.{ErrorCode, is_ok}
use precision_location_lite.Wifi.Mac
use precision_location_lite.Wifi.Nl80211.{get_connected_mac}
use precision_location_lite.Wifi.Nl80211.Power.{
  Members, Link, is_initialized, change_power, power, open_adapter, close, new_adapter,
}

-- Calls of the adapter, whatever the calls that they make bring about, from one state to another.
pub data Steps : Members → Members → Type 0 where
  stay : (m : Members) → Steps m m
  power_step :
      (bring_up : Bool) (link : Link) (m m' m'' : Members) (code : ErrorCode)
      → Steps m m'
      → power bring_up link m' ≡ some (code, m'')
      → Steps m m''
  open_step :
      (event_fd created : Bool) (link : Link) (m m' m'' : Members) (code : ErrorCode)
      → Steps m m'
      → open_adapter event_fd created link m' ≡ some (code, m'')
      → Steps m m''
  close_step :
      (link : Link) (m m' m'' : Members) → Steps m m' → close link m' ≡ some m'' → Steps m m''

-- The interface is up if it was at first or the adapter is to bring it down, and not both.
abbrev pub Restores : Bool → Members → Type 0
Restores first m = (m.is_up ≡ first || m.should_bring_down) × (first && m.should_bring_down ≡ false)

change_power-Restores :
    (first bring_up : Bool) (link : Link) (m : Members)
    → Restores first m
    → Restores first (change_power bring_up link m).1
change_power-Restores first bring_up link m h = ground arith

power-Restores :
    (first bring_up : Bool) (link : Link) (m m' : Members) (code : ErrorCode)
    → Restores first m
    → power bring_up link m ≡ some (code, m')
    → Restores first m'
unfolding power get_connected_mac
power-Restores first bring_up link m m' code h p = elim (Bool-cases (not (is_initialized m))) [
  | inl not_yet ↦ rw (← (some_pair_inj (rw not_yet at p)).1) h
  | inr ready ↦
      let ((answer, mac), _, out) =
        >>=-eq-some (get_connected_mac link.associated true link.connected Mac.zero_mac) _
          (rw ready at p) in
      elim (Bool-cases (is_ok answer)) [
        | inl associated ↦ rw (← (some_pair_inj (rw associated at out)).1) h
        | inr alone ↦
            rw (← (some_pair_inj (rw alone at out)).1)
              (change_power-Restores first bring_up link m h)
      ]
]

if-cases :
    {A : Type 0} {x y z : A} (b : Bool)
    → (if b then x else y) ≡ z
    → ((b ≡ true) × (x ≡ z)) ⊎ ((b ≡ false) × (y ≡ z))
if-cases true p = inl (refl, p)
if-cases false p = inr (refl, p)

open_adapter-Restores :
    (first event_fd created : Bool) (link : Link) (m m' : Members) (code : ErrorCode)
    → Restores first m
    → open_adapter event_fd created link m ≡ some (code, m')
    → Restores first m'
unfolding open_adapter
open_adapter-Restores first event_fd created link m m' code h p =
    elim (if-cases (not (is_initialized m)) p) [
      | inl (_, not_yet) ↦ rw (← (some_pair_inj not_yet).1) h
      | inr (_, ready) ↦ elim (if-cases m.listening_thread ready) [
        | inl (_, is_open) ↦ rw (← (some_pair_inj is_open).1) h
        | inr (_, closed) ↦ elim (if-cases (not (event_fd && created)) closed) [
          | inl (_, failed) ↦ rw (← (some_pair_inj failed).1) h
          | inr (_, started) ↦
              let ((answer, powered), powering, out) =
                >>=-eq-some (power true link (record m { listening_thread = true })) _ started in
              rw (← (some_pair_inj out).1) (
                power-Restores first true link (record m { listening_thread = true }) powered answer
                  h powering)
        ]
      ]
    ]

close-Restores :
    (first : Bool) (link : Link) (m m' : Members)
    → Restores first m
    → close link m ≡ some m'
    → Restores first m'
unfolding close
close-Restores first link m m' h p = elim (Bool-cases m.listening_thread) [
  | inl is_open ↦
      let ((answer, powered), powering, out) =
        >>=-eq-some (power false link (record m { listening_thread = false })) _
          (rw is_open at p) in
      rw (← some_inj out) (
        power-Restores first false link (record m { listening_thread = false }) powered answer h
          powering)
  | inr closed ↦ rw (← some_inj (rw closed at p)) h
]

steps-Restores_from :
    (first : Bool) (m m' : Members) → Restores first m → Steps m m' → Restores first m'
steps-Restores_from first m m' h (stay _) = h
steps-Restores_from first m m' h (power_step bring_up link _ before _ code steps p) =
    power-Restores first bring_up link before m' code (steps-Restores_from first m before h steps) p
steps-Restores_from first m m' h (open_step event_fd created link _ before _ code steps p) =
    open_adapter-Restores first event_fd created link before m' code
      (steps-Restores_from first m before h steps) p
steps-Restores_from first m m' h (close_step link _ before _ steps p) =
    close-Restores first link before m' (steps-Restores_from first m before h steps) p

-- An adapter that is made on an interface, whichever of its calls follow one another and whatever the
-- calls that they make bring about: the interface is up exactly if it was up at first or the adapter
-- is to bring it down, so that one that was up stays up, and one that was down is up only as long as
-- the adapter is to bring it down.
pub steps-Restores :
    (first nl80211 route connected resolved connected_route : Bool) (m : Members)
    → Steps (new_adapter first nl80211 route connected resolved connected_route) m
    → Restores first m
steps-Restores first nl80211 route connected resolved connected_route m steps =
    steps-Restores_from first _ m (ground arith) steps
