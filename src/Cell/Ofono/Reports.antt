-- ===== src/Cell/Ofono/Reports.antt =====
-- What the listener of the ofono adapter is told.
use precision_location_lite.Base.{
  ℕ, Bool, true, false, not, List, [], ◌∷◌, ◌++◌, Option, none, some, Bytes, ◌≡◌, ◌≢◌, refl, sym,
  ap, ◌∙◌, Bool-cases, Option-cases, inl, inr, ◌⊎◌, >>=-eq-some, some_inj, some_pair_inj, arith,
  ◌&&◌,
}
use precision_location_lite.Api.Client.{ErrorCode, ok, is_empty}
use precision_location_lite.Base.Int.{ℤ, pos, negsuc, is_zero, sub_ℤ}
use precision_location_lite.Cell.{CellTower, equal, type_number}
use precision_location_lite.Cell.Order.{equal_self, equal_same}
use precision_location_lite.Cell.Scanned.{ScannedCellTower}
use precision_location_lite.Cell.Ofono.{
  Answer, Network, CellNotice, cell_changed, cell_error, is_cached, is_same, report, report_cell,
  property_changes, get_scanned_cell_tower, Members, Bus, open_adapter, get_imei, get_current_modem,
  read_imei, keep_imei, serial_of,
}

-- The tower that a listener knows after being told.
unfoldable pub told : Option ScannedCellTower → List CellNotice → Option ScannedCellTower
told known [] = known
told known (cell_changed [] ∷ notices) = told none notices
told known (cell_changed (cell ∷ cells) ∷ notices) = told (some cell) notices
told known (cell_error code ∷ notices) = told known notices

-- A tower that differs in its code or its strength from the one that is known, if one is.
abbrev pub IsOther : Option ScannedCellTower → ScannedCellTower → Type 0
IsOther none cell = Unit {0}
IsOther (some last) cell = ¬ ((last.cell ≡ cell.cell) × (last.rssi ≡ cell.rssi))

-- Towers of the same type, codes, cell number and strength; or no tower.
abbrev pub Agrees : Option ScannedCellTower → Option ScannedCellTower → Type 0
Agrees none none = Unit {0}
Agrees (some a) (some b) =
    (type_number a.cell.type ≡ type_number b.cell.type)
    × (a.cell.mcc ≡ b.cell.mcc)
    × (a.cell.mnc ≡ b.cell.mnc)
    × (a.cell.ci ≡ b.cell.ci)
    × (a.rssi ≡ b.rssi)
Agrees _ _ = ⊥

-- What a change makes of the tower that is kept: the one that ofono has, or where it fails, the old.
abbrev pub Sees : ℕ → Answer Network → Option ScannedCellTower → Option ScannedCellTower → Type 0
Sees tick network last last' =
    (code : ErrorCode) × (scanned : Option ScannedCellTower) × (get_scanned_cell_tower tick network
      ≡ some (code, scanned))
    × (((code ≡ ok) × Agrees last' scanned) ⊎ ((code ≢ ok) × (last' ≡ last)))

unfoldable pub Follows :
    Option ScannedCellTower → List (ℕ × Answer Network) → Option ScannedCellTower → Type 0
Follows last [] last' = last' ≡ last
Follows last ((tick, network) ∷ more) last' =
    (mid : Option ScannedCellTower) × Sees tick network last mid × Follows mid more last'

-- No news that the listener knows: a loss is told of a tower that was there, and a tower if it or its
-- strength is another than the one that was told last.
unfoldable pub IsNews : Option ScannedCellTower → List CellNotice → Type 0
IsNews known [] = Unit {0}
IsNews known (cell_changed [] ∷ notices) = (known ≢ none) × IsNews none notices
IsNews known (cell_changed (cell ∷ cells) ∷ notices) =
    IsOther known cell × IsNews (some cell) notices
IsNews known (cell_error code ∷ notices) = (code ≢ ok) × IsNews known notices

equal_int : (a b : ℤ) → is_zero (sub_ℤ a b) ≡ true → a ≡ b
equal_int (pos a) (pos b) h = ground arith
equal_int (pos a) (negsuc b) h = ground arith
equal_int (negsuc a) (pos b) h = ground arith
equal_int (negsuc a) (negsuc b) h = ground arith

no_difference : (a : ℤ) → is_zero (sub_ℤ a a) ≡ true
no_difference a = ground arith

both : (e b : Bool) → e && b ≡ true → (e ≡ true) × (b ≡ true)
both true true h = (refl, refl)
both true false h = cc
both false b h = cc

first_false : (e b : Bool) → b ≡ true → e && b ≡ false → e ≡ false
first_false true b h k = cc
first_false false b h k = refl

fresh-IsOther :
    (last : Option ScannedCellTower) (scanned : ScannedCellTower)
    → is_cached last scanned ≡ some false
    → IsOther last scanned
fresh-IsOther none scanned h = tt
fresh-IsOther (some last) scanned h = λ (same, strength).
    let (e, equals, out) = >>=-eq-some (equal last.cell scanned.cell) _ h in
    let differ : e ≡ false =
      first_false e (is_zero (sub_ℤ last.rssi scanned.rssi))
        (ap (λ (r : ℤ). is_zero (sub_ℤ r scanned.rssi)) strength ∙ no_difference scanned.rssi)
        (some_inj out) in
    equal_self scanned.cell
      (ap (λ (c : CellTower). equal c scanned.cell) (sym same) ∙ equals ∙ ap some differ)

same-Agrees :
    (last scanned : ScannedCellTower)
    → is_same last scanned ≡ some true
    → Agrees (some last) (some scanned)
same-Agrees last scanned h =
    let (e, equals, out) = >>=-eq-some (equal last.cell scanned.cell) _ h in
    let (cells, strength) = both e (is_zero (sub_ℤ last.rssi scanned.rssi)) (some_inj out) in
    let all = equal_same last.cell scanned.cell (equals ∙ ap some cells) in
    (all.0, all.1, all.2, all.3, equal_int last.rssi scanned.rssi strength)

cached-Agrees :
    (last : Option ScannedCellTower) (scanned : ScannedCellTower)
    → is_cached last scanned ≡ some true
    → Agrees last (some scanned)
cached-Agrees none scanned h = cc
cached-Agrees (some last) scanned h = same-Agrees last scanned h

-- What a report leaves and tells.
abbrev Reported :
    ErrorCode
    → Option ScannedCellTower
    → Option ScannedCellTower
    → Option ScannedCellTower
    → List CellNotice
    → Type 0
Reported code scanned last last' notices =
    (told last notices ≡ last')
    × IsNews last notices
    × (((code ≡ ok) × Agrees last' scanned) ⊎ ((code ≢ ok) × (last' ≡ last)))

report-Reported :
    (code : ErrorCode) (scanned last last' : Option ScannedCellTower) (notices : List CellNotice)
    → report code scanned last ≡ some (last', notices)
    → Reported code scanned last last' notices
unfolding report told IsNews
report-Reported ok none none last' notices h =
    let (p, q) = some_pair_inj h in rw (← q, ← p) (refl, tt, inl (refl, tt))
report-Reported ok none (some last) last' notices h =
    let (p, q) = some_pair_inj h in rw (← q, ← p) (refl, ((λ e. cc), tt), inl (refl, tt))
report-Reported ok (some scanned) last last' notices h =
    elim (Option-cases (is_cached last scanned)) [
      | inl failed ↦ cc (rw failed at h)
      | inr (true, cached) ↦
          let (p, q) = some_pair_inj (rw cached at h) in
          rw (← q, ← p) (refl, tt, inl (refl, cached-Agrees last scanned cached))
      | inr (false, fresh) ↦
          let (p, q) = some_pair_inj (rw fresh at h) in
          rw (← q, ← p)
            (
              refl,
              (fresh-IsOther last scanned fresh, tt),
              inl (refl, (refl, refl, refl, refl, refl)),
            )
    ]
report-Reported other scanned last last' notices h =
    let (p, q) = some_pair_inj h in rw (← q, ← p) (refl, ((λ e. cc), tt), inr ((λ e. cc), refl))

report_cell-Reported :
    (tick : ℕ) (network : Answer Network) (last last' : Option ScannedCellTower)
    (notices : List CellNotice)
    → report_cell tick network last ≡ some (last', notices)
    → (told last notices ≡ last') × IsNews last notices × Sees tick network last last'
unfolding report_cell
report_cell-Reported tick network last last' notices h =
    let ((code, scanned), scan, reported) = >>=-eq-some (get_scanned_cell_tower tick network) _ h in
    let (kept, news, seen) = report-Reported code scanned last last' notices reported in
    (kept, news, (code, scanned, scan, seen))

told-append :
    (known : Option ScannedCellTower) (notices more : List CellNotice)
    → told known (notices ++ more) ≡ told (told known notices) more
unfolding told
told-append known [] more = refl
told-append known (cell_changed [] ∷ notices) more = told-append none notices more
told-append known (cell_changed (cell ∷ cells) ∷ notices) more =
    told-append (some cell) notices more
told-append known (cell_error code ∷ notices) more = told-append known notices more

IsNews-append :
    (known : Option ScannedCellTower) (notices more : List CellNotice)
    → IsNews known notices
    → IsNews (told known notices) more
    → IsNews known (notices ++ more)
unfolding told IsNews
IsNews-append known [] more p q = q
IsNews-append known (cell_changed [] ∷ notices) more p q =
    (p.0, IsNews-append none notices more p.1 q)
IsNews-append known (cell_changed (cell ∷ cells) ∷ notices) more p q =
    (p.0, IsNews-append (some cell) notices more p.1 q)
IsNews-append known (cell_error code ∷ notices) more p q =
    (p.0, IsNews-append known notices more p.1 q)

-- Over any sequence of changes of ofono's properties in which no assertion fails, the adapter follows
-- what ofono answers: where it answers, the tower that is kept is the one of the answer in type, codes,
-- cell number and strength, or none if there is none; where it does not, the old one. The listener was
-- told the tower that is kept, and is told only news: that a tower was lost, where it had been told one; a tower, where its code or
-- its strength differs from that told last; and errors.
pub property_changes-IsNews :
    (changes : List (ℕ × Answer Network)) (last last' : Option ScannedCellTower)
    (notices : List CellNotice)
    → property_changes changes last ≡ some (last', notices)
    → (told last notices ≡ last') × IsNews last notices × Follows last changes last'
unfolding property_changes told IsNews Follows
property_changes-IsNews [] last last' notices h =
    let (p, q) = some_pair_inj h in rw (← q, ← p) (refl, tt, refl)
property_changes-IsNews ((tick, network) ∷ more) last last' notices h =
    let ((next, first), one, rest) = >>=-eq-some (report_cell tick network last) _ h in
    let ((final, others), others_told, out) = >>=-eq-some (property_changes more next) _ rest in
    let (p, q) = some_pair_inj out in
    let (kept, news, sees) = report_cell-Reported tick network last next first one in
    let (kept_on, more_news, follows) =
      property_changes-IsNews more next final others others_told in
    rw (← q, ← p)
      (
        told-append last first others
            ∙ ap (λ (k : Option ScannedCellTower). told k others) kept
            ∙ kept_on,
        IsNews-append last first others news (rw kept more_news),
        (next, sees, follows),
      )

keep_imei-connection :
    (serial : Option Bytes) (m : Members) → ((keep_imei serial m).2).connection ≡ m.connection
keep_imei-connection none m = refl
keep_imei-connection (some serial) m = refl

-- What `open` leaves of an adapter that is closed, if it fails.
open_adapter-error :
    (bus : Bus) (m m' : Members) (code : ErrorCode) (notices : List CellNotice)
    → m.connection ≡ false
    → open_adapter bus m ≡ some (code, m', notices)
    → (code ≡ ok) ⊎ (m'.connection ≡ false)
unfolding open_adapter
open_adapter-error bus m m' code notices closed h = elim (Bool-cases (not bus.connects)) [
  | inl no_bus ↦ inr (
      ap (λ (r : ErrorCode × Members × List CellNotice). (r.1).connection)
        (sym (some_inj (rw (closed, no_bus) at h))))
  | inr connected ↦ elim (Bool-cases (is_empty (get_current_modem bus.modems))) [
    | inl no_modem ↦ inr (
        ap (λ (r : ErrorCode × Members × List CellNotice). (r.1).connection)
          (sym (some_inj (rw (closed, connected, no_modem) at h))))
    | inr modem ↦
        let ((last, told), _, out) =
          >>=-eq-some (report_cell bus.tick bus.network m.last_cell) _
            (rw (closed, connected, modem) at h) in
        inl (ap (λ (r : ErrorCode × Members × List CellNotice). r.0) (sym (some_inj out)))
  ]
]

abbrev connection_of : ErrorCode × Bytes × Members × List CellNotice → Bool
connection_of r = (r.2).connection

-- What `getIMEI` leaves of an adapter that it opened or could not open.
unfoldable then_read :
    Bus → ErrorCode → Members → List CellNotice → ErrorCode × Bytes × Members × List CellNotice
unfolding read_imei
then_read bus code m notices =
    let read = read_imei bus true m in
    elim code [ ok ↦ (read.0, read.1, read.2, notices) | other ↦ (other, [], m, notices) ]

then_read-closed :
    (bus : Bus) (code : ErrorCode) (m : Members) (notices : List CellNotice)
    → (code ≡ ok) ⊎ (m.connection ≡ false)
    → connection_of (then_read bus code m notices) ≡ false
unfolding then_read read_imei
then_read-closed bus ok m notices h = refl
then_read-closed bus other m notices (inl h) = cc
then_read-closed bus other m notices (inr h) = h

-- `getIMEI` leaves the adapter open if it was, and closed if it was not.
pub get_imei-connection :
    (bus : Bus) (m m' : Members) (code : ErrorCode) (imei : Bytes) (notices : List CellNotice)
    → get_imei bus m ≡ some (code, imei, m', notices)
    → m'.connection ≡ m.connection
unfolding get_imei read_imei then_read
get_imei-connection bus m m' code imei notices h = elim (Bool-cases (not (is_empty m.imei))) [
  | inl known ↦ ap connection_of (sym (some_inj (rw known at h)))
  | inr unknown_yet ↦ elim (Bool-cases m.connection) [
    | inl opened ↦
        ap connection_of (sym (some_inj (rw (unknown_yet, opened) at h)))
        ∙ keep_imei-connection (serial_of bus.serial) (record m { connection = true })
        ∙ sym opened
    | inr closed ↦
        let ((got, m'', told), opening, out) =
          >>=-eq-some (open_adapter bus (record m { connection = false })) _
            (rw (unknown_yet, closed) at h) in
        ap connection_of (sym (some_inj out))
        ∙ then_read-closed bus got m'' told
            (open_adapter-error bus (record m { connection = false }) m'' got told refl opening)
        ∙ sym closed
  ]
]
