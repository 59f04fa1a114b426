-- ===== src/Safety/Calendar/Cells.antt =====
-- safety/views.py: a cell of the calendar against the sessions of the worker.
use icmp.Base.{
  ℕ, zero, suc, ◌≡◌, refl, sym, ap, ◌∙◌, Bool, true, false, Option, none, some, List, [], ◌∷◌, map,
  All, select, ◌==◌, Bool-cases, inl, inr, arith, if◌then◌else◌, Dict, lookup, insert,
  lookup-insert, nat_eq, ==_iff,
}
use icmp.Safety.{SafetyCheckSession}
use icmp.Safety.Calendar.{
  Dates, CalendarCell, blank, cell_with, fill, is_in, cell_of, build_calendar,
}

-- The session found later, or this one if it is on the date.
abbrev pick : Option SafetyCheckSession → Bool → SafetyCheckSession → Option SafetyCheckSession
pick (some t) own s = some t
pick none true s = some s
pick none false s = none

-- The last session of a list on a date.
pub last_on : ℕ → List SafetyCheckSession → Option SafetyCheckSession
last_on d [] = none
last_on d (s ∷ ss) = pick (last_on d ss) (s.check_date == d) s

-- The cell of a day by a search through all sessions.
pub direct_cell : Dates → List SafetyCheckSession → ℕ → ℕ → ℕ → CalendarCell
direct_cell dates sessions year month zero = blank
direct_cell dates sessions year month (suc n) =
    let d = dates.date year month (suc n) in cell_with (suc n) d (last_on d sessions)

-- The days of monthcalendar, but for the zeros, are dates of the month.
abbrev IsDay : Dates → ℕ → ℕ → ℕ → Type 0
IsDay dates year month zero = Unit
IsDay dates year month (suc n) =
    (dates.year (dates.date year month (suc n)) ≡ year)
    × (dates.month (dates.date year month (suc n)) ≡ month)

pub record IsCalendar (dates : Dates) : Type 0 where
  pub days : (year month : ℕ) → All (All (IsDay dates year month)) (dates.monthcalendar year month)

abbrev or_else : Option SafetyCheckSession → Option SafetyCheckSession → Option SafetyCheckSession
or_else (some t) o = some t
or_else none o = o

or_else-pick :
    (o k : Option SafetyCheckSession) (b : Bool) (s : SafetyCheckSession)
    → or_else o (if b then some s else k) ≡ or_else (pick o b s) k
or_else-pick (some t) k b s = refl
or_else-pick none k true s = refl
or_else-pick none k false s = refl

pick-false : (o : Option SafetyCheckSession) (s : SafetyCheckSession) → pick o false s ≡ o
pick-false none s = refl
pick-false (some t) s = refl

lookup-fill :
    (d : ℕ) (ss : List SafetyCheckSession) (m : Dict ℕ SafetyCheckSession)
    → lookup d (fill ss m) ≡ or_else (last_on d ss) (lookup d m)
unfolding fill last_on
lookup-fill d [] m = refl
lookup-fill d (s ∷ ss) m =
    lookup-fill d ss (insert s.check_date s m)
    ∙ ap (or_else (last_on d ss)) (lookup-insert s.check_date d s m)
    ∙ or_else-pick (last_on d ss) (lookup d m) (s.check_date == d) s

last_on-select :
    (d : ℕ) (p : SafetyCheckSession → Bool) (ss : List SafetyCheckSession)
    → ((s : SafetyCheckSession) → (s.check_date == d) ≡ true → p s ≡ true)
    → last_on d (select p ss) ≡ last_on d ss
unfolding last_on
last_on-select d p [] h = refl
last_on-select d p (s ∷ ss) h = elim (Bool-cases (p s)) [
  | inl e ↦ rw e (ap (λ o. pick o (s.check_date == d) s) (last_on-select d p ss h))
  | inr e ↦
      let off : (s.check_date == d) ≡ false = ground (arith, h s) in
      rw e (rw off (last_on-select d p ss h ∙ sym (pick-false (last_on d ss) s)))
]

or_else-none : (o : Option SafetyCheckSession) → or_else o none ≡ o
or_else-none none = refl
or_else-none (some t) = refl

-- The dict of some of the sessions holds the last one of a date that passes.
pub lookup-filled :
    (d : ℕ) (p : SafetyCheckSession → Bool) (ss : List SafetyCheckSession)
    → ((s : SafetyCheckSession) → (s.check_date == d) ≡ true → p s ≡ true)
    → lookup d (fill (select p ss) []) ≡ last_on d ss
lookup-filled d p ss h =
    lookup-fill d (select p ss) []
    ∙ or_else-none (last_on d (select p ss))
    ∙ last_on-select d p ss h

in_month :
    (dates : Dates) (year month d : ℕ) (s : SafetyCheckSession)
    → dates.year d ≡ year
    → dates.month d ≡ month
    → (s.check_date == d) ≡ true
    → is_in dates year month s ≡ true
in_month dates year month d s y m e =
    let same : s.check_date ≡ d = (==_iff s.check_date d).0 e in
    rw same (rw y (rw m (ground arith)))

cell_of-direct :
    (dates : Dates) (sessions : List SafetyCheckSession) (year month day : ℕ)
    → IsDay dates year month day
    → cell_of dates (fill (select (is_in dates year month) sessions) []) year month day
      ≡ direct_cell dates sessions year month day
unfolding cell_of direct_cell
cell_of-direct dates sessions year month zero h = refl
cell_of-direct dates sessions year month (suc n) h =
    let d = dates.date year month (suc n) in
    ap (cell_with (suc n) d) (
      lookup-filled d (is_in dates year month) sessions
        (λ s. in_month dates year month d s h.0 h.1))

map_all :
    {A B : Type 0} (P : A → Type 0) (g h : A → B) (xs : List A)
    → ((x : A) → P x → g x ≡ h x)
    → All P xs
    → map g xs ≡ map h xs
map_all P g h [] same all = refl
map_all P g h (x ∷ xs) same all =
    ap (λ y. y ∷ map g xs) (same x all.0) ∙ ap (λ ys. h x ∷ ys) (map_all P g h xs same all.1)

-- The calendar of a month is that of a search through all the sessions for each day: restricting them
-- to the month first, and filling a dict with them, loses none.
pub build_calendar-direct :
    (dates : Dates)
    → IsCalendar dates
    → (sessions : List SafetyCheckSession) (year month : ℕ)
    → build_calendar dates sessions year month
      ≡ map
          (λ week. map (direct_cell dates sessions year month) week)
          (dates.monthcalendar year month)
unfolding build_calendar
build_calendar-direct dates is sessions year month =
    map_all (All (IsDay dates year month)) _ _ (dates.monthcalendar year month)
      (λ week. map_all (IsDay dates year month) _ _ week (cell_of-direct dates sessions year month))
      (is.days year month)
