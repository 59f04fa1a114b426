-- ===== src/Safety/Calendar.antt =====
-- safety/views.py: the calendar of a worker's sessions, and its months for printing.
pub mod Cells
pub mod Months
use icmp.Base.{
  ℕ, zero, suc, ◌+◌, ◌*◌, Bool, true, false, ◌&&◌, ◌||◌, Option, none, some, List, [], ◌∷◌, map,
  select, ltb, leb, ◌==◌, if◌then◌else◌, Dict, lookup, insert, nat_eq,
}
use icmp.Safety.{SafetyCheckSession}

-- Python's date(year, month, day) as its ordinal number, with its parts, and calendar.monthcalendar.
pub record Dates : Type 0 where
  pub date : ℕ → ℕ → ℕ → ℕ
  pub year : ℕ → ℕ
  pub month : ℕ → ℕ
  pub monthcalendar : ℕ → ℕ → List (List ℕ)

pub data DayStatus : Type 0 where
  complete partial incomplete : DayStatus

-- A cell; `status` and the marks are None where no session is, and `date` is missing outside the month.
pub record CalendarCell : Type 0 where
  pub day : Option ℕ
  pub date : Option ℕ
  pub checklist : Option Bool
  pub vr : Option Bool
  pub status : Option DayStatus

abbrev pub blank : CalendarCell
blank = record { day = none; date = none; checklist = none; vr = none; status = none }

unfoldable pub status_of : Bool → Bool → DayStatus
status_of checklist vr =
    if checklist && vr then complete else if checklist || vr then partial else incomplete

abbrev pub cell_with : ℕ → ℕ → Option SafetyCheckSession → CalendarCell
unfolding status_of
cell_with day d none = record {
  day = some day;
  date = some d;
  checklist = none;
  vr = none;
  status = none;
}
cell_with day d (some s) = record {
  day = some day;
  date = some d;
  checklist = some s.checklist_completed;
  vr = some s.vr_completed;
  status = some (status_of s.checklist_completed s.vr_completed);
}

-- session_map[s.check_date] = s, for each session
unfoldable pub fill :
    List SafetyCheckSession → Dict ℕ SafetyCheckSession → Dict ℕ SafetyCheckSession
fill [] m = m
fill (s ∷ ss) m = fill ss (insert s.check_date s m)

-- filter(check_date__year=year, check_date__month=month)
abbrev pub is_in : Dates → ℕ → ℕ → SafetyCheckSession → Bool
is_in dates year month s = (dates.year s.check_date == year) && (dates.month s.check_date == month)

unfoldable pub cell_of : Dates → Dict ℕ SafetyCheckSession → ℕ → ℕ → ℕ → CalendarCell
unfolding cell_with
cell_of dates m year month zero = blank
cell_of dates m year month (suc n) =
    let d = dates.date year month (suc n) in cell_with (suc n) d (lookup d m)

-- _build_calendar
unfoldable pub build_calendar : Dates → List SafetyCheckSession → ℕ → ℕ → List (List CalendarCell)
unfolding cell_of fill
build_calendar dates sessions year month =
    let m = fill (select (is_in dates year month) sessions) [] in
    map (λ week. map (cell_of dates m year month) week) (dates.monthcalendar year month)

pub record MonthPage : Type 0 where
  pub year : ℕ
  pub month : ℕ
  pub weeks : List (List CalendarCell)

-- (cy, cm) <= (print_end.year, print_end.month)
abbrev pub is_until : ℕ → ℕ → ℕ → ℕ → Bool
is_until cy cm ey em = ltb cy ey || ((cy == ey) && leb cm em)

abbrev pub push_page : MonthPage → Option (List MonthPage) → Option (List MonthPage)
push_page p none = none
push_page p (some ps) = some (p ∷ ps)

abbrev pub page_of : Dates → List SafetyCheckSession → ℕ → ℕ → MonthPage
page_of dates sessions cy cm = record {
  year = cy;
  month = cm;
  weeks = build_calendar dates sessions cy cm;
}

-- cm += 1, and the next year past 12
unfoldable pub next_month : ℕ → ℕ
next_month cm = if ltb 12 (cm + 1) then 1 else cm + 1

unfoldable pub next_year : ℕ → ℕ → ℕ
next_year cy cm = if ltb 12 (cm + 1) then cy + 1 else cy

-- The loop of build_months from (cy, cm) on, in at most so many tests; `none` is out of fuel.
unfoldable pub months_loop :
    ℕ → Dates → List SafetyCheckSession → ℕ → ℕ → ℕ → ℕ → Option (List MonthPage)
unfolding build_calendar next_month next_year
months_loop zero dates sessions cy cm ey em = none
months_loop (suc fuel) dates sessions cy cm ey em =
    let rest = months_loop fuel dates sessions (next_year cy cm) (next_month cm) ey em in
    if is_until cy cm ey em then push_page (page_of dates sessions cy cm) rest else some []

-- build_months, from the year and month of print_start to those of print_end
unfoldable pub build_months :
    Dates → List SafetyCheckSession → ℕ → ℕ → ℕ → ℕ → Option (List MonthPage)
unfolding months_loop
build_months dates sessions sy sm ey em = months_loop (12 * ey + em + 1) dates sessions sy sm ey em
