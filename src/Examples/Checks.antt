-- ===== src/Examples/Checks.antt =====
-- Two workers, three items of which one is inactive, and a calendar of one week.
use icmp.Base.{
  ℕ, ◌+◌, ◌*◌, ◌/◌, ◌%◌, ◌≡◌, refl, Bool, true, false, none, some, List, [], ◌∷◌, map, arith,
  decimal_text, ltb, if◌then◌else◌, Bool-cases, inl, inr, ◌<◌, ◌-◌,
}
use icmp.Safety.{SafetyCheckItem, SafetyCheckSession, SafetyStore, session_of}
use icmp.Safety.Checklist.Once.{IsTable, submit-answer_all}
use icmp.Safety.Checklist.{submit_checklist, vr_complete, next_vr, already, submit}
use icmp.Safety.Checklist.Invariant.{Request, IsSound, answer_all, answer_all-IsSound}
use icmp.Safety.Checklist.Final.{Submitted, submit-Recorded}
use icmp.Safety.Calendar.{Dates, build_calendar, build_months}
use icmp.Safety.Calendar.Cells.{direct_cell, IsCalendar, build_calendar-direct}
use icmp.Safety.Calendar.Months.{Ends, build_months-Ends}
use icmp.Safety.Download.{Formats, Worker, finished, sheet_rows}
use icmp.Safety.Download.Rows.{append_all, direct_rows, sheet_rows-direct}

abbrev item : ℕ → Bool → SafetyCheckItem
item n active = record { id = n; category = "보호구"; is_active = active }

abbrev empty : SafetyStore
empty = record {
  items = item 1 true ∷ item 2 false ∷ item 3 true ∷ [];
  sessions = [];
  results = [];
  facility = some 1;
  next_id = 1;
}

abbrev requests : List Request
requests =
    (record { to_vr = true; worker = some 7; today = 400; now = 9; action = vr_complete })
    ∷ (record {
      to_vr = false;
      worker = some 7;
      today = 400;
      now = 10;
      action = submit_checklist (some (1 ∷ 3 ∷ 3 ∷ []));
    })
    ∷ (record { to_vr = true; worker = some 7; today = 400; now = 11; action = vr_complete })
    ∷ []

answer_all-IsSound_example : IsSound (answer_all empty requests)
answer_all-IsSound_example = answer_all-IsSound empty requests tt

accepted : (submit empty 7 400 10 (some (1 ∷ 3 ∷ []))).0 ≡ next_vr
unfolding submit
accepted = refl

submit-Recorded_example :
    Submitted empty 7 400 10 (1 ∷ 3 ∷ []) (submit empty 7 400 10 (some (1 ∷ 3 ∷ []))).1
submit-Recorded_example = submit-Recorded empty 7 400 10 (1 ∷ 3 ∷ []) accepted

abbrev finished_session : SafetyCheckSession
finished_session = record {
  id = 0;
  worker = 7;
  facility = 1;
  check_date = 400;
  checklist_completed = true;
  checklist_completed_at = some 10;
  vr_completed = false;
  vr_completed_at = none;
}

abbrev half_done : SafetyStore
half_done = record empty { sessions = finished_session ∷ [] }

half_done-IsTable : IsTable half_done
half_done-IsTable = record { below = (omega arith, tt); unlike = (tt, tt) }

submit-answer_all_example :
    submit (answer_all half_done requests) 7 400 20 none ≡ (already, answer_all half_done requests)
unfolding session_of
submit-answer_all_example =
    submit-answer_all half_done 7 400 20 finished_session requests none half_done-IsTable refl refl

-- A date as four digits of month and day behind the year, and a week of two days in each month.
abbrev dates : Dates
dates = record {
  date = λ y m d. (y * 100 + m) * 100 + d;
  year = λ n. n / 10000;
  month = λ n. n / 100 % 100;
  monthcalendar = λ y m. if ltb m 100 then (0 ∷ 1 ∷ 2 ∷ []) ∷ [] else [];
}

dates-IsCalendar : IsCalendar dates
dates-IsCalendar = record {
  days = λ y m. elim (Bool-cases (ltb m 100)) [
    | inl e ↦
        let small : m < 100 = ground arith in
        rw e ((tt, ((omega arith, omega arith), ((omega arith, omega arith), tt))), tt)
    | inr e ↦ rw e tt
  ];
}

abbrev session : ℕ → Bool → SafetyCheckSession
session d vr = record {
  id = d;
  worker = 7;
  facility = 1;
  check_date = d;
  checklist_completed = true;
  checklist_completed_at = some 10;
  vr_completed = vr;
  vr_completed_at = if vr then some 11 else none;
}

abbrev sessions : List SafetyCheckSession
sessions = session 240102 true ∷ session 240101 false ∷ []

build_calendar-direct_example :
    build_calendar dates sessions 24 1
    ≡ map (λ week. map (direct_cell dates sessions 24 1) week) (dates.monthcalendar 24 1)
build_calendar-direct_example = build_calendar-direct dates dates-IsCalendar sessions 24 1

build_months-Ends_example :
    Ends dates sessions
      (12 * 23 + 11)
      (12 * 24 + 2 + 1 - (12 * 23 + 11))
      (build_months dates sessions 23 11 24 2)
build_months-Ends_example =
    build_months-Ends dates sessions 23 11 24 2 (omega arith) (omega arith) (omega arith)
      (omega arith)

abbrev formats : Formats
formats = record { day_text = decimal_text; time_text = decimal_text }

abbrev workers : List Worker
workers = (record { id = 7; worker_name = "A" }) ∷ (record { id = 8; worker_name = "B" }) ∷ []

sheet_rows-direct_example :
    sheet_rows formats sessions workers 240101 240103
    ≡ finished (append_all (map (direct_rows formats sessions 240101 240103) workers))
sheet_rows-direct_example = sheet_rows-direct formats sessions workers 240101 240103 (omega arith)
