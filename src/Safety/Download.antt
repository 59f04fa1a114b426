-- ===== src/Safety/Download.antt =====
-- safety/views.py: the sheet of the sessions of workers over some days.
pub mod Rows
use icmp.Base.{
  ℕ, zero, suc, ◌+◌, String, Bool, true, false, not, ◌&&◌, Option, none, some, List, [], ◌∷◌, ◌++◌,
  select, leb, ◌==◌, if◌then◌else◌, Dict, lookup, nat_eq,
}
use icmp.Safety.{SafetyCheckSession}
use icmp.Safety.Calendar.{fill}

-- strftime('%Y-%m-%d') of a date, and to_korea_time_str(t, '%H:%M') of an instant.
pub record Formats : Type 0 where
  pub day_text : ℕ → String
  pub time_text : ℕ → String

pub record Worker : Type 0 where
  pub id : ℕ
  pub worker_name : String

-- A row of the sheet below its heading.
pub record Row : Type 0 where
  pub name : String
  pub day : String
  pub checklist : String
  pub checklist_time : String
  pub vr : String
  pub vr_time : String

abbrev pub mark : Bool → String
mark true = "완료"
mark false = "미완료"

abbrev pub time_or : Formats → Option ℕ → String
time_or formats none = "-"
time_or formats (some t) = formats.time_text t

unfoldable pub row_of : Formats → Worker → ℕ → Option SafetyCheckSession → Row
row_of formats w d none = record {
  name = w.worker_name;
  day = formats.day_text d;
  checklist = mark false;
  checklist_time = "-";
  vr = mark false;
  vr_time = "-";
}
row_of formats w d (some s) = record {
  name = w.worker_name;
  day = formats.day_text d;
  checklist = mark s.checklist_completed;
  checklist_time = time_or formats s.checklist_completed_at;
  vr = mark s.vr_completed;
  vr_time = time_or formats s.vr_completed_at;
}

-- date.max.toordinal(), of 9999-12-31; a date is its ordinal.
abbrev pub last_date : ℕ
last_date = 3_652_059

-- How making the rows ends; `overflow_error` is the exception of the day after the last date.
pub data Made : Type 0 where
  finished : List Row → Made
  overflow_error : Made
  no_fuel : Made

abbrev pub push_row : Row → Made → Made
push_row r (finished rs) = finished (r ∷ rs)
push_row r overflow_error = overflow_error
push_row r no_fuel = no_fuel

-- The loop over the days of a worker, in at most so many tests.
unfoldable pub rows_loop : ℕ → Formats → Worker → Dict ℕ SafetyCheckSession → ℕ → ℕ → Made
unfolding row_of
rows_loop zero formats w m cur end_date = no_fuel
rows_loop (suc fuel) formats w m cur end_date =
    let rest = rows_loop fuel formats w m (cur + 1) end_date in
    if not (leb cur end_date)
    then finished []
    else if cur == last_date
    then overflow_error
    else push_row (row_of formats w cur (lookup cur m)) rest

-- filter(worker=worker, check_date__range=(start_date, end_date))
abbrev pub is_within : ℕ → ℕ → ℕ → SafetyCheckSession → Bool
is_within worker start_date end_date s =
    (s.worker == worker) && (leb start_date s.check_date && leb s.check_date end_date)

abbrev pub join_rows : Made → Made → Made
join_rows (finished rs) (finished qs) = finished (rs ++ qs)
join_rows (finished rs) made = made
join_rows made _ = made

-- The rows of the sheet, of mysafety_history_download.
unfoldable pub sheet_rows : Formats → List SafetyCheckSession → List Worker → ℕ → ℕ → Made
unfolding rows_loop fill
sheet_rows formats sessions [] start_date end_date = finished []
sheet_rows formats sessions (w ∷ ws) start_date end_date =
    let m = fill (select (is_within w.id start_date end_date) sessions) [] in
    join_rows (rows_loop (end_date + 2) formats w m start_date end_date)
      (sheet_rows formats sessions ws start_date end_date)
