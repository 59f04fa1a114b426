-- ===== src/Safety/Download/Rows.antt =====
-- safety/views.py: the rows of the sheet against the sessions.
use icmp.Base.{
  ℕ, zero, suc, ◌+◌, ◌-◌, ◌≤◌, ◌<◌, ◌≡◌, refl, ap, ◌∙◌, Bool, true, false, ◌&&◌, Option, List, [],
  ◌∷◌, ◌++◌, map, select, leb, leb→le, ◌==◌, arith, ==_iff, Dict, lookup, nat_eq, Bool-cases, inl,
  inr, if◌then◌else◌,
}
use mathlib.Core.Path.{ap₂}
use icmp.Facilities.Grid.{range_from}
use icmp.Safety.{SafetyCheckSession}
use icmp.Safety.Calendar.{fill}
use icmp.Safety.Calendar.Cells.{last_on, lookup-filled}
use icmp.Safety.Download.{
  Formats, Worker, Row, row_of, last_date, finished, overflow_error, rows_loop, push_row, is_within,
  join_rows, sheet_rows,
}

-- The days from one to another.
abbrev pub days : ℕ → ℕ → List ℕ
days start_date end_date = range_from start_date (end_date + 1 - start_date)

-- The rows of a worker by a search through all sessions for each day.
pub direct_rows : Formats → List SafetyCheckSession → ℕ → ℕ → Worker → List Row
direct_rows formats sessions start_date end_date w =
    map (λ d. row_of formats w d (last_on d (select (λ s. s.worker == w.id) sessions)))
      (days start_date end_date)

select-and :
    {A : Type 0} (p q : A → Bool) (xs : List A)
    → select (λ x. p x && q x) xs ≡ select q (select p xs)
select-and p q [] = refl
select-and p q (x ∷ xs) = ground (arith, select-and p q xs)

-- The dict of a worker's sessions of some days holds the last one of each of the days.
session_on :
    (sessions : List SafetyCheckSession) (worker start_date end_date d : ℕ)
    → start_date ≤ d
    → d ≤ end_date
    → lookup d (fill (select (is_within worker start_date end_date) sessions) [])
      ≡ last_on d (select (λ s. s.worker == worker) sessions)
session_on sessions worker start_date end_date d a b =
    ap (λ ss. lookup d (fill ss []))
      (select-and (λ s. s.worker == worker)
        (λ s. leb start_date s.check_date && leb s.check_date end_date) sessions)
    ∙ lookup-filled d (λ s. leb start_date s.check_date && leb s.check_date end_date)
        (select (λ s. s.worker == worker) sessions)
        (λ s e. let same : s.check_date ≡ d = (==_iff s.check_date d).0 e in ground (arith, same))

rows_loop-finished :
    (fuel : ℕ) (formats : Formats) (w : Worker) (m : Dict ℕ SafetyCheckSession)
    (g : ℕ → Option SafetyCheckSession) (cur end_date n : ℕ)
    → n ≡ end_date + 1 - cur
    → n < fuel
    → end_date ≤ last_date
    → ((end_date == last_date) && leb cur end_date) ≡ false
    → ((d : ℕ) → cur ≤ d → d ≤ end_date → lookup d m ≡ g d)
    → rows_loop fuel formats w m cur end_date
      ≡ finished (map (λ d. row_of formats w d (g d)) (range_from cur n))
unfolding rows_loop range_from
rows_loop-finished zero formats w m g cur end_date n e f top inner h = absurd (omega arith)
rows_loop-finished (suc fuel) formats w m g cur end_date zero e f top inner h =
    let over : leb cur end_date ≡ false = ground arith in rw over refl
rows_loop-finished (suc fuel) formats w m g cur end_date (suc n) e f top inner h =
    let going : leb cur end_date ≡ true = ground arith in
    let more : (cur == last_date) ≡ false = ground arith in
    let rest =
      rows_loop-finished fuel formats w m g (cur + 1) end_date n (omega arith) (omega arith) top
        (ground arith) (λ d a b. h d (omega arith) b) in
    let next : cur + 1 ≡ suc cur = omega arith in
    rw (going, more)
      (ap₂ (λ o r. push_row (row_of formats w cur o) r) (h cur (omega arith) (leb→le _ _ going))
        (rest ∙ ap (λ k. finished (map (λ d. row_of formats w d (g d)) (range_from k n))) next))

rows_loop-overflow :
    (fuel : ℕ) (formats : Formats) (w : Worker) (m : Dict ℕ SafetyCheckSession) (cur end_date n : ℕ)
    → end_date ≡ last_date
    → cur + n ≡ end_date
    → n < fuel
    → rows_loop fuel formats w m cur end_date ≡ overflow_error
unfolding rows_loop
rows_loop-overflow zero formats w m cur end_date n last e f = absurd (omega arith)
rows_loop-overflow (suc fuel) formats w m cur end_date zero last e f =
    let going : leb cur end_date ≡ true = ground arith in
    let at_last : (cur == last_date) ≡ true = ground arith in rw (going, at_last) refl
rows_loop-overflow (suc fuel) formats w m cur end_date (suc n) last e f =
    let going : leb cur end_date ≡ true = ground arith in
    let more : (cur == last_date) ≡ false = ground arith in
    rw (going, more)
      (ap (push_row (row_of formats w cur (lookup cur m)))
        (rows_loop-overflow fuel formats w m (cur + 1) end_date n last (omega arith) (omega arith)))

abbrev pub append_all : List (List Row) → List Row
append_all [] = []
append_all (rs ∷ rest) = rs ++ append_all rest

-- Some worker's loop reaches the last date that Python has.
abbrev pub reaches_last : List Worker → ℕ → ℕ → Bool
reaches_last [] start_date end_date = false
reaches_last (w ∷ ws) start_date end_date = (end_date == last_date) && leb start_date end_date

sheet_rows-finished :
    (formats : Formats) (sessions : List SafetyCheckSession) (ws : List Worker)
    (start_date end_date : ℕ)
    → end_date ≤ last_date
    → ((end_date == last_date) && leb start_date end_date) ≡ false
    → sheet_rows formats sessions ws start_date end_date
      ≡ finished (append_all (map (direct_rows formats sessions start_date end_date) ws))
unfolding sheet_rows direct_rows
sheet_rows-finished formats sessions [] start_date end_date top inner = refl
sheet_rows-finished formats sessions (w ∷ ws) start_date end_date top inner =
    ap₂ join_rows
      (rows_loop-finished (end_date + 2) formats w _ _ start_date end_date _ refl (omega arith) top
        inner (session_on sessions w.id start_date end_date))
      (sheet_rows-finished formats sessions ws start_date end_date top inner)

sheet_rows-overflow :
    (formats : Formats) (sessions : List SafetyCheckSession) (w : Worker) (ws : List Worker)
    (start_date end_date : ℕ)
    → ((end_date == last_date) && leb start_date end_date) ≡ true
    → sheet_rows formats sessions (w ∷ ws) start_date end_date ≡ overflow_error
unfolding sheet_rows
sheet_rows-overflow formats sessions w ws start_date end_date h =
    let last : end_date ≡ last_date = ground arith in
    let m = fill (select (is_within w.id start_date end_date) sessions) [] in
    ap (λ made. join_rows made (sheet_rows formats sessions ws start_date end_date))
      (rows_loop-overflow (end_date + 2) formats w m start_date end_date (end_date - start_date)
        last (ground arith) (omega arith))

-- Making the sheet ends. Its rows are those of each worker in order, with one row for each day from the
-- first to the last, which shows the worker's last session of that day; only where the last day is
-- 9999-12-31, not before the first, and there is a worker, the step to the next day raises instead.
pub sheet_rows-direct :
    (formats : Formats) (sessions : List SafetyCheckSession) (ws : List Worker)
    (start_date end_date : ℕ)
    → end_date ≤ last_date
    → sheet_rows formats sessions ws start_date end_date ≡ (
        if reaches_last ws start_date end_date
        then overflow_error
        else finished (append_all (map (direct_rows formats sessions start_date end_date) ws)))
unfolding sheet_rows
sheet_rows-direct formats sessions [] start_date end_date top = refl
sheet_rows-direct formats sessions (w ∷ ws) start_date end_date top =
    elim (Bool-cases ((end_date == last_date) && leb start_date end_date)) [
      | inl h ↦ rw h (sheet_rows-overflow formats sessions w ws start_date end_date h)
      | inr h ↦ rw h (sheet_rows-finished formats sessions (w ∷ ws) start_date end_date top h)
    ]
