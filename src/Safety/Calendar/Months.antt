-- ===== src/Safety/Calendar/Months.antt =====
-- safety/views.py: the loop over the months of a print.
use icmp.Base.{
  ℕ, zero, suc, ◌+◌, ◌-◌, ◌*◌, ◌≤◌, ◌<◌, ◌≡◌, refl, ap, ◌∙◌, subst, Option, some, List, [], ◌∷◌,
  map, All, Bool-cases, inl, inr, arith,
}
use icmp.Facilities.Grid.{range_from}
use icmp.Safety.{SafetyCheckSession}
use icmp.Safety.Calendar.{
  Dates, MonthPage, is_until, push_page, page_of, next_month, next_year, build_calendar,
  months_loop, build_months,
}

-- The number of a month since the year 0.
abbrev pub number : MonthPage → ℕ
number p = 12 * p.year + p.month

-- A page has a month of a year, and the calendar of it.
pub record IsPage (dates : Dates) (sessions : List SafetyCheckSession) (p : MonthPage)
    : Type 0 where
  pub first : 1 ≤ p.month
  pub last : p.month ≤ 12
  pub filled : p.weeks ≡ build_calendar dates sessions p.year p.month

-- The loop ends, with a page for each of n months from number `start` on.
pub record Ends (dates : Dates) (sessions : List SafetyCheckSession) (start n : ℕ)
    (o : Option (List MonthPage)) : Type 0 where
  pub pages : List MonthPage
  pub returned : o ≡ some pages
  pub numbered : map number pages ≡ range_from start n
  pub each : All (IsPage dates sessions) pages

next_number :
    (cy cm : ℕ)
    → cm ≤ 12
    → (12 * next_year cy cm + next_month cm ≡ suc (12 * cy + cm))
      × (1 ≤ next_month cm)
      × (next_month cm ≤ 12)
unfolding next_year next_month
next_number cy cm h = ground arith

range_nil : (start : ℕ) → [] ≡ range_from start 0
unfolding range_from
range_nil start = refl

push_page-Ends :
    {dates : Dates} {sessions : List SafetyCheckSession} {start n : ℕ} {o : Option (List MonthPage)}
    (p : MonthPage)
    → IsPage dates sessions p
    → number p ≡ start
    → Ends dates sessions (suc start) n o
    → Ends dates sessions start (suc n) (push_page p o)
unfolding range_from
push_page-Ends {start = start} {n = n} p h e t = record {
  pages = p ∷ t.pages;
  returned = ap (push_page p) t.returned;
  numbered = ap (λ k. k ∷ map number t.pages) e ∙ ap (λ ks. start ∷ ks) t.numbered;
  each = (h, t.each);
}

months_loop-Ends :
    (fuel : ℕ) (dates : Dates) (sessions : List SafetyCheckSession) (cy cm ey em n : ℕ)
    → 1 ≤ cm
    → cm ≤ 12
    → 1 ≤ em
    → em ≤ 12
    → n ≡ 12 * ey + em + 1 - (12 * cy + cm)
    → n < fuel
    → Ends dates sessions (12 * cy + cm) n (months_loop fuel dates sessions cy cm ey em)
unfolding months_loop
months_loop-Ends zero dates sessions cy cm ey em n a b c d e f = absurd (omega arith)
months_loop-Ends (suc fuel) dates sessions cy cm ey em n a b c d e f =
    let p = page_of dates sessions cy cm in
    elim (Bool-cases (is_until cy cm ey em)) [
      | inr over ↦
          let none_left : n ≡ 0 = ground arith in
          rw over (record {
            pages = [];
            returned = refl;
            numbered = rw none_left (range_nil (12 * cy + cm));
            each = tt;
          })
      | inl going ↦
          let some_left : suc (n - 1) ≡ n = ground arith in
          let next = next_number cy cm b in
          let is : IsPage dates sessions p = record { first = a; last = b; filled = refl } in
          let rest =
            months_loop-Ends fuel dates sessions (next_year cy cm) (next_month cm) ey em (n - 1)
              next.1 next.2 c d (omega (arith, next.0)) (omega arith) in
          let later = months_loop fuel dates sessions (next_year cy cm) (next_month cm) ey em in
          rw going (
            subst (λ k. Ends dates sessions (12 * cy + cm) k (push_page p later)) some_left
              (push_page-Ends p is refl
                (subst (λ k. Ends dates sessions k (n - 1) later) next.0 rest)))
    ]

-- Printing the months from one date to another ends, and gives one page for each month from the first
-- to the last, in order, with its calendar; none if the first month is after the last.
pub build_months-Ends :
    (dates : Dates) (sessions : List SafetyCheckSession) (sy sm ey em : ℕ)
    → 1 ≤ sm
    → sm ≤ 12
    → 1 ≤ em
    → em ≤ 12
    → Ends dates sessions
        (12 * sy + sm)
        (12 * ey + em + 1 - (12 * sy + sm))
        (build_months dates sessions sy sm ey em)
unfolding build_months
build_months-Ends dates sessions sy sm ey em a b c d =
    months_loop-Ends (12 * ey + em + 1) dates sessions sy sm ey em _ a b c d refl (omega arith)
