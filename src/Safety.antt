-- ===== src/Safety.antt =====
-- safety/models.py and safety/views.py: the daily safety check of a worker.
pub mod Checklist
pub mod Calendar
pub mod Download
use icmp.Base.{ℕ, String, Bool, ◌&&◌, Option, none, some, List, [], ◌∷◌, ◌==◌, if◌then◌else◌}

-- SafetyCheckItem: the columns that the views read.
pub record SafetyCheckItem : Type 0 where
  pub id : ℕ
  pub category : String
  pub is_active : Bool

-- SafetyCheckSession; a date is its ordinal number.
pub record SafetyCheckSession : Type 0 where
  pub id : ℕ
  pub worker : ℕ
  pub facility : ℕ
  pub check_date : ℕ
  pub checklist_completed : Bool
  pub checklist_completed_at : Option ℕ
  pub vr_completed : Bool
  pub vr_completed_at : Option ℕ

pub record SafetyCheckItemResult : Type 0 where
  pub session : ℕ
  pub item : ℕ
  pub is_checked : Bool

-- The tables, with the first facility and the next id of a session; the items stand in the order of
-- SafetyCheckItem.Meta.ordering.
pub record SafetyStore : Type 0 where
  pub items : List SafetyCheckItem
  pub sessions : List SafetyCheckSession
  pub results : List SafetyCheckItemResult
  pub facility : Option ℕ
  pub next_id : ℕ

abbrev pub is_of : ℕ → ℕ → SafetyCheckSession → Bool
is_of worker date s = (s.worker == worker) && (s.check_date == date)

-- SafetyCheckSession.objects.filter(worker=worker, check_date=date).first()
unfoldable pub session_of : ℕ → ℕ → List SafetyCheckSession → Option SafetyCheckSession
session_of worker date [] = none
session_of worker date (s ∷ rest) =
    let later = session_of worker date rest in if is_of worker date s then some s else later

-- session.save()
unfoldable pub save : SafetyCheckSession → List SafetyCheckSession → List SafetyCheckSession
save t [] = []
save t (s ∷ rest) = (if s.id == t.id then t else s) ∷ save t rest
