-- ===== src/Engine/Threshold/Table.antt =====
-- common/modules/threshold.py: the check of the table in `__init__`.
use icmp.Base.{
  String, Bool, true, false, ◌≡◌, refl, ◌↔◌, all, [], ◌∷◌, ◌++◌, Dict, arith, Option, none, some,
  Bool-cases, inl, inr, ap,
}
use icmp.Engine.Threshold.{Info, bad_direction, ok, err, init, is_allowed, check_directions}

abbrev pub entry_allowed : {F : Type 0} → String × Info F → Bool
entry_allowed (sensor, info) = is_allowed info.direction

check_directions_iff :
    {F : Type 0} (table : Dict String (Info F))
    → (check_directions table ≡ none) ↔ (all entry_allowed table ≡ true)
unfolding check_directions
check_directions_iff [] = ground arith
check_directions_iff ((s, info) ∷ rest) = ground (arith, check_directions_iff rest)

-- A classifier is built exactly when each entry of the table has an allowed direction, and it then
-- keeps the table as given.
pub init_iff :
    {F : Type 0} (table : Dict String (Info F))
    → (init table ≡ ok table) ↔ (all entry_allowed table ≡ true)
unfolding init
init_iff table = ground (arith, check_directions_iff table)

-- The entry that the error names: the first whose direction is not allowed.
pub record IsFirstRefused {F : Type 0} (table : Dict String (Info F)) (s : String)
    (d : Option String) : Type 0 where
  pub before : Dict String (Info F)
  pub info : Info F
  pub after : Dict String (Info F)
  pub splits : table ≡ before ++ ((s, info) ∷ after)
  pub passed : all entry_allowed before ≡ true
  pub same_direction : info.direction ≡ d
  pub refused : is_allowed d ≡ false

check_directions-first :
    {F : Type 0} (table : Dict String (Info F)) (s : String) (d : Option String)
    → check_directions table ≡ some (bad_direction s d)
    → IsFirstRefused table s d
unfolding check_directions
check_directions-first [] s d h = cc
check_directions-first ((t, info) ∷ rest) s d h = elim (Bool-cases (is_allowed info.direction)) [
  | inl good ↦
      let r = check_directions-first rest s d (ground arith) in
      record {
        before = (t, info) ∷ r.before;
        info = r.info;
        after = r.after;
        splits = ap (λ x. (t, info) ∷ x) r.splits;
        passed = ground (arith, r.passed);
        same_direction = r.same_direction;
        refused = r.refused;
      }
  | inr bad ↦ record {
    before = [];
    info = info;
    after = rest;
    splits = ground arith;
    passed = refl;
    same_direction = ground arith;
    refused = ground arith;
  }
]

-- A refusal names the first entry of the table whose direction is not allowed, with that direction.
pub init-err :
    {F : Type 0} (table : Dict String (Info F)) (s : String) (d : Option String)
    → init table ≡ err (bad_direction s d)
    → IsFirstRefused table s d
unfolding init
init-err table s d h = check_directions-first table s d (ground arith)
