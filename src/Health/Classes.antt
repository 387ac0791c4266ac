-- ===== src/Health/Classes.antt =====
-- Which units a pass reports as healthy, as inactive and as unhealthy.
use picolet.Prelude.{
  ℕ, String, ◌≡◌, refl, ap, ◌∙◌, Bool, true, false, not, ◌&&◌, ◌||◌, ◌==◌, Option, none, some, List,
  [], ◌∷◌, ◌++◌, arith, ltb, eqb, length, sort, contains, contains-append, contains-sort, eq_sound,
  Bool-cases, inl, inr,
}
use picolet.GoMap.{GoMap, put}
use picolet.State.{State}
use picolet.Systemd.{UnitStatus, is_passive_unit}
use picolet.Health.{
  Env, CheckResult, Pass, all_failed, enforce_status, enforce_unit, enforce_units, enforce, begin,
  maybe_restart, unit_names, running, resting, broken, settle_healthy, settle_inactive,
  settle_broken, activity,
}
use picolet.Health.Tally.{reported, answering, enforce_tally}

-- The three lists of a report.
pub data Class : Type 0 where
  well at_rest unwell : Class

abbrev pub listed_as : Class → CheckResult → List String
listed_as well r = r.healthy
listed_as at_rest r = r.inactive
listed_as unwell r = r.unhealthy

abbrev pub is_up : String → Bool
is_up active_state = contains active_state ("active" ∷ "activating" ∷ [])

abbrev pub is_down : String → Bool
is_down active_state =
    contains active_state ("inactive" ∷ "deactivating" ∷ "reloading" ∷ "maintenance" ∷ [])

-- A passive unit or another, whose state is up, down or neither, belongs in this list.
abbrev pub belongs_by : Class → Bool → Bool → Bool → Bool
belongs_by well passive up down = up
belongs_by at_rest passive up down = not up && (passive || down)
belongs_by unwell passive up down = not up && not passive && not down

abbrev pub belongs : Class → String → UnitStatus → Bool
belongs c u s = belongs_by c (is_passive_unit u) (is_up s.active_state) (is_down s.active_state)

-- The unit answers with a status that belongs in this list.
abbrev pub answers : Class → String → Option UnitStatus → Bool
answers c u none = false
answers c u (some s) = belongs c u s

-- A restart leaves the lists, and a broken unit joins the unhealthy ones.
abbrev SameLists : CheckResult → CheckResult → Type 0
SameLists r r' =
    (r'.healthy ≡ r.healthy) × (r'.inactive ≡ r.inactive) × (r'.unhealthy ≡ r.unhealthy)

restart_lists :
    (env : Env) (st : State) (v : String) (p : Pass)
    → SameLists p.report (maybe_restart env st v p).report
unfolding maybe_restart
restart_lists env st v p = (ground arith, ground arith, ground arith)

broken_lists :
    (env : Env) (st : State) (v : String) (s : UnitStatus) (p : Pass)
    → SameLists
        (record p.report { unhealthy = p.report.unhealthy ++ v ∷ [] })
        (settle_broken env st v s p).report
unfolding settle_broken
broken_lists env st v s p =
    let q = record p { report = record p.report { unhealthy = p.report.unhealthy ++ v ∷ [] } } in
    let same = restart_lists env st v q in
    (ground (arith, same.0), ground (arith, same.1), ground (arith, same.2))

-- The code's switch, by the classes of states.
up_runs : (s : String) → is_up s ≡ true → activity s ≡ running
unfolding activity
up_runs s h = ground (arith, h)

down_rests : (s : String) → is_up s ≡ false → is_down s ≡ true → activity s ≡ resting
unfolding activity
down_rests s h k = ground (arith, h, k)

other_breaks : (s : String) → is_up s ≡ false → is_down s ≡ false → activity s ≡ broken
unfolding activity
other_breaks s h k = ground (arith, h, k)

-- The unit joins one list.
abbrev Joins : Class → String → CheckResult → CheckResult → Type 0
Joins well v r r' =
    (r'.healthy ≡ r.healthy ++ v ∷ []) × (r'.inactive ≡ r.inactive) × (r'.unhealthy ≡ r.unhealthy)
Joins at_rest v r r' =
    (r'.healthy ≡ r.healthy) × (r'.inactive ≡ r.inactive ++ v ∷ []) × (r'.unhealthy ≡ r.unhealthy)
Joins unwell v r r' =
    (r'.healthy ≡ r.healthy) × (r'.inactive ≡ r.inactive) × (r'.unhealthy ≡ r.unhealthy ++ v ∷ [])

abbrev class_of : Bool → Bool → Bool → Class
class_of passive true down = well
class_of true false down = at_rest
class_of false false true = at_rest
class_of false false false = unwell

passive_test : (s : String) (b : Bool) → is_up s ≡ b → (s == "active" || s == "activating") ≡ b
passive_test s b h = ground (arith, h)

answer-Joins :
    (env : Env) (st : State) (v : String) (s : UnitStatus) (p : Pass)
    → Joins
        (class_of (is_passive_unit v) (is_up s.active_state) (is_down s.active_state))
        v
        p.report
        (enforce_status env st v (some s) p).report
unfolding enforce_status settle_healthy settle_inactive
answer-Joins env st v s p = elim (Bool-cases (is_up s.active_state)) [
  | inl up ↦ elim (Bool-cases (is_passive_unit v)) [
    | inl passive ↦ rw (up, passive, passive_test s.active_state true up) (refl, refl, refl)
    | inr plain ↦ rw (up, plain, up_runs s.active_state up) (refl, refl, refl)
  ]
  | inr idle ↦ elim (Bool-cases (is_passive_unit v)) [
    | inl passive ↦ rw (idle, passive, passive_test s.active_state false idle) (refl, refl, refl)
    | inr plain ↦ elim (Bool-cases (is_down s.active_state)) [
      | inl down ↦ rw (idle, plain, down, down_rests s.active_state idle down) (refl, refl, refl)
      | inr fails ↦
          rw (idle, plain, fails, other_breaks s.active_state idle fails)
            (broken_lists env st v s
              (record p { report = record p.report { statuses = put v s p.report.statuses } }))
    ]
  ]
]

abbrev same_class : Class → Class → Bool
same_class well well = true
same_class at_rest at_rest = true
same_class unwell unwell = true
same_class _ _ = false

class_belongs :
    (c : Class) (passive up down : Bool)
    → same_class (class_of passive up down) c ≡ belongs_by c passive up down
class_belongs well passive true down = refl
class_belongs well true false down = refl
class_belongs well false false true = refl
class_belongs well false false false = refl
class_belongs at_rest passive true down = refl
class_belongs at_rest true false down = refl
class_belongs at_rest false false true = refl
class_belongs at_rest false false false = refl
class_belongs unwell passive true down = refl
class_belongs unwell true false down = refl
class_belongs unwell false false true = refl
class_belongs unwell false false false = refl

appended :
    (u v : String) (xs ys : List String)
    → ys ≡ xs ++ v ∷ []
    → contains u ys ≡ (contains u xs || (u == v && true))
appended u v xs ys e = rw e (ground (arith, contains-append u xs (v ∷ [])))

unchanged :
    (u v : String) (xs ys : List String)
    → ys ≡ xs
    → contains u ys ≡ (contains u xs || (u == v && false))
unchanged u v xs ys e = rw e (ground arith)

joined :
    (k c : Class) (v u : String) (r r' : CheckResult)
    → Joins k v r r'
    → contains u (listed_as c r') ≡ (contains u (listed_as c r) || (u == v && same_class k c))
joined well well v u r r' h = appended u v r.healthy r'.healthy h.0
joined well at_rest v u r r' h = unchanged u v r.inactive r'.inactive h.1
joined well unwell v u r r' h = unchanged u v r.unhealthy r'.unhealthy h.2
joined at_rest well v u r r' h = unchanged u v r.healthy r'.healthy h.0
joined at_rest at_rest v u r r' h = appended u v r.inactive r'.inactive h.1
joined at_rest unwell v u r r' h = unchanged u v r.unhealthy r'.unhealthy h.2
joined unwell well v u r r' h = unchanged u v r.healthy r'.healthy h.0
joined unwell at_rest v u r r' h = unchanged u v r.inactive r'.inactive h.1
joined unwell unwell v u r r' h = appended u v r.unhealthy r'.unhealthy h.2

status_lists :
    (env : Env) (st : State) (c : Class) (v : String) (status : Option UnitStatus) (p : Pass)
    (u : String)
    → contains u (listed_as c (enforce_status env st v status p).report)
      ≡ (contains u (listed_as c p.report) || (u == v && answers c v status))
unfolding enforce_status
status_lists env st well v none p u = ground arith
status_lists env st at_rest v none p u = ground arith
status_lists env st unwell v none p u = ground arith
status_lists env st c v (some s) p u =
    joined (class_of (is_passive_unit v) (is_up s.active_state) (is_down s.active_state)) c v u
      p.report (enforce_status env st v (some s) p).report (answer-Joins env st v s p)
    ∙ ap (λ b. contains u (listed_as c p.report) || (u == v && b))
        (class_belongs c (is_passive_unit v) (is_up s.active_state) (is_down s.active_state))

unit_lists :
    (env : Env) (st : State) (c : Class) (v : String) (p : Pass) (u : String)
    → contains u (listed_as c (enforce_unit env st v p).report)
      ≡ (contains u (listed_as c p.report) || (u == v && answers c v (env.status_of v)))
unfolding enforce_unit
unit_lists env st c v p u = status_lists env st c v (env.status_of v) p u

units_lists :
    (env : Env) (st : State) (c : Class) (units : List String) (p : Pass) (u : String)
    → contains u (listed_as c (enforce_units env st units p).report)
      ≡ (contains u (listed_as c p.report) || (contains u units && answers c u (env.status_of u)))
unfolding enforce_units
units_lists env st c [] p u = ground arith
units_lists env st c (v ∷ rest) p u =
    let now = unit_lists env st c v p u in
    let later = units_lists env st c rest (enforce_unit env st v p) u in
    elim (Bool-cases (u == v)) [
      | inl same ↦
          let e = eq_sound u v same in
          let there : answers c u (env.status_of u) ≡ answers c v (env.status_of v) =
            ap (λ w. answers c w (env.status_of w)) e in
          ground (arith, now, later, same, there)
      | inr other ↦ ground (arith, now, later, other)
    ]

-- A managed unit that answers its query is listed as healthy where its state is active or activating;
-- any other as inactive where it is passive or its state is inactive, deactivating, reloading or
-- maintenance; and any other as unhealthy. No other unit is listed. The three lists have as many entries
-- as there are managed units that answer, so none is listed twice; and `all_failed` holds exactly when
-- there is a managed unit and none answers, whatever restarts failed.
pub enforce_classes :
    (env : Env) (st : State) (last_restart : GoMap ℕ) (u : String)
    → let r = (enforce env st last_restart).2 in
      let units = unit_names st.service_names in
      (contains u r.healthy ≡ (contains u units && answers well u (env.status_of u)))
      × (contains u r.inactive ≡ (contains u units && answers at_rest u (env.status_of u)))
      × (contains u r.unhealthy ≡ (contains u units && answers unwell u (env.status_of u)))
      × (r.managed ≡ sort units)
      × (reported r ≡ answering env r.managed)
      × (all_failed r ≡ (ltb 0 (length r.managed) && eqb (answering env r.managed) 0))
unfolding enforce begin
enforce_classes env st last_restart u =
    let units = unit_names st.service_names in
    let start = begin st last_restart in
    let tally = enforce_tally env st last_restart in
    let sorted = contains-sort u units in
    let listing = λ (c : Class). units_lists env st c (sort units) start u in
    (
      ground (arith, listing well, sorted),
      ground (arith, listing at_rest, sorted),
      ground (arith, listing unwell, sorted),
      tally.0,
      tally.1,
      tally.2,
    )
