-- ===== src/Agent/Pending/Hooks.antt =====
-- The retry counts of hooks over applies.
use picolet.Prelude.{
  ℕ, ◌+◌, String, ◌≡◌, refl, false, Option, none, some, List, [], ◌∷◌, eq_iff, arith, if◌then◌else◌,
  or_else, contains, IsUnique,
}
use picolet.GoMap.{GoMap, get, put, get-put, keys}
use picolet.Config.Hook.{Hook}
use picolet.Applier.Types.{ApplyResult}
use picolet.Agent.Pending.{
  unattempted, count_failures, merge_pending_hooks, exhausted, enforce_retry_budget,
}

get-unattempted :
    (name : String) (attempted : List String) (old : GoMap ℕ)
    → get name (unattempted attempted old)
      ≡ (if contains name attempted then none else get name old)
unfolding unattempted get
get-unattempted name attempted [] = ground arith
get-unattempted name attempted ((n, count) ∷ rest) =
    ground (arith, get-unattempted name attempted rest, eq_iff name n)

get-count_failures :
    (name : String) (old : GoMap ℕ) (failed : List String) (merged : GoMap ℕ)
    → get name (count_failures old failed merged)
      ≡ (if contains name failed then some (or_else (get name old) 0 + 1) else get name merged)
unfolding count_failures
get-count_failures name old [] merged = refl
get-count_failures name old (n ∷ rest) merged =
    let merged' = put n (or_else (get n old) 0 + 1) merged in
    ground (
      arith,
      get-count_failures name old rest merged',
      get-put name n (or_else (get n old) 0 + 1) merged,
      eq_iff name n,
      eq_iff n name,
    )

-- After an apply, a hook that failed has one failure more than before, however often the result names
-- it; a hook that was attempted and did not fail is no longer pending; the others are as they were.
pub merge_pending_hooks_lem :
    (name : String) (old : GoMap ℕ) (res : ApplyResult)
    → get name (merge_pending_hooks old res) ≡ (
        if contains name res.pending_hook_names
        then some (or_else (get name old) 0 + 1)
        else if contains name res.attempted_hook_names
        then none
        else get name old)
unfolding merge_pending_hooks
merge_pending_hooks_lem name old res = ground (
  arith,
  get-count_failures name old res.pending_hook_names (unattempted res.attempted_hook_names old),
  get-unattempted name res.attempted_hook_names old,
)

-- Every pending count is within the budget of its hook.
abbrev pub IsWithinBudget : List Hook → GoMap ℕ → Type 0
IsWithinBudget hooks [] = Unit
IsWithinBudget hooks ((name, count) ∷ rest) =
    (exhausted hooks name count ≡ false) × IsWithinBudget hooks rest

pub enforce_retry_budget-IsWithinBudget :
    (hooks : List Hook) (pending : GoMap ℕ)
    → IsWithinBudget hooks (enforce_retry_budget hooks pending)
unfolding enforce_retry_budget
enforce_retry_budget-IsWithinBudget hooks [] = tt
enforce_retry_budget-IsWithinBudget hooks ((name, count) ∷ rest) =
    ground (arith, enforce_retry_budget-IsWithinBudget hooks rest)

keys-enforce_retry_budget :
    (name : String) (hooks : List Hook) (pending : GoMap ℕ)
    → contains name (keys pending) ≡ false
    → get name (enforce_retry_budget hooks pending) ≡ none
unfolding enforce_retry_budget get keys
keys-enforce_retry_budget name hooks [] h = refl
keys-enforce_retry_budget name hooks ((n, c) ∷ rest) h =
    ground (arith, h, keys-enforce_retry_budget name hooks rest)

abbrev pub kept : List Hook → String → Option ℕ → Option ℕ
kept hooks name none = none
kept hooks name (some count) = if exhausted hooks name count then none else some count

pub get-enforce_retry_budget :
    (name : String) (hooks : List Hook) (pending : GoMap ℕ)
    → IsUnique (keys pending)
    → get name (enforce_retry_budget hooks pending) ≡ kept hooks name (get name pending)
unfolding enforce_retry_budget get keys
get-enforce_retry_budget name hooks [] u = refl
get-enforce_retry_budget name hooks ((n, c) ∷ rest) u = ground (
  arith,
  u.0,
  get-enforce_retry_budget name hooks rest u.1,
  keys-enforce_retry_budget name hooks rest,
  eq_iff name n,
)
