-- ===== src/Agent/Pending/Budget.antt =====
-- A hook that fails at every attempt is given up after its limit of retries.
use picolet.Prelude.{
  ℕ, ◌+◌, ◌≤◌, String, ◌≡◌, refl, ap, ◌∙◌, Bool, true, false, Option, none, some, List, [], ◌∷◌,
  ◌==◌, ◌||◌, eq_iff, arith, if◌then◌else◌, or_else, contains, leb, IsUnique, length, All,
}
use picolet.Prelude.Int.{ℤ}
use picolet.GoMap.{GoMap, get, put, keys}
use picolet.Config.Hook.{Hook}
use picolet.Applier.Types.{ApplyResult}
use picolet.Agent.Pending.{
  unattempted, count_failures, merge_pending_hooks, max_by_name, retry_limit, exhausted,
  enforce_retry_budget,
}
use picolet.Agent.Pending.Hooks.{merge_pending_hooks_lem, get-enforce_retry_budget}

contains-keys-put :
    (j k : String) (v : ℕ) (m : GoMap ℕ)
    → contains j (keys (put k v m)) ≡ (j == k || contains j (keys m))
unfolding put keys
contains-keys-put j k v [] = refl
contains-keys-put j k v ((i, w) ∷ m) =
    ground (arith, contains-keys-put j k v m, eq_iff k i, eq_iff j i, eq_iff j k)

put-IsUnique : (k : String) (v : ℕ) (m : GoMap ℕ) → IsUnique (keys m) → IsUnique (keys (put k v m))
unfolding put keys
put-IsUnique k v [] u = (refl, tt)
put-IsUnique k v ((i, w) ∷ m) u =
    ground
      (arith, u.0, u.1, put-IsUnique k v m u.1, contains-keys-put i k v m, eq_iff k i, eq_iff i k)

contains-keys-unattempted :
    (j : String) (attempted : List String) (m : GoMap ℕ)
    → contains j (keys m) ≡ false
    → contains j (keys (unattempted attempted m)) ≡ false
unfolding unattempted keys
contains-keys-unattempted j attempted [] h = refl
contains-keys-unattempted j attempted ((i, w) ∷ m) h =
    ground (arith, h, contains-keys-unattempted j attempted m)

unattempted-IsUnique :
    (attempted : List String) (m : GoMap ℕ)
    → IsUnique (keys m)
    → IsUnique (keys (unattempted attempted m))
unfolding unattempted keys
unattempted-IsUnique attempted [] u = tt
unattempted-IsUnique attempted ((i, w) ∷ m) u = ground (
  arith,
  u.0,
  u.1,
  unattempted-IsUnique attempted m u.1,
  contains-keys-unattempted i attempted m u.0,
)

count_failures-IsUnique :
    (old : GoMap ℕ) (failed : List String) (m : GoMap ℕ)
    → IsUnique (keys m)
    → IsUnique (keys (count_failures old failed m))
unfolding count_failures
count_failures-IsUnique old [] m u = u
count_failures-IsUnique old (n ∷ rest) m u =
    let count = or_else (get n old) 0 + 1 in
    count_failures-IsUnique old rest (put n count m) (put-IsUnique n count m u)

pub merge_pending_hooks-IsUnique :
    (old : GoMap ℕ) (res : ApplyResult)
    → IsUnique (keys old)
    → IsUnique (keys (merge_pending_hooks old res))
unfolding merge_pending_hooks
merge_pending_hooks-IsUnique old res u =
    count_failures-IsUnique old res.pending_hook_names (unattempted res.attempted_hook_names old)
      (unattempted-IsUnique res.attempted_hook_names old u)

contains-keys-enforce_retry_budget :
    (j : String) (hooks : List Hook) (m : GoMap ℕ)
    → contains j (keys m) ≡ false
    → contains j (keys (enforce_retry_budget hooks m)) ≡ false
unfolding enforce_retry_budget keys
contains-keys-enforce_retry_budget j hooks [] h = refl
contains-keys-enforce_retry_budget j hooks ((i, w) ∷ m) h =
    ground (arith, h, contains-keys-enforce_retry_budget j hooks m)

enforce_retry_budget-IsUnique :
    (hooks : List Hook) (m : GoMap ℕ)
    → IsUnique (keys m)
    → IsUnique (keys (enforce_retry_budget hooks m))
unfolding enforce_retry_budget keys
enforce_retry_budget-IsUnique hooks [] u = tt
enforce_retry_budget-IsUnique hooks ((i, w) ∷ m) u = ground (
  arith,
  u.0,
  u.1,
  enforce_retry_budget-IsUnique hooks m u.1,
  contains-keys-enforce_retry_budget i hooks m u.0,
)

-- The pending hooks after some applies with these results.
abbrev pub after_applies : List Hook → List ApplyResult → GoMap ℕ → GoMap ℕ
after_applies hooks [] pending = pending
after_applies hooks (res ∷ rest) pending =
    after_applies hooks rest (enforce_retry_budget hooks (merge_pending_hooks pending res))

abbrev pub fails_in : String → ApplyResult → Bool
fails_in name res = contains name res.pending_hook_names

abbrev pub counted_up_to : ℕ → ℕ → Option ℕ
counted_up_to limit n = if leb limit n then none else some n

one_failure :
    (name : String) (hooks : List Hook) (limit : ℤ) (res : ApplyResult) (pending : GoMap ℕ)
    → max_by_name name hooks ≡ some limit
    → fails_in name res ≡ true
    → IsUnique (keys pending)
    → get name (enforce_retry_budget hooks (merge_pending_hooks pending res))
      ≡ counted_up_to (retry_limit limit) (or_else (get name pending) 0 + 1)
unfolding exhausted
one_failure name hooks limit res pending m f u =
    let merged = merge_pending_hooks pending res in
    ground (
      arith,
      m,
      f,
      get-enforce_retry_budget name hooks merged (merge_pending_hooks-IsUnique pending res u),
      merge_pending_hooks_lem name pending res,
    )

failures_count :
    (name : String) (hooks : List Hook) (limit : ℤ) (rs : List ApplyResult) (pending : GoMap ℕ)
    (k : ℕ)
    → max_by_name name hooks ≡ some limit
    → IsUnique (keys pending)
    → All (λ res. fails_in name res ≡ true) rs
    → get name pending ≡ some k
    → leb (retry_limit limit) k ≡ false
    → k + length rs ≤ retry_limit limit
    → get name (after_applies hooks rs pending) ≡ counted_up_to (retry_limit limit) (k + length rs)
failures_count name hooks limit [] pending k m u f g below bound = ground (arith, g, below)
failures_count name hooks limit (res ∷ []) pending k m u f g below bound =
    ground (arith, g, one_failure name hooks limit res pending m f.0 u)
failures_count name hooks limit (res ∷ next ∷ rest) pending k m u f g below bound =
    let merged = merge_pending_hooks pending res in
    let pending' = enforce_retry_budget hooks merged in
    let u' =
      enforce_retry_budget-IsUnique hooks merged (merge_pending_hooks-IsUnique pending res u) in
    let under : leb (retry_limit limit) (k + 1) ≡ false = ground (arith, bound) in
    let g' : get name pending' ≡ some (k + 1) =
      ground (arith, g, one_failure name hooks limit res pending m f.0 u, under) in
    let same : k + 1 + length (next ∷ rest) ≡ k + length (res ∷ next ∷ rest) = omega arith in
    failures_count name hooks limit (next ∷ rest) pending' (k + 1) m u' f.1 g' under
      (omega (arith, bound))
    ∙ ap (counted_up_to (retry_limit limit)) same

-- Where the pending map has each name once, as Go's maps have: a hook of the configuration that is not
-- pending and then fails in every one of some applies, as many as its limit at most, is pending with
-- the number of its failures if they are below the limit, and given up if they reach it.
pub retries_end_at_limit :
    (name : String) (hooks : List Hook) (limit : ℤ) (res : ApplyResult) (rest : List ApplyResult)
    (pending : GoMap ℕ)
    → max_by_name name hooks ≡ some limit
    → IsUnique (keys pending)
    → All (λ res. fails_in name res ≡ true) (res ∷ rest)
    → get name pending ≡ none
    → length (res ∷ rest) ≤ retry_limit limit
    → get name (after_applies hooks (res ∷ rest) pending)
      ≡ counted_up_to (retry_limit limit) (length (res ∷ rest))
retries_end_at_limit name hooks limit res [] pending m u f g bound =
    ground (arith, g, one_failure name hooks limit res pending m f.0 u)
retries_end_at_limit name hooks limit res (next ∷ rest) pending m u f g bound =
    let merged = merge_pending_hooks pending res in
    let under : leb (retry_limit limit) 1 ≡ false = ground (arith, bound) in
    failures_count name hooks limit (next ∷ rest) (enforce_retry_budget hooks merged) 1 m
      (enforce_retry_budget-IsUnique hooks merged (merge_pending_hooks-IsUnique pending res u)) f.1
      (ground (arith, g, one_failure name hooks limit res pending m f.0 u, under)) under
      (omega (arith, bound))
    ∙ ap (counted_up_to (retry_limit limit)) (omega arith)
