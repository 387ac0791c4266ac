-- ===== src/GoMap.antt =====
-- Go's `map[string]V` as an association list: the code reads it by key, writes it by key, and walks
-- it in an order that Go leaves open; the list's order stands for that order.
use picolet.Prelude.{
  String, ◌≡◌, refl, Bool, Option, none, some, List, [], ◌∷◌, arith, ◌==◌, eq_iff, if◌then◌else◌,
  is_some, contains,
}

abbrev pub GoMap {ℓ} : Type ℓ → Type ℓ
GoMap V = List (String × V)

module _ {ℓ} {V : Type ℓ} where
  -- `v, ok := m[k]`
  unfoldable pub get : String → GoMap V → Option V
  get k [] = none
  get k ((j, v) ∷ m) = if k == j then some v else get k m

  -- `m[k] = v`
  unfoldable pub put : String → V → GoMap V → GoMap V
  put k v [] = (k, v) ∷ []
  put k v ((j, w) ∷ m) = if k == j then (k, v) ∷ m else (j, w) ∷ put k v m

  -- `delete(m, k)`
  unfoldable pub remove : String → GoMap V → GoMap V
  remove k [] = []
  remove k ((j, v) ∷ m) = let rest = remove k m in if k == j then rest else (j, v) ∷ rest

  abbrev pub has : String → GoMap V → Bool
  has k m = is_some (get k m)

  unfoldable pub keys : GoMap V → List String
  keys [] = []
  keys ((k, v) ∷ m) = k ∷ keys m

module _ {ℓ} {V : Type ℓ} where
  pub get-put :
      (j k : String) (v : V) (m : GoMap V)
      → get j (put k v m) ≡ (if k == j then some v else get j m)
  unfolding get put
  get-put j k v [] = ground (arith, eq_iff j k, eq_iff k j)
  get-put j k v ((i, w) ∷ m) =
      ground (arith, get-put j k v m, eq_iff k j, eq_iff j k, eq_iff k i, eq_iff j i)

  pub get-remove :
      (j k : String) (m : GoMap V) → get j (remove k m) ≡ (if k == j then none else get j m)
  unfolding get remove
  get-remove j k [] = ground arith
  get-remove j k ((i, w) ∷ m) = ground (arith, get-remove j k m, eq_iff k j, eq_iff k i, eq_iff j i)

  -- A key is listed exactly when a lookup finds it.
  pub contains-keys : (k : String) (m : GoMap V) → contains k (keys m) ≡ has k m
  unfolding get keys
  contains-keys k [] = refl
  contains-keys k ((j, v) ∷ m) = ground (arith, contains-keys k m)
