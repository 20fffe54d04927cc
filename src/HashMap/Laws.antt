-- ===== src/HashMap/Laws.antt =====
-- What the operations of the map do to `get` and to the size.
use mathlib.Core.Option as O
use zeptobeam.Base.{
  ◌+◌, ◌≤◌, ◌<◌, ◌≡◌, refl, [], ◌∷◌, none, some, arith, length, if◌then◌else◌, Eq, ◌==◌,
}
use zeptobeam.HashMap.Defs.{HashMap, get, contains_key, insert, remove, modify}

module _ {K V : Type 0} ⦃e : Eq K⦄ where
  pub get-insert :
      (m : HashMap K V) (k : K) (v : V) (j : K)
      → get (insert m k v) j ≡ (if k == j then some v else get m j)
  unfolding get insert
  get-insert [] k v j = refl
  get-insert ((i, w) ∷ m) k v j =
      ground (arith, e.beq_iff k j, e.beq_iff i k, e.beq_iff i j, get-insert m k v j)

  pub get-remove :
      (m : HashMap K V) (k j : K) → get (remove m k) j ≡ (if k == j then none else get m j)
  unfolding get remove
  get-remove [] k j = ground arith
  get-remove ((i, w) ∷ m) k j =
      ground (arith, e.beq_iff k j, e.beq_iff i k, e.beq_iff i j, get-remove m k j)

  pub get-modify :
      (m : HashMap K V) (k : K) (f : V → V) (j : K)
      → get (modify m k f) j ≡ (if k == j then O.map f (get m j) else get m j)
  unfolding get modify
  get-modify [] k f j = ground arith
  get-modify ((i, w) ∷ m) k f j =
      ground (arith, e.beq_iff k j, e.beq_iff i k, e.beq_iff i j, get-modify m k f j)

  pub length-insert :
      (m : HashMap K V) (k : K) (v : V)
      → length (insert m k v) ≡ (if contains_key m k then length m else length m + 1)
  unfolding get insert
  length-insert [] k v = refl
  length-insert ((i, w) ∷ m) k v = ground (arith, length-insert m k v)

  pub length-remove : (m : HashMap K V) (k : K) → length (remove m k) ≤ length m
  unfolding remove
  length-remove [] k = ground arith
  length-remove ((i, w) ∷ m) k = ground (arith, length-remove m k)

  pub length-modify : (m : HashMap K V) (k : K) (f : V → V) → length (modify m k f) ≡ length m
  unfolding modify
  length-modify [] k f = refl
  length-modify ((i, w) ∷ m) k f = ground (arith, length-modify m k f)

  pub length-remove_present :
      (m : HashMap K V) (k : K) (v : V) → get m k ≡ some v → length (remove m k) < length m
  unfolding get remove
  length-remove_present [] k v h = absurd (cc h)
  length-remove_present ((i, w) ∷ m) k v h =
      ground (arith, length-remove m k, length-remove_present m k v)
