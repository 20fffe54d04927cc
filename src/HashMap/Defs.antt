-- ===== src/HashMap/Defs.antt =====
-- The operations of the map.
use zeptobeam.Base.{
  Bool, List, [], ◌∷◌, Option, none, some, map, if◌then◌else◌, Eq, ◌==◌, is_some, keep,
}

abbrev pub HashMap : Type 0 → Type 0 → Type 0
HashMap K V = List (K × V)

module _ {K V : Type 0} ⦃e : Eq K⦄ where
  unfoldable pub get : HashMap K V → K → Option V
  get [] k = none
  get ((j, v) ∷ m) k = if j == k then some v else get m k

  abbrev pub contains_key : HashMap K V → K → Bool
  contains_key m k = is_some (get m k)

  unfoldable pub insert : HashMap K V → K → V → HashMap K V
  insert [] k v = (k, v) ∷ []
  insert ((j, w) ∷ m) k v = if j == k then (k, v) ∷ m else (j, w) ∷ insert m k v

  unfoldable pub remove : HashMap K V → K → HashMap K V
  remove [] k = []
  remove ((j, w) ∷ m) k = let rest = remove m k in if j == k then rest else (j, w) ∷ rest

  -- `if let Some(v) = m.get_mut(k) { *v = f(v) }`.
  unfoldable pub modify : HashMap K V → K → (V → V) → HashMap K V
  modify [] k f = []
  modify ((j, w) ∷ m) k f = if j == k then (j, f w) ∷ m else (j, w) ∷ modify m k f

abbrev pub retain : {K V : Type 0} → HashMap K V → (K × V → Bool) → HashMap K V
retain m p = keep p m

abbrev pub keys : {K V : Type 0} → HashMap K V → List K
keys = map λ e. e.0

abbrev pub values : {K V : Type 0} → HashMap K V → List V
values = map λ e. e.1
