-- ===== src/HashMap/Values.antt =====
-- A property of every value of a map.
use zeptobeam.Base.{◌≡◌, refl, [], ◌∷◌, some, arith, ◌==◌, Eq, Bool-cases, inl, inr}
use zeptobeam.HashMap.Defs.{HashMap, get, insert, remove, modify}

abbrev pub Every : {K V : Type 0} → (V → Type 0) → HashMap K V → Type 0
Every P [] = Unit
Every P ((k, v) ∷ m) = P v × Every P m

module _ {K V : Type 0} ⦃e : Eq K⦄ (P : V → Type 0) where
  pub get-Every : (m : HashMap K V) (k : K) (v : V) → Every P m → get m k ≡ some v → P v
  unfolding get
  get-Every [] k v a h = absurd (cc h)
  get-Every ((j, w) ∷ m) k v a h = ground (arith, get-Every m k v a.1)

  pub insert-Every : (m : HashMap K V) (k : K) (v : V) → Every P m → P v → Every P (insert m k v)
  unfolding insert
  insert-Every [] k v a p = (p, tt)
  insert-Every ((j, w) ∷ m) k v a p = ground (arith, insert-Every m k v a.1 p)

  pub remove-Every : (m : HashMap K V) (k : K) → Every P m → Every P (remove m k)
  unfolding remove
  remove-Every [] k a = tt
  remove-Every ((j, w) ∷ m) k a = ground (arith, remove-Every m k a.1)

  pub modify-Every :
      (m : HashMap K V) (k : K) (f : V → V)
      → Every P m
      → ((v : V) → get m k ≡ some v → P v → P (f v))
      → Every P (modify m k f)
  unfolding modify get
  modify-Every [] k f a keeps = tt
  modify-Every ((j, w) ∷ m) k f a keeps = elim (Bool-cases (j == k)) [
    | inl hit ↦ rw hit (keeps w (rw hit refl) a.0, a.1)
    | inr miss ↦ rw miss (a.0, modify-Every m k f a.1 (λ v h. keeps v (rw miss h)))
  ]
