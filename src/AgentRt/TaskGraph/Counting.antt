-- ===== src/AgentRt/TaskGraph/Counting.antt =====
-- Lists of ids without repetition, and how often an id stands in a list.
use zeptobeam.Base.{
  ℕ, suc, ◌+◌, ◌≤◌, ◌≡◌, refl, ap, ◌∙◌, List, [], ◌∷◌, ◌++◌, true, false, inl, inr, String,
  string_eq, ◌==◌, ==-refl, arith, length, if◌then◌else◌, ltb, Bool-cases, any-append,
}
use zeptobeam.AgentRt.TaskGraph.{has}

abbrev pub Distinct : List String → Type 0
Distinct [] = Unit
Distinct (x ∷ xs) = (has xs x ≡ false) × Distinct xs

-- An id is where an equal one is.
pub has-same : (xs : List String) (x y : String) → (x == y) ≡ true → has xs x ≡ has xs y
has-same xs x y e = ap (has xs) ((string_eq.beq_iff x y).0 e)

pub Distinct-append :
    (xs ys : List String)
    → Distinct xs
    → Distinct ys
    → ((y : String) → has xs y ≡ true → has ys y ≡ false)
    → Distinct (xs ++ ys)
Distinct-append [] ys dx dy apart = dy
Distinct-append (x ∷ xs) ys dx dy apart = (
  any-append (λ z. z == x) xs ys ∙ ground (arith, dx.0, apart x, ==-refl x),
  Distinct-append xs ys dx.1 dy (λ y h. apart y (ground arith)),
)

-- A list without the first occurrence of an id.
without : String → List String → List String
without x [] = []
without x (y ∷ ys) = let rest = without x ys in if y == x then ys else y ∷ rest

length-without :
    (x : String) (ys : List String) → has ys x ≡ true → length (without x ys) + 1 ≡ length ys
unfolding without
length-without x [] h = absurd (cc h)
length-without x (y ∷ ys) h = ground (arith, length-without x ys)

has-without :
    (x : String) (ys : List String) (z : String)
    → (x == z) ≡ false
    → has (without x ys) z ≡ has ys z
unfolding without
has-without x [] z h = refl
has-without x (y ∷ ys) z h = ground (
  arith,
  has-without x ys z h,
  string_eq.beq_iff y x,
  string_eq.beq_iff y z,
  string_eq.beq_iff x z,
)

without-has :
    (x : String) (xs ys : List String)
    → has xs x ≡ false
    → ((y : String) → has (x ∷ xs) y ≡ true → has ys y ≡ true)
    → (y : String) → has xs y ≡ true
    → has (without x ys) y ≡ true
without-has x xs ys new sub y h = elim (Bool-cases (x == y)) [
  | inl same ↦ absurd (ground (arith, has-same xs x y same))
  | inr other ↦ has-without x ys y other ∙ sub y (ground arith)
]

pub length-le :
    (xs ys : List String)
    → Distinct xs
    → ((y : String) → has xs y ≡ true → has ys y ≡ true)
    → length xs ≤ length ys
length-le [] ys d sub = omega arith
length-le (x ∷ xs) ys d sub = omega (
  arith,
  length-without x ys (sub x (ground (arith, ==-refl x))),
  length-le xs (without x ys) d.1 (without-has x xs ys d.0 sub),
)

-- A list without repetition within another one that is no longer has all of it.
pub has-all :
    (xs ys : List String)
    → Distinct xs
    → ((y : String) → has xs y ≡ true → has ys y ≡ true)
    → length ys ≤ length xs
    → (y : String) → has ys y ≡ true
    → has xs y ≡ true
has-all [] [] d sub le y h = h
has-all [] (z ∷ ys) d sub le y h = absurd (omega arith)
has-all (x ∷ xs) ys d sub le y h = elim (Bool-cases (x == y)) [
  | inl same ↦ ground arith
  | inr other ↦
      let rest =
        has-all xs (without x ys) d.1 (without-has x xs ys d.0 sub)
          (omega (arith, length-without x ys (sub x (ground (arith, ==-refl x))))) y
          (has-without x ys y other ∙ h) in
      ground arith
]

unfoldable pub count : String → List String → ℕ
count x [] = 0
count x (y ∷ ys) = let rest = count x ys in if y == x then suc rest else rest

pub has-count : (xs : List String) (x : String) → has xs x ≡ ltb 0 (count x xs)
unfolding count
has-count [] x = refl
has-count (y ∷ ys) x = ground (arith, has-count ys x)

pub count-append : (x : String) (xs ys : List String) → count x (xs ++ ys) ≡ count x xs + count x ys
unfolding count
count-append x [] ys = omega arith
count-append x (y ∷ xs) ys = ground (arith, count-append x xs ys)
