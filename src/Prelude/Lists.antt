-- ===== src/Prelude/Lists.antt =====
-- Lists over native numbers, under the library's names.
use Prim.Native.Nat.{ℕ, zero, suc, ◌+◌, min}
use mathlib.Core.Path.{◌≡◌, refl}
use mathlib.Core.Logic.{◌≢◌, inl, inr}
use mathlib.Core.Bool.{Bool, true, false, ◌||◌, false≢true}
use mathlib.Core.Option.{Option, none, some}
use mathlib.Core.List.{List, [], ◌∷◌, ◌++◌}
use native.Mathlib.Omega.{arith}
use order_matching_engine.Prelude.Tests.{◌==◌, ==_iff, Bool-cases, if◌then◌else◌}

module _ {ℓ} {A : Type ℓ} where
  abbrev pub length : List A → ℕ
  length [] = 0
  length (x ∷ xs) = suc (length xs)

  abbrev pub take : ℕ → List A → List A
  take zero xs = []
  take (suc n) [] = []
  take (suc n) (x ∷ xs) = x ∷ take n xs

  abbrev pub head? : List A → Option A
  head? [] = none
  head? (x ∷ xs) = some x

  pub length-append : (xs ys : List A) → length (xs ++ ys) ≡ length xs + length ys
  length-append [] ys = omega arith
  length-append (x ∷ xs) ys = omega (arith, length-append xs ys)

  pub length-take : (n : ℕ) (xs : List A) → length (take n xs) ≡ min n (length xs)
  length-take zero xs = omega arith
  length-take (suc n) [] = omega arith
  length-take (suc n) (x ∷ xs) = omega (arith, length-take n xs)

-- Every element satisfies `P`.
abbrev pub All {ℓ κ} : {A : Type ℓ} → (A → Type κ) → List A → Type κ
All P [] = Unit
All P (x ∷ xs) = P x × All P xs

module _ {ℓ κ} {A : Type ℓ} (P : A → Type κ) where
  pub All-append : (xs ys : List A) → All P xs → All P ys → All P (xs ++ ys)
  All-append [] ys hx hy = hy
  All-append (x ∷ xs) ys hx hy = (hx.0, All-append xs ys hx.1 hy)

  pub All-mono {μ} : (Q : A → Type μ) → ((a : A) → P a → Q a) → (xs : List A) → All P xs → All Q xs
  All-mono Q f [] h = tt
  All-mono Q f (x ∷ xs) h = (f x h.0, All-mono Q f xs h.1)

-- Membership of a number, as a test.
abbrev pub contains : ℕ → List ℕ → Bool
contains a [] = false
contains a (x ∷ xs) = a == x || contains a xs

-- No number occurs twice.
abbrev pub Distinct : List ℕ → Type 0
Distinct [] = Unit
Distinct (x ∷ xs) = (contains x xs ≡ false) × Distinct xs

-- `std::list::erase` of the node that holds `a`.
abbrev pub erase : ℕ → List ℕ → List ℕ
erase a [] = []
erase a (x ∷ xs) = if a == x then xs else x ∷ erase a xs

pub contains-append :
    (a : ℕ) (xs ys : List ℕ) → contains a (xs ++ ys) ≡ (contains a xs || contains a ys)
contains-append a [] ys = refl
contains-append a (x ∷ xs) ys = ground (arith, contains-append a xs ys)

pub contains-erase_of_false :
    (a b : ℕ) (xs : List ℕ) → contains a xs ≡ false → contains a (erase b xs) ≡ false
contains-erase_of_false a b [] h = refl
contains-erase_of_false a b (x ∷ xs) h = ground (arith, contains-erase_of_false a b xs)

pub erase-Distinct : (a : ℕ) (xs : List ℕ) → Distinct xs → Distinct (erase a xs)
erase-Distinct a [] h = tt
erase-Distinct a (x ∷ xs) h =
    ground (arith, erase-Distinct a xs h.1, contains-erase_of_false x a xs h.0)

pub append-Distinct :
    (xs : List ℕ) (a : ℕ) → Distinct xs → contains a xs ≡ false → Distinct (xs ++ a ∷ [])
append-Distinct [] a h c = ground arith
append-Distinct (x ∷ xs) a h c =
    ground (arith, append-Distinct xs a h.1, contains-append x xs (a ∷ []))

pub length-erase :
    (a : ℕ) (xs : List ℕ) → contains a xs ≡ true → length xs ≡ suc (length (erase a xs))
length-erase a [] h = cc
length-erase a (x ∷ xs) h = ground (arith, length-erase a xs)

-- What a list holds differs from what it does not contain.
pub All-ne {κ} :
    (P : ℕ → Type κ) (a : ℕ) (xs : List ℕ)
    → contains a xs ≡ false
    → All P xs
    → All (λ x. P x × (x ≢ a)) xs
All-ne P a [] c h = tt
All-ne P a (x ∷ xs) c h = ((h.0, ground arith), All-ne P a xs (ground arith) h.1)

-- After an erasure from a list without repetition, what is left differs from what was erased.
pub erase-All {κ} :
    (P : ℕ → Type κ) (a : ℕ) (xs : List ℕ)
    → Distinct xs
    → All P xs
    → All (λ x. P x × (x ≢ a)) (erase a xs)
erase-All P a [] d h = tt
erase-All P a (x ∷ xs) d h = elim (Bool-cases (a == x)) [
  | inl same ↦ rw same (All-ne P a xs (ground arith) h.1)
  | inr other ↦ rw other ((h.0, ground arith), erase-All P a xs d.1 h.1)
]

pub All-contains {κ} :
    (P : ℕ → Type κ) (a : ℕ) (xs : List ℕ) → All P xs → contains a xs ≡ true → P a
All-contains P a [] h c = absurd (false≢true c)
All-contains P a (x ∷ xs) h c = elim (Bool-cases (a == x)) [
  | inl same ↦ rw ((==_iff a x).0 same) h.0
  | inr other ↦ All-contains P a xs h.1 (ground arith)
]

pub contains_of_ne : (a : ℕ) (xs : List ℕ) → All (λ x. x ≢ a) xs → contains a xs ≡ false
contains_of_ne a [] h = refl
contains_of_ne a (x ∷ xs) h = ground (arith, h.0, contains_of_ne a xs h.1)

pub erase-append_new : (a : ℕ) (xs : List ℕ) → contains a xs ≡ false → erase a (xs ++ a ∷ []) ≡ xs
erase-append_new a [] h = ground arith
erase-append_new a (x ∷ xs) h = ground (arith, erase-append_new a xs)

pub append-ne-nil {ℓ} : {A : Type ℓ} (xs : List A) (a : A) → xs ++ a ∷ [] ≢ []
append-ne-nil [] a h = cc
append-ne-nil (x ∷ xs) a h = cc

pub contains-erase_ne :
    (a b : ℕ) (xs : List ℕ) → a ≢ b → contains a xs ≡ true → contains a (erase b xs) ≡ true
contains-erase_ne a b [] h c = c
contains-erase_ne a b (x ∷ xs) h c = ground (arith, contains-erase_ne a b xs h)
