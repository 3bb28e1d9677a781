-- ===== src/Engine/Exchange/Enough.antt =====
-- Offers that are enough for an order, against Engine/Priority.
use order_matching_engine.Prelude.{
  ℕ, ◌+◌, ◌-◌, ◌<◌, ◌≤◌, ◌≡◌, refl, false, List, [], ◌∷◌, ◌++◌, ◌==◌, All, inl, inr, Bool-cases,
  ◌⊎◌, ltb, arith,
}
use order_matching_engine.Price.{Price}
use order_matching_engine.Types.{OrderSide, OrderType, OrderPtr}
use order_matching_engine.PriceMap.{PriceMap}
use order_matching_engine.PriceMap.Queue.{from_front, from_back}
use order_matching_engine.Book.{Slots}
use order_matching_engine.Engine.Priority.{
  Offer, offer_of, beyond, take_offers, take_offers-zero, take_offers-part, take_offers-whole,
  offers_of,
}
use order_matching_engine.Engine.Exchange.{taken}

-- What is left of some offers.
abbrev pub lefts : List Offer → ℕ
lefts [] = 0
lefts (x ∷ xs) = x.left + lefts xs

-- Offers within the limit that are enough are taken until nothing is wanted.
pub take_enough :
    (side : OrderSide) (type : OrderType) (own : Price) (wanted : ℕ) (xs ys : List Offer)
    → All (λ x. beyond side type own x.price ≡ false) xs
    → wanted ≤ lefts xs
    → taken (take_offers side type own wanted (xs ++ ys)).0 ≡ wanted
take_enough side type own wanted [] ys fair enough =
    let nothing : wanted ≡ 0 = omega arith in rw (nothing, take_offers-zero side type own ys) refl
take_enough side type own wanted (x ∷ xs) ys fair enough = elim (order_cases wanted x.left) [
  | inl nothing ↦ rw (nothing, take_offers-zero side type own (x ∷ (xs ++ ys))) refl
  | inr (inl (more, part)) ↦
      rw (take_offers-part side type own wanted x (xs ++ ys) more fair.0 part) (omega arith)
  | inr (inr (more, whole)) ↦
      rw (take_offers-whole side type own wanted x (xs ++ ys) more fair.0 whole)
        (omega (arith, take_enough side type own (wanted - x.left) xs ys fair.1 (omega arith)))
]
  where
    order_cases : (a b : ℕ) → (a ≡ 0) ⊎ (((0 < a) × (a < b)) ⊎ ((0 < a) × (b ≤ a)))
    order_cases a b = elim (Bool-cases (a == 0)) [
      | inl nothing ↦ inl (ground arith)
      | inr something ↦ elim (Bool-cases (ltb a b)) [
        | inl part ↦ inr (inl (ground arith, ground arith))
        | inr whole ↦ inr (inr (ground arith, ground arith))
      ]
    ]

pub lefts-append :
    (s : Slots) (ps qs : List OrderPtr)
    → lefts (offers_of s (ps ++ qs)) ≡ lefts (offers_of s ps) + lefts (offers_of s qs)
lefts-append s [] qs = omega arith
lefts-append s (p ∷ ps) qs = omega (arith, lefts-append s ps qs)

pub offers_of-append :
    (s : Slots) (ps qs : List OrderPtr) → offers_of s (ps ++ qs) ≡ offers_of s ps ++ offers_of s qs
offers_of-append s [] qs = refl
offers_of-append s (p ∷ ps) qs = rw (offers_of-append s ps qs) refl

pub lefts-back_front :
    (s : Slots) (m : PriceMap)
    → lefts (offers_of s (from_back m)) ≡ lefts (offers_of s (from_front m))
lefts-back_front s [] = refl
lefts-back_front s ((k, ps) ∷ m) =
    omega (
      arith,
      lefts-append s (from_back m) ps,
      lefts-append s ps (from_front m),
      lefts-back_front s m,
    )

pub near_offers :
    (s : Slots) (P : Offer → Type 0) (ps : List OrderPtr)
    → All (λ p. P (offer_of (s p))) ps
    → All P (offers_of s ps)
near_offers s P [] h = tt
near_offers s P (p ∷ ps) h = (h.0, near_offers s P ps h.1)
