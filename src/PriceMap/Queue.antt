-- ===== src/PriceMap/Queue.antt =====
-- The orders of one side of a book in the order in which they are matched: level by level, from the
-- front of the map for sell orders and from its back for buy orders.
use order_matching_engine.Prelude.{
  ℕ, suc, ◌≡◌, refl, ap, subst, inl, inr, some, List, [], ◌∷◌, ◌++◌, true, false, erase, All,
  All-append, All-mono, arith,
}
use order_matching_engine.Price.{Price, is_nan, rank, lt, lt_of_rank, not_lt_of_rank}
use order_matching_engine.Types.{OrderPtr}
use order_matching_engine.PriceMap.{PriceMap, erase_at, drop_empty, first_order, last_order}
use order_matching_engine.PriceMap.Order.{IsSide, IsSide-At, last_order_lem}

abbrev pub from_front : PriceMap → List OrderPtr
from_front [] = []
from_front ((k, ps) ∷ m) = ps ++ from_front m

abbrev pub from_back : PriceMap → List OrderPtr
from_back [] = []
from_back ((k, ps) ∷ m) = from_back m ++ ps

from_front-drop_empty :
    (k : Price) (ps : List OrderPtr) (m : PriceMap)
    → from_front (drop_empty k ps m) ≡ ps ++ from_front m
from_front-drop_empty k [] m = refl
from_front-drop_empty k (p ∷ ps) m = refl

from_back-drop_empty : (k : Price) (ps : List OrderPtr) → from_back (drop_empty k ps []) ≡ ps
from_back-drop_empty k [] = refl
from_back-drop_empty k (p ∷ ps) = refl

-- What is erased at the front of a level.
erase_at-front :
    (key k : Price) (p q : OrderPtr) (ps : List OrderPtr) (m : PriceMap)
    → rank key ≡ rank k
    → q ≡ p
    → erase_at key p ((k, q ∷ ps) ∷ m) ≡ drop_empty k ps m
unfolding erase_at
erase_at-front key k p q ps m level is =
    let one : erase p (q ∷ ps) ≡ ps = ground (arith, is) in
    rw
      (
        not_lt_of_rank k key (omega (arith, level)),
        not_lt_of_rank key k (omega (arith, level)),
        one,
      )
      refl

module _ (R : Price → OrderPtr → Type 0) where
  module _ {κ} (Q : OrderPtr → Type κ) (f : (k : Price) (p : OrderPtr) → R k p → Q p) where
    pub All-from_front : (lo : ℕ) (m : PriceMap) → IsSide R lo m → All Q (from_front m)
    All-from_front lo [] v = tt
    All-from_front lo ((k, ps) ∷ m) (a, b, c, d, e, g) =
        All-append Q ps (from_front m) (All-mono (R k) Q (f k) ps e)
          (All-from_front (suc (rank k)) m g)

    pub All-from_back : (lo : ℕ) (m : PriceMap) → IsSide R lo m → All Q (from_back m)
    All-from_back lo [] v = tt
    All-from_back lo ((k, ps) ∷ m) (a, b, c, d, e, g) =
        All-append Q (from_back m) ps (All-from_back (suc (rank k)) m g)
          (All-mono (R k) Q (f k) ps e)

  module _ (key : Price) (p : OrderPtr) (same : (k : Price) → R k p → rank key ≡ rank k) where
    -- The first order leaves the front of the queue.
    pub from_front-erase_at :
        (lo : ℕ) (m : PriceMap)
        → IsSide R lo m
        → first_order m ≡ some p
        → from_front m ≡ p ∷ from_front (erase_at key p m)
    unfolding first_order
    from_front-erase_at lo [] v h = cc
    from_front-erase_at lo ((k, []) ∷ m) (a, b, c, d, e, g) h = absurd (c refl)
    from_front-erase_at lo ((k, q ∷ ps) ∷ m) (a, b, c, d, e, g) h =
        let is : q ≡ p = cc in
        let level = same k (subst (R k) is e.0) in
        rw (erase_at-front key k p q ps m level is, from_front-drop_empty k ps m, is) refl

    -- The last order leaves the front of the queue.
    pub from_back-erase_at :
        (lo : ℕ) (m : PriceMap)
        → is_nan key ≡ false
        → IsSide R lo m
        → last_order m ≡ some p
        → from_back m ≡ p ∷ from_back (erase_at key p m)
    unfolding last_order
    from_back-erase_at lo [] no_nan v h = cc
    from_back-erase_at lo ((k, []) ∷ []) no_nan (a, b, c, d, e, g) h = absurd (c refl)
    from_back-erase_at lo ((k, q ∷ ps) ∷ []) no_nan (a, b, c, d, e, g) h =
        let is : q ≡ p = cc in
        let level = same k (subst (R k) is e.0) in
        rw (erase_at-front key k p q ps [] level is, from_back-drop_empty k ps, is) refl
    from_back-erase_at lo ((j, ps) ∷ l ∷ m) no_nan (a, b, c, d, e, g) h =
        let below : lt j key ≡ true = elim (last_order_lem R (suc (rank j)) (l ∷ m) g) [
          | inl (empty, _) ↦ cc
          | inr (k, q, found, at, _, _) ↦
              let is : q ≡ p = cc in
              let (r, n, above) = IsSide-At R (suc (rank j)) (l ∷ m) g at in
              lt_of_rank j key b no_nan (omega (arith, same k (subst (R k) is r), above))
        ] in
        let behind : erase_at key p ((j, ps) ∷ l ∷ m) ≡ (j, ps) ∷ erase_at key p (l ∷ m) =
          unfold erase_at in rw below refl in
        rw behind (
          ap (λ (qs : List OrderPtr). qs ++ ps)
            (from_back-erase_at (suc (rank j)) (l ∷ m) no_nan g h))
