-- ===== src/PriceMap/Positions.antt =====
-- Which orders stand where after an order was added or erased.
use order_matching_engine.Prelude.{
  ◌≡◌, ◌≢◌, refl, ◌⊎◌, inl, inr, List, [], ◌∷◌, ◌++◌, true, erase, contains, arith, Bool-cases,
  contains-erase_ne, contains-erase_of_false, contains-append,
}
use order_matching_engine.Price.{Price, lt}
use order_matching_engine.Types.{OrderPtr}
use order_matching_engine.PriceMap.{PriceMap, push_back, erase_at, drop_empty}
use order_matching_engine.PriceMap.Order.{At}

At-drop_empty :
    (j k : Price) (q : OrderPtr) (ps : List OrderPtr) (m : PriceMap)
    → At k q (drop_empty j ps m)
    → At k q ((j, ps) ∷ m)
At-drop_empty j k q [] m at = inr at
At-drop_empty j k q (p ∷ ps) m at = at

contains-of-erase :
    (q p : OrderPtr) (ps : List OrderPtr) → contains q (erase p ps) ≡ true → contains q ps ≡ true
contains-of-erase q p ps h = ground (arith, contains-erase_of_false q p ps)

-- No order appears at a level by an erasure.
pub At-erase_at :
    (key k : Price) (p q : OrderPtr) (m : PriceMap) → At k q (erase_at key p m) → At k q m
unfolding erase_at
At-erase_at key k p q [] at = at
At-erase_at key k p q ((j, ps) ∷ m) at = elim (Bool-cases (lt j key)) [
  | inl over ↦ elim (rw over at at) [
    | inl here ↦ inl here
    | inr later ↦ inr (At-erase_at key k p q m later)
  ]
  | inr not_over ↦ elim (Bool-cases (lt key j)) [
    | inl below ↦ rw (not_over, below) at at
    | inr not_below ↦ elim (At-drop_empty j k q (erase p ps) m (rw (not_over, not_below) at at)) [
      | inl (same, found) ↦ inl (same, contains-of-erase q p ps found)
      | inr later ↦ inr later
    ]
  ]
]

-- The order that is queued is the only new one.
pub At-push_back :
    (key k : Price) (p q : OrderPtr) (m : PriceMap)
    → At k q (push_back key p m)
    → At k q m ⊎ (q ≡ p)
unfolding push_back
At-push_back key k p q [] (inl (same, found)) = inr (ground arith)
At-push_back key k p q [] (inr later) = elim later [ ]
At-push_back key k p q ((j, ps) ∷ m) at = elim (Bool-cases (lt key j)) [
  | inl below ↦ elim (rw below at at) [
    | inl (same, found) ↦ inr (ground arith)
    | inr later ↦ inl later
  ]
  | inr not_below ↦ elim (Bool-cases (lt j key)) [
    | inl over ↦ elim (rw (not_below, over) at at) [
      | inl here ↦ inl (inl here)
      | inr later ↦ elim (At-push_back key k p q m later) [
        | inl old ↦ inl (inr old)
        | inr new ↦ inr new
      ]
    ]
    | inr not_over ↦ elim (rw (not_below, not_over) at at) [
      | inl (same, found) ↦ contains_last j ps m same found
      | inr later ↦ inl (inr later)
    ]
  ]
]
  where
    contains_last :
        (j : Price) (ps : List OrderPtr) (m : PriceMap)
        → k ≡ j
        → contains q (ps ++ p ∷ []) ≡ true
        → At k q ((j, ps) ∷ m) ⊎ (q ≡ p)
    contains_last j ps m same found = elim (Bool-cases (contains q ps)) [
      | inl old ↦ inl (inl (same, old))
      | inr new ↦ inr (ground (arith, contains-append q ps (p ∷ [])))
    ]

-- An order other than the one that is taken out stays at its level.
pub At-erase_at_ne :
    (key k : Price) (p q : OrderPtr) (m : PriceMap) → q ≢ p → At k q m → At k q (erase_at key p m)
unfolding erase_at
At-erase_at_ne key k p q [] h at = at
At-erase_at_ne key k p q ((j, ps) ∷ m) h at = elim (Bool-cases (lt j key)) [
  | inl over ↦
      rw over
        (elim at [ inl here ↦ inl here | inr later ↦ inr (At-erase_at_ne key k p q m h later) ])
  | inr not_over ↦ elim (Bool-cases (lt key j)) [
    | inl below ↦ rw (not_over, below) at
    | inr not_below ↦
        rw (not_over, not_below)
          (elim at [
            | inl (same, found) ↦
                keep (erase p ps) (rw same refl) (contains-erase_ne q p ps h found)
            | inr later ↦ skip (erase p ps) later
          ])
  ]
]
  where
    skip : (ps' : List OrderPtr) → At k q m → At k q (drop_empty j ps' m)
    skip [] later = later
    skip (x ∷ ps') later = inr later

    keep : (ps' : List OrderPtr) → k ≡ j → contains q ps' ≡ true → At k q (drop_empty j ps' m)
    keep [] same found = cc
    keep (x ∷ ps') same found = inl (same, found)

-- An order that stands at a level stays there when another one is queued.
pub At-push_back_old :
    (key k : Price) (p q : OrderPtr) (m : PriceMap) → At k q m → At k q (push_back key p m)
unfolding push_back
At-push_back_old key k p q [] at = elim at [ ]
At-push_back_old key k p q ((j, ps) ∷ m) at = elim (Bool-cases (lt key j)) [
  | inl below ↦ rw below (inr at)
  | inr not_below ↦ elim (Bool-cases (lt j key)) [
    | inl over ↦
        rw (not_below, over)
          (elim at [ inl here ↦ inl here | inr later ↦ inr (At-push_back_old key k p q m later) ])
    | inr not_over ↦
        rw (not_below, not_over)
          (elim at [
            | inl (same, found) ↦ inl (same, ground (arith, contains-append q ps (p ∷ [])))
            | inr later ↦ inr later
          ])
  ]
]

-- The order that is queued stands at some level.
pub At-push_back_new :
    (key : Price) (p : OrderPtr) (m : PriceMap) → (k : Price) × At k p (push_back key p m)
unfolding push_back
At-push_back_new key p [] = (key, inl (refl, ground arith))
At-push_back_new key p ((j, ps) ∷ m) = elim (Bool-cases (lt key j)) [
  | inl below ↦ rw below (key, inl (refl, ground arith))
  | inr not_below ↦ elim (Bool-cases (lt j key)) [
    | inl over ↦ rw (not_below, over) (let (k, at) = At-push_back_new key p m in (k, inr at))
    | inr not_over ↦
        rw (not_below, not_over) (j, inl (refl, ground (arith, contains-append p ps (p ∷ []))))
  ]
]
