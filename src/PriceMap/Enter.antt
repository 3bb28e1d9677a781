-- ===== src/PriceMap/Enter.antt =====
-- Where `push_back` puts an order in the queue of its side.
use mathlib.Core.List.{append_assoc}
use order_matching_engine.Prelude.{
  ℕ, suc, ◌≡◌, ◌<◌, ◌≤◌, refl, sym, ap, ◌∙◌, inl, inr, Bool, true, false, List, [], ◌∷◌, ◌++◌,
  if◌then◌else◌, All, All-append, All-mono, Bool-cases, arith,
}
use order_matching_engine.Price.{Price, is_nan, rank, lt, lt_lem, rank_of_lt}
use order_matching_engine.Types.{OrderPtr}
use order_matching_engine.PriceMap.{PriceMap, push_back}
use order_matching_engine.PriceMap.Order.{IsSide}
use order_matching_engine.PriceMap.Queue.{from_front, from_back}

module _ (beats : OrderPtr → Bool) (p : OrderPtr) where
  -- `p` goes before the first order that it beats.
  unfoldable pub enter : List OrderPtr → List OrderPtr
  enter [] = p ∷ []
  enter (q ∷ qs) = let rest = enter qs in if beats q then p ∷ q ∷ qs else q ∷ rest

  enter-pass :
      (qs rs : List OrderPtr) → All (λ q. beats q ≡ false) qs → enter (qs ++ rs) ≡ qs ++ enter rs
  unfolding enter
  enter-pass [] rs h = refl
  enter-pass (q ∷ qs) rs h = rw (h.0) (ap (λ (l : List OrderPtr). q ∷ l) (enter-pass qs rs h.1))

  enter-last : (qs : List OrderPtr) → All (λ q. beats q ≡ false) qs → enter qs ≡ qs ++ p ∷ []
  unfolding enter
  enter-last [] h = refl
  enter-last (q ∷ qs) h = rw (h.0) (ap (λ (l : List OrderPtr). q ∷ l) (enter-last qs h.1))

  enter-stop : (qs : List OrderPtr) → All (λ q. beats q ≡ true) qs → enter qs ≡ p ∷ qs
  unfolding enter
  enter-stop [] h = refl
  enter-stop (q ∷ qs) h = rw (h.0) refl

  enter-before :
      (qs rs : List OrderPtr) → All (λ q. beats q ≡ true) rs → enter (qs ++ rs) ≡ enter qs ++ rs
  unfolding enter
  enter-before [] rs h = enter-stop rs h
  enter-before (q ∷ qs) rs h = elim (Bool-cases (beats q)) [
    | inl worse ↦ rw worse refl
    | inr not_worse ↦ rw not_worse (ap (λ (l : List OrderPtr). q ∷ l) (enter-before qs rs h))
  ]

  module _ (R : Price → OrderPtr → Type 0) (key : Price) (no_nan : is_nan key ≡ false) where
    level_eq :
        (j : Price) → is_nan j ≡ false → lt key j ≡ false → lt j key ≡ false → rank j ≡ rank key
    level_eq j hj a b = ground (arith, lt_lem key j no_nan hj, lt_lem j key hj no_nan)

    -- For sell orders: `p` beats the orders at a higher price.
    module _ (higher : (k : Price) (q : OrderPtr) → R k q → rank key < rank k → beats q ≡ true)
        (others : (k : Price) (q : OrderPtr) → R k q → rank k ≤ rank key → beats q ≡ false) where
      All-higher :
          (lo : ℕ) (m : PriceMap)
          → rank key < lo
          → IsSide R lo m
          → All (λ q. beats q ≡ true) (from_front m)
      All-higher lo [] h v = tt
      All-higher lo ((k, ps) ∷ m) h (a, b, c, d, e, f) =
          All-append _ ps (from_front m) (All-mono (R k) _ (λ q r. higher k q r (omega arith)) ps e)
            (All-higher (suc (rank k)) m (omega arith) f)

      pub from_front-push_back :
          (lo : ℕ) (m : PriceMap)
          → IsSide R lo m
          → from_front (push_back key p m) ≡ enter (from_front m)
      unfolding push_back
      from_front-push_back lo [] v = unfold enter in refl
      from_front-push_back lo ((j, ps) ∷ m) (a, b, c, d, e, f) = elim (Bool-cases (lt key j)) [
        | inl below ↦ rw below (
            sym (
              enter-stop (ps ++ from_front m) (
                All-higher (rank j) ((j, ps) ∷ m) (rank_of_lt key j below)
                  (omega arith, b, c, d, e, f))))
        | inr not_below ↦ elim (Bool-cases (lt j key)) [
          | inl over ↦
              let pass =
                All-mono (R j) (λ q. beats q ≡ false)
                  (λ q r. others j q r (omega (arith, rank_of_lt j key over))) ps e in
              rw (not_below, over)
                (ap (λ (l : List OrderPtr). ps ++ l) (from_front-push_back (suc (rank j)) m f)
                  ∙ sym (enter-pass ps (from_front m) pass))
          | inr not_over ↦
              let level = level_eq j b not_below not_over in
              let pass =
                All-mono (R j) (λ q. beats q ≡ false) (λ q r. others j q r (omega (arith, level)))
                  ps e in
              rw (not_below, not_over)
                (append_assoc ps (p ∷ []) (from_front m)
                  ∙ ap (λ (l : List OrderPtr). ps ++ l)
                      (sym (
                        enter-stop (from_front m)
                          (All-higher (suc (rank j)) m (omega (arith, level)) f)))
                  ∙ sym (enter-pass ps (from_front m) pass))
        ]
      ]

    -- For buy orders: `p` beats the orders at a lower price.
    module _ (lower : (k : Price) (q : OrderPtr) → R k q → rank k < rank key → beats q ≡ true)
        (others : (k : Price) (q : OrderPtr) → R k q → rank key ≤ rank k → beats q ≡ false) where
      none_lower :
          (lo : ℕ) (m : PriceMap)
          → rank key ≤ lo
          → IsSide R lo m
          → All (λ q. beats q ≡ false) (from_back m)
      none_lower lo [] h v = tt
      none_lower lo ((k, ps) ∷ m) h (a, b, c, d, e, f) =
          All-append _ (from_back m) ps (none_lower (suc (rank k)) m (omega arith) f)
            (All-mono (R k) _ (λ q r. others k q r (omega arith)) ps e)

      pub from_back-push_back :
          (lo : ℕ) (m : PriceMap)
          → IsSide R lo m
          → from_back (push_back key p m) ≡ enter (from_back m)
      unfolding push_back
      from_back-push_back lo [] v = unfold enter in refl
      from_back-push_back lo ((j, ps) ∷ m) (a, b, c, d, e, f) = elim (Bool-cases (lt key j)) [
        | inl below ↦ rw below (
            sym (
              enter-last (from_back m ++ ps) (
                none_lower (rank j) ((j, ps) ∷ m) (omega (arith, rank_of_lt key j below))
                  (omega arith, b, c, d, e, f))))
        | inr not_below ↦ elim (Bool-cases (lt j key)) [
          | inl over ↦
              let stop =
                All-mono (R j) (λ q. beats q ≡ true) (λ q r. lower j q r (rank_of_lt j key over)) ps
                  e in
              rw (not_below, over)
                (ap (λ (l : List OrderPtr). l ++ ps) (from_back-push_back (suc (rank j)) m f)
                  ∙ sym (enter-before (from_back m) ps stop))
          | inr not_over ↦
              let level = level_eq j b not_below not_over in
              rw (not_below, not_over)
                (sym (append_assoc (from_back m) ps (p ∷ []))
                  ∙ sym (
                      enter-last (from_back m ++ ps) (
                        none_lower (rank j) ((j, ps) ∷ m) (omega (arith, level))
                          (omega arith, b, c, d, e, f))))
        ]
      ]
