-- ===== src/PriceMap/Update.antt =====
-- Adding an order to a side of a book and erasing one keep the side well formed.
use order_matching_engine.Prelude.{
  ℕ, suc, ◌+◌, ◌≤◌, ◌<◌, ◌≡◌, ◌≢◌, refl, ap, sym, subst, inl, inr, none, List, [], ◌∷◌, false,
  length, erase, contains, Distinct, All, arith, All-mono, erase-All, erase-Distinct, length-erase,
  All-append, append-Distinct, contains_of_ne, erase-append_new, append-ne-nil, dec_lt,
  length-append,
}
use order_matching_engine.Price.{Price, is_nan, rank, lt_of_rank, not_lt_of_rank}
use order_matching_engine.Types.{OrderPtr}
use order_matching_engine.PriceMap.{PriceMap, find, push_back, erase_at, drop_empty, count_orders}
use order_matching_engine.PriceMap.Order.{IsSide, At, IsSide-At, IsSide-lower, IsSide-mono}

module _ (R : Price → OrderPtr → Type 0) (key : Price) (p : OrderPtr)
    (key_valid : is_nan key ≡ false) where
  -- The property of the orders that are left when `p` is gone.
  abbrev Others : Price → OrderPtr → Type 0
  Others k q = R k q × (q ≢ p)

  module _ (only : (k : Price) → R k p → rank k ≡ rank key) where
    other_level :
        (k : Price) (ps : List OrderPtr) → rank k ≢ rank key → All (R k) ps → All (Others k) ps
    other_level k ps h =
        All-mono (R k) (Others k) (λ q r. (r, λ e. h (only k (subst (R k) e r)))) ps

    above : (lo : ℕ) (m : PriceMap) → rank key < lo → IsSide R lo m → IsSide Others lo m
    above lo [] h v = tt
    above lo ((k, ps) ∷ m) h (a, b, c, d, e, f) =
        (a, b, c, d, other_level k ps (omega arith) e, above (suc (rank k)) m (omega arith) f)

    drop_empty-IsSide :
        (lo : ℕ) (k : Price) (ps : List OrderPtr) (m : PriceMap)
        → lo ≤ rank k
        → is_nan k ≡ false
        → Distinct ps
        → All (Others k) ps
        → IsSide Others (suc (rank k)) m
        → IsSide Others lo (drop_empty k ps m)
    drop_empty-IsSide lo k [] m a b d e f = IsSide-lower Others (suc (rank k)) lo m (omega arith) f
    drop_empty-IsSide lo k (q ∷ ps) m a b d e f = (a, b, (λ h. cc), d, e, f)

    count-drop_empty :
        (k : Price) (ps : List OrderPtr) (m : PriceMap)
        → count_orders (drop_empty k ps m) ≡ length ps + count_orders m
    unfolding count_orders
    count-drop_empty k [] m = omega arith
    count-drop_empty k (q ∷ ps) m = refl

    -- An order that stands at its price is found there, one order fewer is left, and what is left
    -- is a well-formed side without it.
    pub erase_at_lem :
        (lo : ℕ) (m : PriceMap) (k : Price)
        → rank k ≡ rank key
        → IsSide R lo m
        → At k p m
        → (find key m ≢ none)
          × IsSide Others lo (erase_at key p m)
          × (count_orders m ≡ suc (count_orders (erase_at key p m)))
    unfolding find erase_at count_orders
    erase_at_lem lo [] k same v at = elim at [ ]
    erase_at_lem lo ((j, ps) ∷ m) k same (a, b, c, d, e, f) (inl (here, found)) =
        let eq : rank j ≡ rank key = rw (sym here) same in
        let nlt = not_lt_of_rank j key (omega arith) in
        let ngt = not_lt_of_rank key j (omega arith) in
        (
          rw (nlt, ngt) (λ h. cc),
          rw (nlt, ngt)
              (drop_empty-IsSide lo j (erase p ps) m a b (erase-Distinct p ps d)
                (erase-All (R j) p ps d e) (above (suc (rank j)) m (omega arith) f)),
          rw (nlt, ngt) (omega (arith, count-drop_empty j (erase p ps) m, length-erase p ps found)),
        )
    erase_at_lem lo ((j, ps) ∷ m) k same (a, b, c, d, e, f) (inr later) =
        let (_, n, h) = IsSide-At R (suc (rank j)) m f later in
        let less = lt_of_rank j key b key_valid (omega arith) in
        let (found, side, one) = erase_at_lem (suc (rank j)) m k same f later in
        (
          rw less found,
          rw less (a, b, c, d, other_level j ps (omega arith) e, side),
          rw less (omega (arith, one)),
        )

  level_new : (k : Price) (ps : List OrderPtr) → All (Others k) ps → contains p ps ≡ false
  level_new k ps h = contains_of_ne p ps (All-mono (Others k) (λ q. q ≢ p) (λ q r. r.1) ps h)

  weaken : (lo : ℕ) (m : PriceMap) → IsSide Others lo m → IsSide R lo m
  weaken = IsSide-mono Others R (λ k q r. r.0)

  -- An order that is not yet there goes into its level, the side stays well formed, and has one
  -- order more.
  pub push_back_lem :
      (lo : ℕ) (m : PriceMap)
      → lo ≤ rank key
      → ((k : Price) → rank k ≡ rank key → R k p)
      → IsSide Others lo m
      → IsSide R lo (push_back key p m) × (count_orders (push_back key p m) ≡ suc (count_orders m))
  unfolding push_back count_orders
  push_back_lem lo [] h r v =
      ((h, key_valid, (λ e. cc), (refl, tt), (r key refl, tt), tt), omega arith)
  push_back_lem lo ((j, ps) ∷ m) h r (a, b, c, d, e, f) = elim (dec_lt (rank key) (rank j)) [
    | yes below ↦ rw (lt_of_rank key j key_valid b below) (
      (
        h,
        key_valid,
        (λ e. cc),
        (refl, tt),
        (r key refl, tt),
        (below, b, c, d, All-mono (Others j) (R j) (λ q o. o.0) ps e, weaken (suc (rank j)) m f),
      ),
      omega arith,
    )
    | no not_below ↦ elim (dec_lt (rank j) (rank key)) [
      | yes over ↦
          let (side, one) = push_back_lem (suc (rank j)) m over r f in
          rw (not_lt_of_rank key j (omega arith), lt_of_rank j key b key_valid over)
            ((a, b, c, d, All-mono (Others j) (R j) (λ q o. o.0) ps e, side), omega (arith, one))
      | no not_over ↦
          rw (not_lt_of_rank key j (omega arith), not_lt_of_rank j key (omega arith))
            (
              (
                a,
                b,
                (λ h. append-ne-nil ps p h),
                append-Distinct ps p d (level_new j ps e),
                All-append (R j) ps (p ∷ []) (All-mono (Others j) (R j) (λ q o. o.0) ps e)
                    (r j (omega arith), tt),
                weaken (suc (rank j)) m f,
              ),
              omega (arith, length-append ps (p ∷ [])),
            )
    ]
  ]

  -- Taking out an order that was just queued gives back the side as it was.
  pub erase_at-push_back :
      (lo : ℕ) (m : PriceMap) → IsSide Others lo m → erase_at key p (push_back key p m) ≡ m
  unfolding push_back erase_at
  erase_at-push_back lo [] v = rw (not_lt_of_rank key key (omega arith)) (ground arith)
  erase_at-push_back lo ((j, ps) ∷ m) (a, b, c, d, e, f) = elim (dec_lt (rank key) (rank j)) [
    | yes below ↦
        rw (lt_of_rank key j key_valid b below, not_lt_of_rank key key (omega arith)) (ground arith)
    | no not_below ↦ elim (dec_lt (rank j) (rank key)) [
      | yes over ↦
          rw (not_lt_of_rank key j (omega arith), lt_of_rank j key b key_valid over)
            (rw (lt_of_rank j key b key_valid over)
              (ap (λ (t : PriceMap). (j, ps) ∷ t) (erase_at-push_back (suc (rank j)) m f)))
      | no not_over ↦
          rw (not_lt_of_rank key j (omega arith), not_lt_of_rank j key (omega arith))
            (rw
              (
                not_lt_of_rank key j (omega arith),
                not_lt_of_rank j key (omega arith),
                erase-append_new p ps (level_new j ps e),
              )
              (keep j ps m c))
    ]
  ]
    where
      keep :
          (j : Price) (ps : List OrderPtr) (m : PriceMap)
          → ps ≢ []
          → drop_empty j ps m ≡ (j, ps) ∷ m
      keep j [] m h = absurd (h refl)
      keep j (q ∷ ps) m h = refl
