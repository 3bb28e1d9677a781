-- ===== src/PriceMap/Drop.antt =====
-- What `erase_at` does to the queue of a side: one order is taken out of it.
use mathlib.Core.List.{append-nil}
use order_matching_engine.Prelude.{
  ℕ, suc, ◌≡◌, ◌≢◌, ◌<◌, refl, sym, ap, inl, inr, true, false, List, [], ◌∷◌, ◌++◌, ◌==◌,
  if◌then◌else◌, All, All-contains, contains, Distinct, erase, Bool-cases, arith,
}
use order_matching_engine.Price.{Price, is_nan, rank, lt, lt_lem, rank_of_lt}
use order_matching_engine.Types.{OrderPtr}
use order_matching_engine.PriceMap.{PriceMap, erase_at, drop_empty}
use order_matching_engine.PriceMap.Order.{IsSide}
use order_matching_engine.PriceMap.Queue.{from_front, from_back}

-- A queue without one of its orders.
unfoldable pub leave_out : OrderPtr → List OrderPtr → List OrderPtr
leave_out p [] = []
leave_out p (q ∷ qs) = let rest = leave_out p qs in if q == p then rest else q ∷ rest

leave_out-append :
    (p : OrderPtr) (qs rs : List OrderPtr)
    → leave_out p (qs ++ rs) ≡ leave_out p qs ++ leave_out p rs
unfolding leave_out
leave_out-append p [] rs = refl
leave_out-append p (q ∷ qs) rs = elim (Bool-cases (q == p)) [
  | inl same ↦ rw same (leave_out-append p qs rs)
  | inr other ↦ rw other (ap (λ (l : List OrderPtr). q ∷ l) (leave_out-append p qs rs))
]

pub leave_out_absent :
    (p : OrderPtr) (qs : List OrderPtr) → contains p qs ≡ false → leave_out p qs ≡ qs
unfolding leave_out
leave_out_absent p [] h = refl
leave_out_absent p (q ∷ qs) h =
    let other : (q == p) ≡ false = ground (arith, h) in
    let absent : contains p qs ≡ false = ground (arith, h) in
    rw other (ap (λ (l : List OrderPtr). q ∷ l) (leave_out_absent p qs absent))

pub leave_out_apart :
    (p : OrderPtr) (qs : List OrderPtr) → All (λ q. q ≢ p) qs → leave_out p qs ≡ qs
unfolding leave_out
leave_out_apart p [] h = refl
leave_out_apart p (q ∷ qs) h =
    let other : (q == p) ≡ false = ground (arith, h.0) in
    rw other (ap (λ (l : List OrderPtr). q ∷ l) (leave_out_apart p qs h.1))

leave_out-erase : (p : OrderPtr) (qs : List OrderPtr) → Distinct qs → erase p qs ≡ leave_out p qs
unfolding leave_out
leave_out-erase p [] h = refl
leave_out-erase p (q ∷ qs) h = elim (Bool-cases (q == p)) [
  | inl same ↦
      let here : (p == q) ≡ true = ground (arith, same) in
      let absent : contains p qs ≡ false = ground (arith, same, h.0) in
      rw (same, here) (sym (leave_out_absent p qs absent))
  | inr other ↦
      let there : (p == q) ≡ false = ground (arith, other) in
      rw (other, there) (ap (λ (l : List OrderPtr). q ∷ l) (leave_out-erase p qs h.1))
]

module _ (R : Price → OrderPtr → Type 0) (key : Price) (p : OrderPtr)
    (same : (k : Price) → R k p → rank key ≡ rank k) (no_nan : is_nan key ≡ false) where
  -- `p` is at no level of another rank.
  not_at :
      (k : Price) (ps : List OrderPtr) → All (R k) ps → rank key ≢ rank k → contains p ps ≡ false
  not_at k ps h ne = elim (Bool-cases (contains p ps)) [
    | inl found ↦ absurd (ne (same k (All-contains (R k) p ps h found)))
    | inr absent ↦ absent
  ]

  above_front :
      (lo : ℕ) (m : PriceMap)
      → rank key < lo
      → IsSide R lo m
      → leave_out p (from_front m) ≡ from_front m
  above_front lo [] h v = unfold leave_out in refl
  above_front lo ((k, ps) ∷ m) h (a, b, c, d, e, f) =
      rw
        (
          leave_out-append p ps (from_front m),
          leave_out_absent p ps (not_at k ps e (λ i. absurd (omega arith))),
          above_front (suc (rank k)) m (omega arith) f,
        )
        refl

  above_back :
      (lo : ℕ) (m : PriceMap)
      → rank key < lo
      → IsSide R lo m
      → leave_out p (from_back m) ≡ from_back m
  above_back lo [] h v = unfold leave_out in refl
  above_back lo ((k, ps) ∷ m) h (a, b, c, d, e, f) =
      rw
        (
          leave_out-append p (from_back m) ps,
          leave_out_absent p ps (not_at k ps e (λ i. absurd (omega arith))),
          above_back (suc (rank k)) m (omega arith) f,
        )
        refl

  pub from_front-leave_out :
      (lo : ℕ) (m : PriceMap)
      → IsSide R lo m
      → from_front (erase_at key p m) ≡ leave_out p (from_front m)
  unfolding erase_at
  from_front-leave_out lo [] v = unfold leave_out in refl
  from_front-leave_out lo ((j, ps) ∷ m) (a, b, c, d, e, f) = elim (Bool-cases (lt j key)) [
    | inl over ↦
        let absent = not_at j ps e (λ i. absurd (omega (arith, rank_of_lt j key over))) in
        rw (over, leave_out-append p ps (from_front m), leave_out_absent p ps absent)
          (ap (λ (l : List OrderPtr). ps ++ l) (from_front-leave_out (suc (rank j)) m f))
    | inr not_over ↦ elim (Bool-cases (lt key j)) [
      | inl below ↦
          rw (not_over, below)
            (sym (
              above_front (rank j) ((j, ps) ∷ m) (rank_of_lt key j below)
                (omega arith, b, c, d, e, f)))
      | inr not_below ↦
          let level : rank j ≡ rank key =
            ground (arith, lt_lem key j no_nan b, lt_lem j key b no_nan) in
          rw
            (
              not_over,
              not_below,
              leave_out-append p ps (from_front m),
              above_front (suc (rank j)) m (omega (arith, level)) f,
              sym (leave_out-erase p ps d),
            )
            (drop_empty_lem (erase p ps))
    ]
  ]
    where
      drop_empty_lem : (qs : List OrderPtr) → from_front (drop_empty j qs m) ≡ qs ++ from_front m
      drop_empty_lem [] = refl
      drop_empty_lem (q ∷ qs) = refl

  pub from_back-leave_out :
      (lo : ℕ) (m : PriceMap)
      → IsSide R lo m
      → from_back (erase_at key p m) ≡ leave_out p (from_back m)
  unfolding erase_at
  from_back-leave_out lo [] v = unfold leave_out in refl
  from_back-leave_out lo ((j, ps) ∷ m) (a, b, c, d, e, f) = elim (Bool-cases (lt j key)) [
    | inl over ↦
        let absent = not_at j ps e (λ i. absurd (omega (arith, rank_of_lt j key over))) in
        rw (over, leave_out-append p (from_back m) ps, leave_out_absent p ps absent)
          (ap (λ (l : List OrderPtr). l ++ ps) (from_back-leave_out (suc (rank j)) m f))
    | inr not_over ↦ elim (Bool-cases (lt key j)) [
      | inl below ↦
          rw (not_over, below)
            (sym (
              above_back (rank j) ((j, ps) ∷ m) (rank_of_lt key j below)
                (omega arith, b, c, d, e, f)))
      | inr not_below ↦
          let level : rank j ≡ rank key =
            ground (arith, lt_lem key j no_nan b, lt_lem j key b no_nan) in
          rw
            (
              not_over,
              not_below,
              leave_out-append p (from_back m) ps,
              above_back (suc (rank j)) m (omega (arith, level)) f,
              sym (leave_out-erase p ps d),
            )
            (drop_empty_lem (erase p ps))
    ]
  ]
    where
      drop_empty_lem : (qs : List OrderPtr) → from_back (drop_empty j qs m) ≡ from_back m ++ qs
      drop_empty_lem [] = sym (append-nil (from_back m))
      drop_empty_lem (q ∷ qs) = refl
