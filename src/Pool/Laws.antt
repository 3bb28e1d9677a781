-- ===== src/Pool/Laws.antt =====
-- include/object_pool.h: the free stack holds each index at most once, and handing out and taking
-- back slots keeps it so.
use order_matching_engine.Prelude.{
  ℕ, zero, suc, ◌≤◌, ◌<◌, ◌≡◌, refl, none, some, List, [], ◌∷◌, arith, contains, Distinct, All,
  length, false, ap, sym, ◌⊎◌, inl, inr,
}
use order_matching_engine.Pool.{ObjectPool, fill, init, allocate, deallocate, available, capacity}

-- The free indices are distinct and in range.
pub record IsValid {ℓ} {T : Type ℓ} (p : ObjectPool T) : Type 0 where
  pub distinct : Distinct p.free_indices
  pub in_range : All (λ i. i < p.size) p.free_indices

fill-above : (n i : ℕ) → n ≤ i → contains i (fill n) ≡ false
fill-above zero i h = refl
fill-above (suc n) i h = ground (arith, fill-above n i)

fill-Distinct : (n : ℕ) → Distinct (fill n)
fill-Distinct zero = tt
fill-Distinct (suc n) = (fill-above n n (omega arith), fill-Distinct n)

fill-below : (n m : ℕ) → n ≤ m → All (λ i. i < m) (fill n)
fill-below zero m h = tt
fill-below (suc n) m h = (omega arith, fill-below n m (omega arith))

length-fill : (n : ℕ) → length (fill n) ≡ n
length-fill zero = refl
length-fill (suc n) = ap suc (length-fill n)

module _ {ℓ} {T : Type ℓ} where
  -- A new pool is valid, and all of its slots are free.
  pub init-IsValid :
      (blank : T) (n : ℕ)
      → IsValid (init blank n) × (available (init blank n) ≡ n) × (capacity (init blank n) ≡ n)
  unfolding init available capacity
  init-IsValid blank n = (
    record { distinct = fill-Distinct n; in_range = fill-below n n (omega arith) },
    length-fill n,
    refl,
  )

  -- Of a valid pool, either nothing is free and nothing is handed out, or a slot in range is handed
  -- out that is then no longer free, and giving it back restores the pool.
  pub allocate_lem :
      (p : ObjectPool T)
      → IsValid p
      → ((available p ≡ 0) × (allocate p ≡ none))
        ⊎ ((i : ℕ) × (q : ObjectPool T) × (allocate p ≡ some (i, q))
            × IsValid q
            × (i < capacity p)
            × (contains i q.free_indices ≡ false)
            × (suc (available q) ≡ available p)
            × (deallocate i q ≡ p))
  unfolding allocate available capacity deallocate
  allocate_lem p v = go p.free_indices refl v.distinct v.in_range
    where
      go :
          (xs : List ℕ)
          → p.free_indices ≡ xs
          → Distinct xs
          → All (λ i. i < p.size) xs
          → ((length p.free_indices ≡ 0) × (allocate p ≡ none))
            ⊎ ((i : ℕ) × (q : ObjectPool T) × (allocate p ≡ some (i, q))
                × IsValid q
                × (i < p.size)
                × (contains i q.free_indices ≡ false)
                × (suc (length q.free_indices) ≡ length p.free_indices)
                × (deallocate i q ≡ p))
      go [] e d r = inl (rw e refl, rw (e, allocate) refl)
      go (i ∷ xs) e d r = inr (
        i,
        record p { free_indices = xs },
        rw (e, allocate) refl,
        record { distinct = d.1; in_range = r.1 },
        r.0,
        d.0,
        rw e refl,
        ap (λ (ys : List ℕ). record p { free_indices = ys }) (sym e),
      )

  -- A slot in range that is not free goes back to a valid pool, which stays valid, and is the next
  -- one handed out.
  deallocate_lem :
      (i : ℕ) (p : ObjectPool T)
      → IsValid p
      → i < capacity p
      → contains i p.free_indices ≡ false
      → IsValid (deallocate i p)
        × (available (deallocate i p) ≡ suc (available p))
        × (allocate (deallocate i p) ≡ some (i, p))
  unfolding allocate available capacity deallocate
  deallocate_lem i p v h c =
      (record { distinct = (c, v.distinct); in_range = (h, v.in_range) }, refl, refl)

  pub allocate_empty : (p : ObjectPool T) → p.free_indices ≡ [] → allocate p ≡ none
  unfolding allocate
  allocate_empty p e = rw (e, allocate) refl

  pub allocate_cons :
      (p : ObjectPool T) (i : ℕ) (rest : List ℕ)
      → p.free_indices ≡ i ∷ rest
      → allocate p ≡ some (i, record p { free_indices = rest })
  unfolding allocate
  allocate_cons p i rest e = rw (e, allocate) refl
