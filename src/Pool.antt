-- ===== src/Pool.antt =====
-- include/object_pool.h: a fixed array of objects and a stack of the indices that are free.
pub mod Laws
use order_matching_engine.Prelude.{
  ℕ, zero, suc, ◌-◌, ◌≡◌, Option, none, some, List, [], ◌∷◌, ◌++◌, ◌==◌, if◌then◌else◌, length,
}

-- `pool_` by its size and the contents of its slots; the head of `free_indices` is the vector's
-- back. A pointer to an object is the index of its slot, `obj - &pool_[0]`.
pub record ObjectPool {ℓ} (T : Type ℓ) : Type ℓ where
  pub size : ℕ
  pub slot : ℕ → T
  pub free_indices : List ℕ

-- The constructor's loop: `push_back(0)`, ..., `push_back(n - 1)`.
abbrev pub fill : ℕ → List ℕ
fill zero = []
fill (suc n) = n ∷ fill n

module _ {ℓ} {T : Type ℓ} where
  -- `blank` is the content of the slots that `emplace_back()` makes.
  unfoldable pub init : T → ℕ → ObjectPool T
  init blank pool_size = record {
    size = pool_size;
    slot = λ i. blank;
    free_indices = fill pool_size;
  }

  -- The object handed out, or nothing when the pool is exhausted.
  unfoldable pub allocate : ObjectPool T → Option (ℕ × ObjectPool T)
  allocate p = elim p.free_indices [
    | [] ↦ none
    | index ∷ rest ↦ some (index, record p { free_indices = rest })
  ]

  -- Without the assertion that the object is one of the pool.
  unfoldable pub deallocate : ℕ → ObjectPool T → ObjectPool T
  deallocate index p = record p { free_indices = index ∷ p.free_indices }

  unfoldable pub available : ObjectPool T → ℕ
  available p = length p.free_indices

  unfoldable pub capacity : ObjectPool T → ℕ
  capacity p = p.size

  -- `*obj = value`
  unfoldable pub store : ℕ → T → ObjectPool T → ObjectPool T
  store i v p = record p { slot = λ j. if j == i then v else p.slot j }
