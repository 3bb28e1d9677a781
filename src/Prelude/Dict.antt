-- ===== src/Prelude/Dict.antt =====
-- `std::unordered_map` with a 64-bit key, as an association list with one entry to a key.
use Prim.Native.Nat.{ℕ, suc}
use mathlib.Core.Path.{◌≡◌, refl}
use mathlib.Core.Logic.{◌≢◌}
use mathlib.Core.Option.{Option, none, some}
use mathlib.Core.List.{List, [], ◌∷◌}
use native.Mathlib.Omega.{arith}
use order_matching_engine.Prelude.Tests.{◌==◌, if◌then◌else◌}
use order_matching_engine.Prelude.Lists.{length}

abbrev pub Dict {ℓ} : Type ℓ → Type ℓ
Dict V = List (ℕ × V)

module _ {ℓ} {V : Type ℓ} where
  -- `find`
  abbrev pub lookup : ℕ → Dict V → Option V
  lookup k [] = none
  lookup k ((j, v) ∷ d) = if k == j then some v else lookup k d

  -- `d[k] = v`
  abbrev pub insert : ℕ → V → Dict V → Dict V
  insert k v [] = (k, v) ∷ []
  insert k v ((j, w) ∷ d) = if k == j then (k, v) ∷ d else (j, w) ∷ insert k v d

  -- `erase(k)`
  abbrev pub remove : ℕ → Dict V → Dict V
  remove k [] = []
  remove k ((j, w) ∷ d) = if k == j then d else (j, w) ∷ remove k d

  pub lookup-insert :
      (k j : ℕ) (v : V) (d : Dict V)
      → lookup j (insert k v d) ≡ (if j == k then some v else lookup j d)
  lookup-insert k j v [] = refl
  lookup-insert k j v ((i, w) ∷ d) = ground (arith, lookup-insert k j v d)

  pub lookup-remove_ne : (j k : ℕ) (d : Dict V) → j ≢ k → lookup j (remove k d) ≡ lookup j d
  lookup-remove_ne j k [] h = refl
  lookup-remove_ne j k ((i, w) ∷ d) h = ground (arith, lookup-remove_ne j k d h)

  pub length-insert_new :
      (k : ℕ) (v : V) (d : Dict V) → lookup k d ≡ none → length (insert k v d) ≡ suc (length d)
  length-insert_new k v [] h = refl
  length-insert_new k v ((j, w) ∷ d) h = ground (arith, length-insert_new k v d)

  pub length-remove :
      (k : ℕ) {v : V} (d : Dict V) → lookup k d ≡ some v → length d ≡ suc (length (remove k d))
  length-remove k [] h = cc
  length-remove k {v} ((j, w) ∷ d) h = ground (arith, length-remove k {v = v} d)

  pub remove-insert_new :
      (k : ℕ) (v : V) (d : Dict V) → lookup k d ≡ none → remove k (insert k v d) ≡ d
  remove-insert_new k v [] h = ground arith
  remove-insert_new k v ((j, w) ∷ d) h = ground (arith, remove-insert_new k v d)

-- One entry to a key.
abbrev pub IsDict {ℓ} : {V : Type ℓ} → Dict V → Type ℓ
IsDict [] = Unit
IsDict ((k, v) ∷ d) = (lookup k d ≡ none) × IsDict d

module _ {ℓ} {V : Type ℓ} where
  pub lookup-remove-none : (j k : ℕ) (d : Dict V) → lookup j d ≡ none → lookup j (remove k d) ≡ none
  lookup-remove-none j k [] h = h
  lookup-remove-none j k ((i, w) ∷ d) h = ground (arith, lookup-remove-none j k d)

  pub insert-IsDict : (k : ℕ) (v : V) (d : Dict V) → IsDict d → IsDict (insert k v d)
  insert-IsDict k v [] u = (refl, tt)
  insert-IsDict k v ((j, w) ∷ d) u = ground (arith, insert-IsDict k v d u.1, lookup-insert k j v d)

  pub remove-IsDict : (k : ℕ) (d : Dict V) → IsDict d → IsDict (remove k d)
  remove-IsDict k [] u = tt
  remove-IsDict k ((j, w) ∷ d) u =
      ground (arith, remove-IsDict k d u.1, lookup-remove-none j k d u.0)

  pub lookup-remove_self : (k : ℕ) (d : Dict V) → IsDict d → lookup k (remove k d) ≡ none
  lookup-remove_self k [] u = refl
  lookup-remove_self k ((j, w) ∷ d) u = ground (arith, lookup-remove_self k d u.1)
