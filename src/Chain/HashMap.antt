-- ===== src/Chain/HashMap.antt =====
-- `std::unordered_map<std::string, V>`: an association list over byte strings. The order in which a
-- loop visits the entries is not specified; `Order` is any such order.
use bitcoin_toolkit.Common.{
  ◌≡◌, refl, Option, none, some, List, [], ◌∷◌, Bytes, bytes_eq, bytes_eq_iff, arith, if◌then◌else◌,
}

abbrev pub HashMap {ℓ} : Type ℓ → Type ℓ
HashMap V = List (Bytes × V)

module _ {ℓ} {V : Type ℓ} where
  unfoldable pub find : Bytes → HashMap V → Option V
  find k [] = none
  find k ((j, v) ∷ m) = if bytes_eq j k then some v else find k m

  -- `m[k] = v`
  unfoldable pub assign : Bytes → V → HashMap V → HashMap V
  assign k v [] = (k, v) ∷ []
  assign k v ((j, w) ∷ m) = if bytes_eq j k then (j, v) ∷ m else (j, w) ∷ assign k v m

  unfoldable pub erase : Bytes → HashMap V → HashMap V
  erase k [] = []
  erase k ((j, v) ∷ m) = let rest = erase k m in if bytes_eq j k then rest else (j, v) ∷ rest

  pub find-assign :
      (k j : Bytes) (v : V) (m : HashMap V)
      → find j (assign k v m) ≡ (if bytes_eq k j then some v else find j m)
  unfolding find assign
  find-assign k j v [] = refl
  find-assign k j v ((i, w) ∷ m) =
      ground (arith, bytes_eq_iff k j, bytes_eq_iff i k, bytes_eq_iff i j, find-assign k j v m)

  pub find-erase :
      (k j : Bytes) (m : HashMap V) → find j (erase k m) ≡ (if bytes_eq k j then none else find j m)
  unfolding find erase
  find-erase k j [] = ground arith
  find-erase k j ((i, w) ∷ m) =
      ground (arith, bytes_eq_iff k j, bytes_eq_iff i k, bytes_eq_iff i j, find-erase k j m)

  -- Each key has one entry.
  abbrev pub IsUnique : HashMap V → Type ℓ
  IsUnique [] = Unit
  IsUnique ((k, v) ∷ m) = (find k m ≡ none) × IsUnique m

  pub assign-IsUnique : (k : Bytes) (v : V) (m : HashMap V) → IsUnique m → IsUnique (assign k v m)
  unfolding assign find
  assign-IsUnique k v [] u = (refl, tt)
  assign-IsUnique k v ((i, w) ∷ m) (fresh, u) = ground (
    arith,
    bytes_eq_iff i k,
    bytes_eq_iff k i,
    find-assign k i v m,
    fresh,
    assign-IsUnique k v m u,
  )

-- The order in which `for (const auto& kv : m)` visits the entries.
pub record Order (V : Type 0) : Type 0 where
  pub arrange : HashMap V → HashMap V
  pub same_entries : (m : HashMap V) (k : Bytes) → find k (arrange m) ≡ find k m
  pub once : (m : HashMap V) → IsUnique m → IsUnique (arrange m)
