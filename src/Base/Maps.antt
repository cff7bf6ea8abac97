-- ===== src/Base/Maps.antt =====
-- A Go map as an association list from ids: a write replaces the entry or adds one at the end.
use uptime_cairn.Base.{ℕ, ◌≡◌, refl, List, [], ◌∷◌, Option, none, some, arith, ◌==◌, if◌then◌else◌}

module _ {ℓ} {V : Type ℓ} where
  unfoldable pub lookup : ℕ → List (ℕ × V) → Option V
  lookup id [] = none
  lookup id (entry ∷ entries) =
      let further = lookup id entries in if entry.0 == id then some entry.1 else further

  unfoldable pub insert : ℕ → V → List (ℕ × V) → List (ℕ × V)
  insert id value [] = (id, value) ∷ []
  insert id value (entry ∷ entries) =
      let further = insert id value entries in
      if entry.0 == id then (id, value) ∷ entries else entry ∷ further

  pub lookup-insert :
      (id other : ℕ) (value : V) (entries : List (ℕ × V))
      → lookup other (insert id value entries)
        ≡ (if id == other then some value else lookup other entries)
  unfolding lookup insert
  lookup-insert id other value [] = refl
  lookup-insert id other value (entry ∷ entries) =
      ground (arith, lookup-insert id other value entries)

  -- delete(m, id)
  unfoldable pub remove : ℕ → List (ℕ × V) → List (ℕ × V)
  remove id [] = []
  remove id (entry ∷ entries) =
      let others = remove id entries in if entry.0 == id then others else entry ∷ others

  pub lookup-remove :
      (id other : ℕ) (entries : List (ℕ × V))
      → lookup other (remove id entries) ≡ (if id == other then none else lookup other entries)
  unfolding lookup remove
  lookup-remove id other [] = ground arith
  lookup-remove id other (entry ∷ entries) = ground (arith, lookup-remove id other entries)
