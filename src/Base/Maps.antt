-- ===== src/Base/Maps.antt =====
-- Go's `map[string]V` as an association list. The order of the entries stands for the unspecified
-- order of a `range` loop; a write to a key that is there keeps its place.
use Prim.Native.String.{String}
use mathlib.Core.Path.{◌≡◌, refl}
use mathlib.Core.Logic.{◌≢◌, ◌⊎◌, inl, inr}
use mathlib.Core.Option.{Option, none, some}
use mathlib.Core.List.{List, [], ◌∷◌}
use native.Mathlib.Omega.{arith}
use text.Mathlib.Text.{◌==◌}
use text.Mathlib.TextEquality.{eq_iff}
use text.Mathlib.TextPositions.{eq_refl}
use k8s_runpod_kubelet.Base.Tests.{if◌then◌else◌, text_cases, eq_false}

abbrev pub Dict {ℓ} : Type ℓ → Type ℓ
Dict V = List (String × V)

module _ {ℓ} {V : Type ℓ} where
  -- `v, ok := m[k]`
  unfoldable pub lookup : String → Dict V → Option V
  lookup key [] = none
  lookup key ((here, value) ∷ rest) = if here == key then some value else lookup key rest

  -- `m[k] = v`
  unfoldable pub insert : String → V → Dict V → Dict V
  insert key value [] = (key, value) ∷ []
  insert key value ((here, old) ∷ rest) =
      if here == key then (key, value) ∷ rest else (here, old) ∷ insert key value rest

  -- `delete(m, k)`
  unfoldable pub delete : String → Dict V → Dict V
  delete k [] = []
  delete k ((j, w) ∷ m) = let rest = delete k m in if j == k then rest else (j, w) ∷ rest

  -- the keys, in the order of a `range` loop
  abbrev pub keys : Dict V → List String
  keys [] = []
  keys ((j, w) ∷ m) = j ∷ keys m

  -- the values, in the same order
  abbrev pub values : Dict V → List V
  values [] = []
  values ((j, w) ∷ m) = w ∷ values m

  pub lookup-insert :
      (key wanted : String) (value : V) (entries : Dict V)
      → lookup wanted (insert key value entries)
        ≡ (if key == wanted then some value else lookup wanted entries)
  unfolding insert lookup
  lookup-insert key wanted value [] = refl
  lookup-insert key wanted value ((here, old) ∷ rest) =
      let above = lookup-insert key wanted value rest in
      ground (arith, above, eq_iff here wanted, eq_iff here key, eq_iff key wanted)

  pub lookup-delete :
      (k j : String) (m : Dict V) → lookup j (delete k m) ≡ (if k == j then none else lookup j m)
  unfolding lookup delete
  lookup-delete k j [] = ground arith
  lookup-delete k j ((i, w) ∷ m) =
      ground (arith, eq_iff k j, eq_iff i k, eq_iff i j, lookup-delete k j m)

  -- What is found behind a write is what was written, or was there before.
  pub insert_cases :
      (k j : String) (v w : V) (m : Dict V)
      → lookup j (insert k v m) ≡ some w
      → ((k ≡ j) × (v ≡ w)) ⊎ (lookup j m ≡ some w)
  insert_cases k j v w m h = elim (text_cases k j) [
    | inl (e, b) ↦ inl (e, cc (lookup-insert k j v m, b))
    | inr (n, b) ↦ inr (rw (lookup-insert k j v m, b) at h)
  ]

  pub lookup-insert_self :
      (key : String) (value : V) (entries : Dict V)
      → lookup key (insert key value entries) ≡ some value
  lookup-insert_self key value entries = simp (lookup-insert, eq_refl)

  pub lookup-insert_ne :
      (k j : String) (v : V) (m : Dict V) → k ≢ j → lookup j (insert k v m) ≡ lookup j m
  lookup-insert_ne k j v m n = simp (lookup-insert, eq_false k j n)

  pub lookup-delete_self : (k : String) (m : Dict V) → lookup k (delete k m) ≡ none
  lookup-delete_self k m = simp (lookup-delete, eq_refl)

  pub lookup-delete_ne : (k j : String) (m : Dict V) → k ≢ j → lookup j (delete k m) ≡ lookup j m
  lookup-delete_ne k j m n = simp (lookup-delete, eq_false k j n)

  pub delete_cases :
      (k j : String) (w : V) (m : Dict V) → lookup j (delete k m) ≡ some w → lookup j m ≡ some w
  delete_cases k j w m h = elim (text_cases k j) [
    | inl (e, b) ↦ cc (lookup-delete k j m, b)
    | inr (n, b) ↦ rw (lookup-delete k j m, b) at h
  ]
