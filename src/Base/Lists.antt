-- ===== src/Base/Lists.antt =====
-- Lists measured by native numbers, and the tests on them that the program uses.
use Prim.Native.Nat.{ℕ, zero, suc, ◌+◌, ◌-◌}
use Prim.Native.String.{String}
use mathlib.Core.Path.{◌≡◌, refl, sym, ap, ◌∙◌}
use mathlib.Core.Bool.{Bool, true, false}
use mathlib.Core.List.{List, [], ◌∷◌, ◌++◌, append-nil, append_assoc}
use native.Mathlib.Omega.{arith}
use text.Mathlib.Text.{◌==◌}
use k8s_runpod_kubelet.Base.Tests.{if◌then◌else◌, ltb}

module _ {ℓ} {A : Type ℓ} where
  abbrev pub length : List A → ℕ
  length [] = 0
  length (x ∷ xs) = suc (length xs)

  abbrev pub is_empty : List A → Bool
  is_empty [] = true
  is_empty (x ∷ xs) = false

  pub length-append : (xs ys : List A) → length (xs ++ ys) ≡ length xs + length ys
  length-append [] ys = omega arith
  length-append (x ∷ xs) ys = omega (arith, length-append xs ys)

  -- The predicate holds of every entry.
  abbrev pub All {κ} : (A → Type κ) → List A → Type κ
  All P [] = Unit
  All P (x ∷ xs) = P x × All P xs

  -- The first so many entries.
  unfoldable pub take : ℕ → List A → List A
  take zero xs = []
  take (suc n) [] = []
  take (suc n) (x ∷ xs) = x ∷ take n xs

  pub take_none : (n : ℕ) (xs : List A) → n ≡ 0 → take n xs ≡ []
  unfolding take
  take_none zero xs q = refl
  take_none (suc n) xs q = absurd (omega (arith, q))

  pub take-suc : (n m : ℕ) (x : A) (xs : List A) → n ≡ suc m → take n (x ∷ xs) ≡ x ∷ take m xs
  unfolding take
  take-suc n m x xs q = rw q refl

  pub take_of_nil : (n : ℕ) → take n [] ≡ []
  unfolding take
  take_of_nil zero = refl
  take_of_nil (suc n) = refl

  -- A list of at most `cap` entries, with as many of others behind it as there is room for.
  abbrev pub fill : (cap : ℕ) → (held new : List A) → List A
  fill cap held new = held ++ take (cap - length held) new

  pub fill_nil : (cap : ℕ) (held : List A) → fill cap held [] ≡ held
  fill_nil cap held = ap (λ xs. held ++ xs) (take_of_nil (cap - length held)) ∙ append-nil held

  pub fill_room :
      (cap : ℕ) (held : List A) (x : A) (new : List A)
      → ltb (length held) cap ≡ true
      → fill cap (held ++ x ∷ []) new ≡ fill cap held (x ∷ new)
  fill_room cap held x new room =
      let longer = length-append held (x ∷ []) in
      let n = cap - length (held ++ x ∷ []) in
      let fits : cap - length held ≡ suc n = ground (arith, room, longer) in
      append_assoc held (x ∷ []) (take n new)
      ∙ ap (λ xs. held ++ xs) (sym (take-suc (cap - length held) n x new fits))

  pub fill_full :
      (cap : ℕ) (held new : List A) → ltb (length held) cap ≡ false → fill cap held new ≡ held
  fill_full cap held new full =
      let none_left : cap - length held ≡ 0 = ground (arith, full) in
      ap (λ xs. held ++ xs) (take_none (cap - length held) new none_left) ∙ append-nil held

-- `for _, x := range xs { if x == s { return true } }; return false`
abbrev pub contains : String → List String → Bool
contains s [] = false
contains s (x ∷ xs) = if x == s then true else contains s xs

-- How often a text stands in a list.
abbrev pub count : String → List String → ℕ
count s [] = 0
count s (x ∷ xs) = let rest = count s xs in if x == s then suc rest else rest
