-- ===== src/Protocol/Slots.antt =====
-- How encoding/json writes a struct: its fields in their order, less those that `omitempty` drops,
-- and what its reader finds there again.
use k8s_runpod_kubelet.Base.{
  Bool, true, false, String, List, [], ◌∷◌, Option, none, some, ℤ, Float, Dict, ◌≡◌, refl, ◌∙◌, inl,
  inr, ◌==◌, is_empty, is_zero, equal_fold, Bool-cases, if◌then◌else◌,
}
use k8s_runpod_kubelet.Protocol.Json.{
  Json, num, str, arr, Fields, end, field, ◌>>=◌, member, json_int, json_strings, json_dict,
}

-- The fields of a struct by their names; `none` is a field that is dropped.
abbrev pub Slots : Type 0
Slots = List (String × Option Json)

unfoldable pub fields_of : Slots → Fields
fields_of [] = end
fields_of ((k, none) ∷ rest) = fields_of rest
fields_of ((k, some j) ∷ rest) = field k j (fields_of rest)

-- The value of a field that is dropped where the test holds.
abbrev pub unless : Bool → Json → Option Json
unless true j = none
unless false j = some j

-- omitempty for the types that the structs have
abbrev pub text_slot : String → Option Json
text_slot s = unless (s == "") (str s)

abbrev pub int_slot : ℤ → Option Json
int_slot n = unless (is_zero n) (json_int n)

abbrev pub float_slot : Float → Option Json
float_slot x = unless (is_zero x) (num x)

abbrev pub texts_slot : List String → Option Json
texts_slot ss = unless (is_empty ss) (arr (json_strings ss))

abbrev dict_is_empty : Option (Dict String) → Bool
dict_is_empty none = true
dict_is_empty (some m) = is_empty m

abbrev pub dict_slot : Option (Dict String) → Option Json
dict_slot m = unless (dict_is_empty m) (json_dict m)

-- The slot that is read into a field of this name.
abbrev pub pick : String → Slots → Option Json
pick name [] = none
pick name ((k, o) ∷ rest) = let found = pick name rest in if equal_fold k name then o else found

abbrev pub absent : String → Slots → Bool
absent name [] = true
absent name ((k, o) ∷ rest) = if equal_fold k name then false else absent name rest

-- At most one slot is read into a field of this name.
abbrev pub once : String → Slots → Bool
once name [] = true
once name ((k, o) ∷ rest) = if equal_fold k name then absent name rest else once name rest

abbrev pub slot_into {ℓ} : {A : Type ℓ} → (A → Json → Option A) → A → Option Json → Option A
slot_into decode a none = some a
slot_into decode a (some j) = decode a j

module _ {ℓ} {A : Type ℓ} (decode : A → Json → Option A) (name : String) where
  -- A slot of another name is passed over.
  member_other :
      (k : String) (o : Option Json) (rest : Slots) (a : A)
      → equal_fold k name ≡ false
      → member decode name a (fields_of ((k, o) ∷ rest)) ≡ member decode name a (fields_of rest)
  unfolding member fields_of
  member_other k none rest a e = refl
  member_other k (some j) rest a e = rw e refl

  member_here :
      (k : String) (o : Option Json) (rest : Slots) (a : A)
      → equal_fold k name ≡ true
      → member decode name a (fields_of ((k, o) ∷ rest))
        ≡ slot_into decode a o >>= (λ b. member decode name b (fields_of rest))
  unfolding member fields_of
  member_here k none rest a e = refl
  member_here k (some j) rest a e = rw e refl

  member-absent :
      (slots : Slots) (a : A)
      → absent name slots ≡ true
      → member decode name a (fields_of slots) ≡ some a
  unfolding member fields_of
  member-absent [] a h = refl
  member-absent ((k, o) ∷ rest) a h = elim (Bool-cases (equal_fold k name)) [
    | inl e ↦ cc (rw e at h)
    | inr e ↦ member_other k o rest a e ∙ member-absent rest a (rw e at h)
  ]

  bind_absent :
      (o : Option A) (rest : Slots)
      → absent name rest ≡ true
      → (o >>= (λ b. member decode name b (fields_of rest))) ≡ o
  bind_absent none rest h = refl
  bind_absent (some b) rest h = member-absent rest b h

  -- A field is read from its slot, if there is only one.
  pub member-fields_of :
      (slots : Slots) (a : A)
      → once name slots ≡ true
      → member decode name a (fields_of slots) ≡ slot_into decode a (pick name slots)
  unfolding member fields_of
  member-fields_of [] a h = refl
  member-fields_of ((k, o) ∷ rest) a h = elim (Bool-cases (equal_fold k name)) [
    | inl e ↦
        member_here k o rest a e ∙ bind_absent (slot_into decode a o) rest (rw e at h) ∙ rw e refl
    | inr e ↦ member_other k o rest a e ∙ member-fields_of rest a (rw e at h) ∙ rw e refl
  ]
