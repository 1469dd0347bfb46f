-- ===== src/Protocol/Json.antt =====
-- JSON values, and what Go's encoding/json makes of them for the field types of protocol.go and
-- client.go. `none` stands for an UnmarshalTypeError. A decoder is given the value that the
-- destination has, which `null` leaves as it is.
use k8s_runpod_kubelet.Base.{
  Bool, String, List, [], ◌∷◌, Option, none, some, ℤ, Float, to_int64, equal_fold, if◌then◌else◌,
  Dict, insert, suc, pos, negsuc, millionths, ◌*◌, ◌-◌,
}

-- A number stands in millionths. `num` is one that is written the way Go writes it, a whole one
-- without fraction and exponent; `frac` is one that is written otherwise, such as 1.0 or 1e2, which
-- encoding/json does not read into an integer.
mutual
  pub data Json : Type 0 where
    null : Json
    bool : Bool → Json
    num : ℤ → Json
    frac : ℤ → Json
    str : String → Json
    arr : Items → Json
    obj : Fields → Json

  pub data Items : Type 0 where
    nil : Items
    cons : Json → Items → Items

  pub data Fields : Type 0 where
    end : Fields
    field : String → Json → Fields → Fields

infixl 5 ◌>>=◌
abbrev pub ◌>>=◌ {ℓ κ} : {A : Type ℓ} {B : Type κ} → Option A → (A → Option B) → Option B
none >>= f = none
some a >>= f = f a

-- The members of an object in a struct's field of this name, the later over the earlier. Go
-- matches a key to the field by name, or else by case folding; no struct of the program has two
-- fields whose names fold alike.
unfoldable pub member {ℓ} : {A : Type ℓ} → (A → Json → Option A) → String → A → Fields → Option A
unfolding equal_fold
member decode name a end = some a
member decode name a (field k j rest) =
    if equal_fold k name
    then decode a j >>= (λ b. member decode name b rest)
    else member decode name a rest

-- A struct is read from an object; any other value but `null` is a type error.
abbrev pub struct {ℓ} : {A : Type ℓ} → A → (Fields → Option A) → Json → Option A
struct zero_value decode null = some zero_value
struct zero_value decode (obj fs) = decode fs
struct zero_value decode _ = none

unfoldable pub string_into : String → Json → Option String
string_into old null = some old
string_into old (str s) = some s
string_into old _ = none

unfoldable pub bool_into : Bool → Json → Option Bool
bool_into old null = some old
bool_into old (bool b) = some b
bool_into old _ = none

unfoldable pub int_into : ℤ → Json → Option ℤ
unfolding to_int64
int_into old null = some old
int_into old (num n) = to_int64 n
int_into old _ = none

unfoldable pub float_into : Float → Json → Option Float
float_into old null = some old
float_into old (num n) = some n
float_into old (frac n) = some n
float_into old _ = none

unfoldable pub strings_of : Items → Option (List String)
unfolding string_into
strings_of nil = some []
strings_of (cons j rest) = string_into "" j >>= (λ s. strings_of rest >>= (λ ss. some (s ∷ ss)))

-- []string; `null` makes it nil
unfoldable pub strings_into : List String → Json → Option (List String)
unfolding strings_of
strings_into old null = some []
strings_into old (arr items) = strings_of items
strings_into old _ = none

unfoldable pub entries_of : Dict String → Fields → Option (Dict String)
unfolding string_into insert
entries_of m end = some m
entries_of m (field k j rest) = string_into "" j >>= (λ s. entries_of (insert k s m) rest)

abbrev entries {ℓ} : {V : Type ℓ} → Option (Dict V) → Dict V
entries none = []
entries (some m) = m

-- map[string]string, whose old entries stay; `none` is nil, and `null` makes it nil
unfoldable pub dict_into : Option (Dict String) → Json → Option (Option (Dict String))
unfolding entries_of
dict_into old null = some none
dict_into old (obj fs) = entries_of (entries old) fs >>= (λ m. some (some m))
dict_into old _ = none

int_entries_of : Dict ℤ → Fields → Option (Dict ℤ)
unfolding int_into insert
int_entries_of m end = some m
int_entries_of m (field k j rest) = int_into (pos 0) j >>= (λ n. int_entries_of (insert k n m) rest)

-- map[string]int
unfoldable pub int_dict_into : Option (Dict ℤ) → Json → Option (Option (Dict ℤ))
unfolding int_entries_of
int_dict_into old null = some none
int_dict_into old (obj fs) = int_entries_of (entries old) fs >>= (λ m. some (some m))
int_dict_into old _ = none

-- a struct in a struct
abbrev pub struct_into {ℓ} : {A : Type ℓ} → (A → Fields → Option A) → A → Json → Option A
struct_into decode old null = some old
struct_into decode old (obj fs) = decode old fs
struct_into decode old _ = none

abbrev or_zero {ℓ} : {A : Type ℓ} → A → Option A → A
or_zero zero_value none = zero_value
or_zero zero_value (some a) = a

-- a pointer to a struct; `none` is nil
abbrev pub pointer_into {ℓ} :
    {A : Type ℓ} → A → (A → Fields → Option A) → Option A → Json → Option (Option A)
pointer_into zero_value decode old null = some none
pointer_into zero_value decode old (obj fs) =
    decode (or_zero zero_value old) fs >>= (λ a. some (some a))
pointer_into zero_value decode old _ = none

-- json.RawMessage keeps the text of the member, also a `null`
unfoldable pub raw_into : Option Json → Json → Option (Option Json)
raw_into old j = some (some j)

-- The JSON number of an int.
unfoldable pub json_int : ℤ → Json
json_int (pos n) = num (pos (n * millionths))
json_int (negsuc n) = num (negsuc (suc n * millionths - 1))

unfoldable pub json_strings : List String → Items
json_strings [] = nil
json_strings (s ∷ ss) = cons (str s) (json_strings ss)

unfoldable pub json_fields : Dict Json → Fields
json_fields [] = end
json_fields ((k, j) ∷ rest) = field k j (json_fields rest)

unfoldable pub string_fields : Dict String → Fields
string_fields [] = end
string_fields ((k, s) ∷ rest) = field k (str s) (string_fields rest)

-- A nil map is `null`.
unfoldable pub json_dict : Option (Dict String) → Json
unfolding string_fields
json_dict none = null
json_dict (some m) = obj (string_fields m)
