-- ===== src/Base/Errors.antt =====
-- Go's `error` and `(T, error)`. An error is told apart only by `errors.As(err, *ProviderError)`,
-- so it is a plain one, known by its text, or a provider's.
use Prim.Native.String.{String, ◌++◌}
use mathlib.Core.Bool.{Bool}
use mathlib.Core.Path.{◌≡◌, refl}
use mathlib.Core.Logic.{◌⊎◌, inl, inr}
use text.Mathlib.Text.{◌==◌}
use k8s_runpod_kubelet.Base.Tests.{if◌then◌else◌}

pub record ProviderError : Type 0 where
  pub provider : String
  pub code : String
  pub message : String
  pub retry : Bool

-- ProviderError.Error
unfoldable pub provider_error_text : ProviderError → String
provider_error_text e =
    if e.code == ""
    then e.provider ++ (" error: " ++ e.message)
    else e.provider ++ (" error " ++ (e.code ++ (": " ++ e.message)))

pub data GoError : Type 0 where
  plain : String → GoError
  from_provider : ProviderError → GoError

-- err.Error()
unfoldable pub error_text : GoError → String
unfolding provider_error_text
error_text (plain s) = s
error_text (from_provider e) = provider_error_text e

pub data Result {ℓ} (A : Type ℓ) : Type ℓ where
  ok : A → Result A
  err : GoError → Result A

-- `if err != nil { return err }` after a call
infixl 5 ◌>>=◌
abbrev pub ◌>>=◌ {ℓ κ} : {A : Type ℓ} {B : Type κ} → Result A → (A → Result B) → Result B
err problem >>= next = err problem
ok value >>= next = next value

-- fmt.Errorf(prefix + "%w", err), where nothing looks behind the new error
abbrev pub wrapped : String → GoError → GoError
wrapped prefix e = plain (prefix ++ error_text e)

abbrev pub wrap {ℓ} : {A : Type ℓ} → String → Result A → Result A
wrap prefix (ok a) = ok a
wrap prefix (err e) = err (wrapped prefix e)

pub Result-cases {ℓ} :
    {A : Type ℓ} (r : Result A) → ((a : A) × (r ≡ ok a)) ⊎ ((e : GoError) × (r ≡ err e))
Result-cases (ok a) = inl (a, refl)
Result-cases (err e) = inr (e, refl)

-- A chain that succeeds, taken apart.
pub bind-eq-ok {ℓ κ} :
    {A : Type ℓ} {B : Type κ} (first : Result A) (next : A → Result B) {end : B}
    → (first >>= next) ≡ ok end
    → (value : A) × (first ≡ ok value) × (next value ≡ ok end)
bind-eq-ok (err problem) next h = cc
bind-eq-ok (ok value) next h = (value, refl, h)
