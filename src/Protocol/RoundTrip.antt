-- ===== src/Protocol/RoundTrip.antt =====
-- What is read back from the data of a command.
use mathlib.Core.List.{append-nil, append_assoc}
use k8s_runpod_kubelet.Base.{
  ◌<◌, ◌^◌, String, List, [], ◌∷◌, Option, none, some, ℤ, pos, negsuc, Float, ◌≡◌, refl, sym, ap,
  ◌∙◌, inl, inr, ◌==◌, eq_iff, Bool-cases, to_int64, ok, arith, Dict, lookup, insert, ◌++◌,
}
use k8s_runpod_kubelet.Protocol.Json.{
  Json, Fields, obj, string_into, int_into, float_into, dict_into, json_dict, entries_of,
  string_fields, strings_into, strings_of, json_int, json_strings,
}
use k8s_runpod_kubelet.Protocol.Slots.{
  slot_into, member-fields_of, text_slot, int_slot, float_slot, texts_slot, dict_slot,
}
use k8s_runpod_kubelet.Protocol.Messages.{DeployParams, TerminateParams, StatusParams, RejectParams}
use k8s_runpod_kubelet.Protocol.Decode.{
  read_deploy_params, read_terminate_params, read_status_params, read_reject_params, decode_data,
}
use k8s_runpod_kubelet.Protocol.Encode.{
  write_deploy_params, write_terminate_params, write_status_params, write_reject_params,
  new_command,
}

-- The numbers of a Go int.
abbrev pub IsInt64 : ℤ → Type 0
IsInt64 (pos n) = n < 2 ^ 63
IsInt64 (negsuc n) = n < 2 ^ 63

pub text_back : (s : String) → slot_into string_into "" (text_slot s) ≡ some s
unfolding string_into
text_back s = elim (Bool-cases (s == "")) [
  | inl e ↦ rw e (ap some (sym ((eq_iff s "").0 e)))
  | inr e ↦ rw e refl
]

int_back : (n : ℤ) → IsInt64 n → slot_into int_into (pos 0) (int_slot n) ≡ some n
unfolding int_into json_int to_int64
int_back (pos n) h = ground arith
int_back (negsuc n) h = ground arith

float_back : (x : Float) → slot_into float_into (pos 0) (float_slot x) ≡ some x
unfolding float_into
float_back (pos n) = ground arith
float_back (negsuc n) = refl

strings-json_strings : (ss : List String) → strings_of (json_strings ss) ≡ some ss
unfolding strings_of json_strings string_into
strings-json_strings [] = refl
strings-json_strings (s ∷ ss) = rw (strings-json_strings ss) refl

texts_back : (ss : List String) → slot_into strings_into [] (texts_slot ss) ≡ some ss
unfolding strings_into
texts_back [] = refl
texts_back (s ∷ ss) = strings-json_strings (s ∷ ss)

-- The keys of a map that is written into another: each of them is new.
abbrev pub IsNew : Dict String → Dict String → Type 0
IsNew old [] = Unit
IsNew old ((k, s) ∷ m) = (lookup k old ≡ none) × IsNew (old ++ (k, s) ∷ []) m

insert-new : (k s : String) (m : Dict String) → lookup k m ≡ none → insert k s m ≡ m ++ (k, s) ∷ []
unfolding insert lookup
insert-new k s [] h = refl
insert-new k s ((j, t) ∷ m) h = elim (Bool-cases (j == k)) [
  | inl e ↦ cc (rw e at h)
  | inr e ↦ rw e (ap (λ n. (j, t) ∷ n) (insert-new k s m (rw e at h)))
]

entries-string_fields :
    (old m : Dict String) → IsNew old m → entries_of old (string_fields m) ≡ some (old ++ m)
unfolding entries_of string_fields string_into
entries-string_fields old [] h = ap some (sym (append-nil old))
entries-string_fields old ((k, s) ∷ m) h =
    rw (insert-new k s old h.0) (entries-string_fields (old ++ (k, s) ∷ []) m h.1)
    ∙ ap some (append_assoc old ((k, s) ∷ []) m)

-- A map that is there and not empty has distinct keys; an empty one is written as none.
abbrev pub IsEnv : Option (Dict String) → Type 0
IsEnv none = Unit
IsEnv (some []) = ⊥
IsEnv (some (e ∷ m)) = IsNew [] (e ∷ m)

dict_back : (m : Option (Dict String)) → IsEnv m → slot_into dict_into none (dict_slot m) ≡ some m
unfolding dict_into json_dict
dict_back none h = refl
dict_back (some []) h = absurd h
dict_back (some (e ∷ m)) h = rw (entries-string_fields [] (e ∷ m) h) refl

-- The numbers and the map of a deploy command are ones that Go has.
pub record IsSendable (p : DeployParams) : Type 0 where
  pub env : IsEnv p.env
  pub disk : IsInt64 p.container_disk_in_gb
  pub volume : IsInt64 p.volume_in_gb
  pub gpus : IsInt64 p.gpu_count
  pub ram : IsInt64 p.min_ram_per_gpu

status_params_back : (p : StatusParams) → read_status_params (write_status_params p) ≡ some p
unfolding read_status_params write_status_params
status_params_back p = simp (member-fields_of, text_back)

terminate_params_back :
    (p : TerminateParams) → read_terminate_params (write_terminate_params p) ≡ some p
unfolding read_terminate_params write_terminate_params
terminate_params_back p = simp (member-fields_of, text_back)

reject_params_back : (p : RejectParams) → read_reject_params (write_reject_params p) ≡ some p
unfolding read_reject_params write_reject_params
reject_params_back p = simp (member-fields_of, text_back)

pub deploy_params_back :
    (p : DeployParams) → IsSendable p → read_deploy_params (write_deploy_params p) ≡ some p
unfolding read_deploy_params write_deploy_params
deploy_params_back p v = simp (
  member-fields_of,
  text_back,
  texts_back,
  float_back,
  dict_back p.env v.env,
  int_back p.container_disk_in_gb v.disk,
  int_back p.volume_in_gb v.volume,
  int_back p.gpu_count v.gpus,
  int_back p.min_ram_per_gpu v.ram,
)

pub decoded_back {ℓ} :
    {A : Type ℓ} (read : Json → Option A) (type : String) (fs : Fields) (a : A)
    → read (obj fs) ≡ some a
    → decode_data read (new_command type (obj fs)) ≡ ok a
unfolding decode_data new_command
decoded_back read type fs a h = rw h refl

-- DecodeData gives back what NewCommand was given, for each type of command data; for a deploy if its
-- numbers fit an int64 and its environment, where it is there, is a map that is not empty.
pub decode_data-new_command :
    (type : String) (d : DeployParams) (t : TerminateParams) (s : StatusParams) (r : RejectParams)
    → IsSendable d
    → (decode_data read_deploy_params (new_command type (write_deploy_params d)) ≡ ok d)
      × (decode_data read_terminate_params (new_command type (write_terminate_params t)) ≡ ok t)
      × (decode_data read_status_params (new_command type (write_status_params s)) ≡ ok s)
      × (decode_data read_reject_params (new_command type (write_reject_params r)) ≡ ok r)
unfolding write_deploy_params write_terminate_params write_status_params write_reject_params
decode_data-new_command type d t s r v = (
  decoded_back read_deploy_params type _ d (deploy_params_back d v),
  decoded_back read_terminate_params type _ t (terminate_params_back t),
  decoded_back read_status_params type _ s (status_params_back s),
  decoded_back read_reject_params type _ r (reject_params_back r),
)
