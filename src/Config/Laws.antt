-- ===== src/Config/Laws.antt =====
-- What a valid configuration is, and that the defaults are one.
use k8s_runpod_kubelet.Base.{
  ℕ, ◌≤◌, Bool, true, false, String, List, [], ◌∷◌, Option, none, some, ◌≡◌, ◌≢◌, ◌↔◌, ◌⊎◌, refl,
  sym, inl, inr, ◌==◌, not, text_cases, Bool-cases, if◌then◌else◌, contains, is_empty, is_positive,
  All, GoError, ℤ, pos, negsuc, arith,
}
use k8s_runpod_kubelet.Config.Settings.{
  Config, WebSocketConfig, valid_providers, first_invalid, is_port, validate, check_timeouts,
}

abbrev pub IsKnown : String → Type 0
IsKnown p = (p ≡ "runpod") ⊎ ((p ≡ "vastai") ⊎ ((p ≡ "salad") ⊎ ((p ≡ "aws") ⊎ (p ≡ "gcp"))))

abbrev pub IsPort : ℤ → Type 0
IsPort z = (n : ℕ) × (z ≡ pos n) × (1 ≤ n) × (n ≤ 65535)

abbrev pub IsPositive : ℤ → Type 0
IsPositive z = (n : ℕ) × (z ≡ pos n) × (1 ≤ n)

-- What a configuration must have to be valid.
pub record IsValid (c : Config) : Type 0 where
  pub has_url : c.backend_url ≢ ""
  pub has_key : c.backend_api_key ≢ ""
  pub has_node : c.node_name ≢ ""
  pub port : IsPort c.listen_port
  pub some_provider : c.providers.enabled_providers ≢ []
  pub known_providers : All IsKnown c.providers.enabled_providers
  pub reconnects : IsPositive c.web_socket.reconnect_interval
  pub pings : IsPositive c.web_socket.ping_interval

is_port_iff : (z : ℤ) → (is_port z ≡ true) ↔ IsPort z
is_port_iff (pos n) =
    (λ h. (n, refl, ground (arith, h), ground (arith, h)), λ (m, e, a, b). ground (arith, e, a, b))
is_port_iff (negsuc n) = (λ h. cc h, λ (m, e, a, b). cc e)

is_positive_iff : (z : ℤ) → (is_positive z ≡ true) ↔ IsPositive z
is_positive_iff (pos n) = (λ h. (n, refl, ground (arith, h)), λ (m, e, a). ground (arith, e, a))
is_positive_iff (negsuc n) = (λ h. cc h, λ (m, e, a). cc e)

is_empty_iff : (ps : List String) → (is_empty ps ≡ false) ↔ (ps ≢ [])
is_empty_iff [] = (λ h. cc h, λ n. absurd (n refl))
is_empty_iff (p ∷ ps) = (λ h. λ e. cc e, λ n. refl)

-- The first name of a list, or one of the others.
one_of_iff {κ} :
    {Q : Type κ} (x p : String) (rest : Bool)
    → (rest ≡ true) ↔ Q
    → ((if x == p then true else rest) ≡ true) ↔ ((p ≡ x) ⊎ Q)
one_of_iff x p rest q = elim (text_cases x p) [
  | inl (e, b) ↦ (λ h. inl (sym e), λ c. rw b)
  | inr (n, b) ↦ (
    λ h. inr (q.0 (rw b at h)),
    λ c. elim c [ inl e ↦ absurd (n (sym e)) | inr r ↦ rw b (q.1 r) ],
  )
]

last_iff : (x p : String) → ((if x == p then true else false) ≡ true) ↔ (p ≡ x)
last_iff x p = elim (text_cases x p) [
  | inl (e, b) ↦ (λ h. sym e, λ c. rw b)
  | inr (n, b) ↦ (λ h. cc (rw b at h), λ c. absurd (n (sym c)))
]

contains-IsKnown : (p : String) → (contains p valid_providers ≡ true) ↔ IsKnown p
contains-IsKnown p =
    one_of_iff "runpod" p _
      (one_of_iff "vastai" p _ (one_of_iff "salad" p _ (one_of_iff "aws" p _ (last_iff "gcp" p))))

first_invalid_iff : (ps : List String) → (first_invalid ps ≡ none) ↔ All IsKnown ps
unfolding first_invalid
first_invalid_iff [] = (λ h. tt, λ h. refl)
first_invalid_iff (p ∷ ps) = elim (Bool-cases (contains p valid_providers)) [
  | inl e ↦ (
    λ h. ((contains-IsKnown p).0 e, (first_invalid_iff ps).0 (rw e at h)),
    λ h. rw e ((first_invalid_iff ps).1 h.1),
  )
  | inr e ↦ (λ h. cc (e, h), λ h. cc (e, (contains-IsKnown p).1 h.0))
]

-- A check that refuses on b, before the others.
refused_iff :
    (b : Bool) (e : GoError) (rest : Option GoError)
    → ((if b then some e else rest) ≡ none) ↔ ((b ≡ false) × (rest ≡ none))
refused_iff true e rest = (λ h. cc h, λ h. cc (h.0))
refused_iff false e rest = (λ h. (refl, h), λ h. h.1)

blank_iff : (s : String) → ((s == "") ≡ false) ↔ (s ≢ "")
blank_iff s = elim (text_cases s "") [
  | inl (p, e) ↦ (λ h. cc (e, h), λ h. absurd (h p))
  | inr (p, e) ↦ (λ h. p, λ h. e)
]

negated_iff : (b : Bool) → (not b ≡ false) ↔ (b ≡ true)
negated_iff true = (λ h. refl, λ h. refl)
negated_iff false = (λ h. sym h, λ h. sym h)

timeouts_iff :
    (ws : WebSocketConfig) (o : Option String)
    → (check_timeouts ws o ≡ none)
      ↔ ((o ≡ none) × IsPositive ws.reconnect_interval × IsPositive ws.ping_interval)
unfolding check_timeouts
timeouts_iff ws (some p) = (λ h. cc h, λ h. cc (h.0))
timeouts_iff ws none = (
  λ h.
      let (r, rest) = (refused_iff _ _ _).0 h in
      let (q, end) = (refused_iff _ _ _).0 rest in
      (
        refl,
        (is_positive_iff _).0 ((negated_iff _).0 r),
        (is_positive_iff _).0 ((negated_iff _).0 q),
      ),
  λ h. (refused_iff _ _ _).1 (
    (negated_iff _).1 ((is_positive_iff _).1 h.1),
    (refused_iff _ _ _).1 ((negated_iff _).1 ((is_positive_iff _).1 h.2), refl),
  ),
)

-- Validate accepts exactly the valid configurations: those with a URL, a key and a node name, a port
-- from 1 to 65535, at least one provider, none but runpod, vastai, salad, aws and gcp, and a
-- positive interval between connections and between pings.
pub validate_iff : (c : Config) → (validate c ≡ none) ↔ IsValid c
unfolding validate
validate_iff c = (there, back)
  where
    there : validate c ≡ none → IsValid c
    there h =
        let (u, h1) = (refused_iff _ _ _).0 h in
        let (k, h2) = (refused_iff _ _ _).0 h1 in
        let (n, h3) = (refused_iff _ _ _).0 h2 in
        let (p, h4) = (refused_iff _ _ _).0 h3 in
        let (s, h5) = (refused_iff _ _ _).0 h4 in
        let t = (timeouts_iff c.web_socket _).0 h5 in
        record {
          has_url = (blank_iff _).0 u;
          has_key = (blank_iff _).0 k;
          has_node = (blank_iff _).0 n;
          port = (is_port_iff _).0 ((negated_iff _).0 p);
          some_provider = (is_empty_iff _).0 s;
          known_providers = (first_invalid_iff _).0 t.0;
          reconnects = t.1;
          pings = t.2;
        }

    back : IsValid c → validate c ≡ none
    back v = (refused_iff _ _ _).1 (
      (blank_iff _).1 v.has_url,
      (refused_iff _ _ _).1 (
        (blank_iff _).1 v.has_key,
        (refused_iff _ _ _).1 (
          (blank_iff _).1 v.has_node,
          (refused_iff _ _ _).1 (
            (negated_iff _).1 ((is_port_iff _).1 v.port),
            (refused_iff _ _ _).1 (
              (is_empty_iff _).1 v.some_provider,
              (timeouts_iff c.web_socket _).1
                  ((first_invalid_iff _).1 v.known_providers, v.reconnects, v.pings),
            ),
          ),
        ),
      ),
    )
