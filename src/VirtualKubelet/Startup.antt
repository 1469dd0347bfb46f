-- ===== src/VirtualKubelet/Startup.antt =====
-- pkg/virtual_kubelet/kubelet.go: what initializeProviders registers.
use k8s_runpod_kubelet.Base.{
  ℕ, suc, ◌≤◌, true, String, List, [], ◌∷◌, some, ◌≡◌, refl, ap, ◌∙◌, inl, inr, ◌==◌, Bool-cases,
  ok, err, GoError, wrap, ◌>>=◌, contains, count, lookup, insert, lookup-insert_self, arith,
}
use k8s_runpod_kubelet.Providers.Manager.{
  Manager, Provider, new_manager, register_provider, add_provider,
}
use k8s_runpod_kubelet.Config.Settings.{Config, is_provider_enabled}
use k8s_runpod_kubelet.VirtualKubelet.Setup.{init_provider, init_loop, initialize_providers}

contains-count : (s : String) (xs : List String) → 1 ≤ count s xs → contains s xs ≡ true
contains-count s [] h = absurd (omega (arith, h))
contains-count s (x ∷ xs) h = elim (Bool-cases (x == s)) [
  | inl e ↦ simp e
  | inr e ↦ rw e (contains-count s xs (rw e at h))
]

one : (n : ℕ) → suc n ≡ 1 → n ≡ 0
one n h = omega (arith, h)

two : (n : ℕ) → 2 ≤ suc n → 1 ≤ n
two n h = omega (arith, h)

abbrev refusal : String
refusal = "failed to register RunPod provider: "

enabled :
    (cfg : Config)
    → 1 ≤ count "runpod" cfg.providers.enabled_providers
    → is_provider_enabled cfg "runpod" ≡ true
unfolding is_provider_enabled
enabled cfg h = contains-count "runpod" cfg.providers.enabled_providers h

module _ (cfg : Config) (client : Provider) where
  registers :
      (x : String) (m : Manager)
      → is_provider_enabled cfg "runpod" ≡ true
      → (x == "runpod") ≡ true
      → init_provider cfg client m x ≡ wrap refusal (register_provider m client)
  unfolding init_provider
  registers x m on e = elim (Bool-cases (cfg.providers.runpod.api_key == "")) [
    | inl k ↦ simp (e, k, on)
    | inr k ↦ simp (e, k)
  ]

  present :
      (m : Manager) (p : Provider)
      → lookup client.get_name m.providers ≡ some p
      → (e : GoError) × (wrap refusal (register_provider m client) ≡ err e)
  unfolding register_provider
  present m p h = (_, ap (λ o. wrap refusal (add_provider m client o)) h)

  -- Names other than "runpod" are passed over.
  loop_passes :
      (names : List String) (m : Manager)
      → count "runpod" names ≡ 0
      → init_loop cfg client names m ≡ ok m
  unfolding init_loop init_provider
  loop_passes [] m h = refl
  loop_passes (x ∷ xs) m h = elim (Bool-cases (x == "runpod")) [
    | inl e ↦ absurd (ground (arith, h, e))
    | inr e ↦ rw e (loop_passes xs m (rw e at h))
  ]

  -- A second "runpod" is refused.
  loop_refuses :
      (names : List String) (m : Manager) (p : Provider)
      → is_provider_enabled cfg "runpod" ≡ true
      → lookup client.get_name m.providers ≡ some p
      → 1 ≤ count "runpod" names
      → (e : GoError) × (init_loop cfg client names m ≡ err e)
  unfolding init_loop init_provider register_provider
  loop_refuses [] m p on h n = absurd (omega (arith, n))
  loop_refuses (x ∷ xs) m p on h n = elim (Bool-cases (x == "runpod")) [
    | inl e ↦
        let (problem, q) = present m p h in
        (problem, ap (λ r. r >>= init_loop cfg client xs) (registers x m on e ∙ q))
    | inr e ↦ rw e (loop_refuses xs m p on h (rw e at n))
  ]

  -- A first "runpod" is registered.
  loop_registers :
      (names : List String)
      → is_provider_enabled cfg "runpod" ≡ true
      → (count "runpod" names ≡ 1
          → init_loop cfg client names new_manager
            ≡ ok (record { providers = (client.get_name, client) ∷ [] }))
        × (2 ≤ count "runpod" names
            → (e : GoError) × (init_loop cfg client names new_manager ≡ err e))
  unfolding init_loop new_manager register_provider insert lookup
  loop_registers [] on = (λ h. absurd (omega (arith, h)), λ h. absurd (omega (arith, h)))
  loop_registers (x ∷ xs) on = elim (Bool-cases (x == "runpod")) [
    | inl e ↦
        let first = ap (λ r. r >>= init_loop cfg client xs) (registers x new_manager on e) in
        (
          λ h. first ∙ loop_passes xs _ (one _ (rw e at h)),
          λ h.
              let (problem, q) =
                loop_refuses xs _ client on (lookup-insert_self client.get_name client [])
                  (two _ (rw e at h)) in
              (problem, first ∙ q),
        )
    | inr e ↦ rw e (loop_registers xs on)
  ]

-- What initializeProviders registers: nothing if "runpod" is not enabled, the RunPod client if it is
-- enabled once; a configuration that enables it twice fails.
initialize_providers-count :
    (cfg : Config) (client : Provider)
    → let n = count "runpod" cfg.providers.enabled_providers in
      (n ≡ 0 → initialize_providers cfg client new_manager ≡ ok new_manager)
      × (n ≡ 1
          → initialize_providers cfg client new_manager
            ≡ ok (record { providers = (client.get_name, client) ∷ [] }))
      × (2 ≤ n → (e : GoError) × (initialize_providers cfg client new_manager ≡ err e))
unfolding initialize_providers
initialize_providers-count cfg client =
    let names = cfg.providers.enabled_providers in
    (
      λ h. loop_passes cfg client names new_manager h,
      λ h. (loop_registers cfg client names (enabled cfg (omega (arith, h)))).0 h,
      λ h. (loop_registers cfg client names (enabled cfg (omega (arith, h)))).1 h,
    )
