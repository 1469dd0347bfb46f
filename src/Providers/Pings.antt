-- ===== src/Providers/Pings.antt =====
-- pkg/providers/manager.go: PingAll and HealthCheck, whose goroutines end in any order.
use mathlib.Core.List.Permᴰ.{Permᴰ, nil, cons, swap, trans}
use mathlib.Core.Path.{subst, ap₂}
use k8s_runpod_kubelet.Base.{
  if◌then◌else◌, eq_iff, Bool, String, List, [], ◌∷◌, Option, none, some, Dict, lookup, insert,
  lookup-insert_self, lookup-insert_ne, ◌≡◌, refl, sym, ap, ◌∙◌, inl, inr, ◌==◌, text_cases,
  GoError, ok, arith,
}
use k8s_runpod_kubelet.Providers.World.{World}
use k8s_runpod_kubelet.Providers.Manager.{
  Manager, Provider, register_provider, add_provider, ping_all, health_check, ping_each, health_of,
  is_nil,
}

-- The goroutines of PingAll, in the order in which they take resultMutex: each writes the result of
-- its provider.
unfoldable pub write_results :
    World → List (String × Provider) → Dict (Option GoError) → Dict (Option GoError)
write_results w [] results = results
write_results w ((name, p) ∷ order) results = write_results w order (insert name (p.ping w) results)

-- No key stands twice.
abbrev pub IsDistinct : {V : Type 0} → Dict V → Type 0
IsDistinct [] = Unit
IsDistinct ((k, v) ∷ m) = (lookup k m ≡ none) × IsDistinct m

module _ {V : Type 0} where
  -- What the second of two maps offers in place of the first.
  Agrees : Dict V → Dict V → Type 0
  Agrees m n = IsDistinct n × ((k : String) → lookup k n ≡ lookup k m)

  agree_here :
      (k : String) (v : V) (m n : Dict V)
      → IsDistinct ((k, v) ∷ m)
      → Agrees m n
      → Agrees ((k, v) ∷ m) ((k, v) ∷ n)
  unfolding Agrees lookup
  agree_here k v m n (fresh, _) (d, same) =
      ((same k ∙ fresh, d), λ j. ap (λ o. if k == j then some v else o) (same j))

  agree_swap :
      (i j : String) (v w : V) (m : Dict V)
      → IsDistinct ((i, v) ∷ (j, w) ∷ m)
      → Agrees ((i, v) ∷ (j, w) ∷ m) ((j, w) ∷ (i, v) ∷ m)
  unfolding Agrees lookup
  agree_swap i j v w m (fresh, (other, d)) = elim (text_cases j i) [
    | inl (e, b) ↦ cc (rw b at fresh)
    | inr (n, b) ↦ (
      (ground (arith, other, eq_iff i j, eq_iff j i, b), (rw b at fresh, d)),
      λ k. ground (arith, eq_iff i k, eq_iff j k, eq_iff j i, b),
    )
  ]

  agree_trans : (m n o : Dict V) → Agrees m n → Agrees n o → Agrees m o
  unfolding Agrees
  agree_trans m n o (_, same) (d, same') = (d, λ k. same' k ∙ same k)

  -- The order of the entries of a map does not matter to its reader.
  perm-Agrees : {m n : Dict V} → Permᴰ m n → IsDistinct m → Agrees m n
  unfolding Agrees
  perm-Agrees nil d = (tt, λ k. refl)
  perm-Agrees (cons {a} {b} {l₁} {l₂} e p) d =
      subst (λ c. Agrees (a ∷ l₁) (c ∷ l₂)) e (agree_here a.0 a.1 l₁ l₂ d (perm-Agrees p d.1))
  perm-Agrees (swap {a} {b} {a'} {b'} {l} e f) d =
      subst (λ c. Agrees (a ∷ b ∷ l) (c ∷ b' ∷ l)) f
        (subst (λ c. Agrees (a ∷ b ∷ l) (b ∷ c ∷ l)) e (agree_swap a.0 b.0 a.1 b.1 l d))
  perm-Agrees {m} {n} (trans {l₂ = o} p q) d =
      let first = perm-Agrees p d in agree_trans m o n first (perm-Agrees q first.0)

-- A map stays one, whatever is written into it.
insert-IsDistinct :
    {V : Type 0} (k : String) (v : V) (m : Dict V) → IsDistinct m → IsDistinct (insert k v m)
unfolding insert lookup
insert-IsDistinct k v [] d = (refl, tt)
insert-IsDistinct k v ((j, w) ∷ m) (fresh, d) = elim (text_cases j k) [
  | inl (e, b) ↦ rw b (ap (λ x. lookup x m) (sym e) ∙ fresh, d)
  | inr (n, b) ↦ rw b (lookup-insert_ne k j v m (λ e. n (sym e)) ∙ fresh, insert-IsDistinct k v m d)
]

-- RegisterProvider keeps the names distinct.
add_provider-IsDistinct :
    (m : Manager) (p : Provider) (o : Option Provider) (t : Manager)
    → add_provider m p o ≡ ok t
    → IsDistinct m.providers
    → IsDistinct t.providers
add_provider-IsDistinct m p none t h d =
    let same : record { providers = insert p.get_name p m.providers } ≡ t = cc in
    subst (λ (x : Manager). IsDistinct x.providers) same
      (insert-IsDistinct p.get_name p m.providers d)
add_provider-IsDistinct m p (some q) t h d = cc

register_provider-IsDistinct :
    (m : Manager) (p : Provider) (t : Manager)
    → register_provider m p ≡ ok t
    → IsDistinct m.providers
    → IsDistinct t.providers
unfolding register_provider
register_provider-IsDistinct m p t h d =
    add_provider-IsDistinct m p (lookup p.get_name m.providers) t h d

abbrev pub pinged : World → Option Provider → Option (Option GoError) → Option (Option GoError)
pinged w none old = old
pinged w (some p) old = some (p.ping w)

abbrev pub healthy : World → Option Provider → Option Bool
healthy w none = none
healthy w (some p) = some (is_nil (p.ping w))

lookup-write_results :
    (w : World) (order : Dict Provider) (results : Dict (Option GoError)) (name : String)
    → IsDistinct order
    → lookup name (write_results w order results)
      ≡ pinged w (lookup name order) (lookup name results)
unfolding write_results lookup
lookup-write_results w [] results name d = refl
lookup-write_results w ((k, p) ∷ order) results name (fresh, d) =
    lookup-write_results w order (insert k (p.ping w) results) name d ∙ elim (text_cases k name) [
      | inl (e, b) ↦
          ap₂ (pinged w) (ap (λ x. lookup x order) (sym e) ∙ fresh) (
            ap (λ x. lookup x (insert k (p.ping w) results)) (sym e)
            ∙ lookup-insert_self k (p.ping w) results)
          ∙ rw b refl
      | inr (n, b) ↦
          ap (pinged w (lookup name order)) (lookup-insert_ne k name (p.ping w) results n)
          ∙ rw b refl
    ]

lookup-ping_each :
    (w : World) (ps : Dict Provider) (name : String)
    → lookup name (ping_each w ps) ≡ pinged w (lookup name ps) none
unfolding ping_each lookup
lookup-ping_each w [] name = refl
lookup-ping_each w ((k, p) ∷ ps) name = elim (text_cases k name) [
  | inl (e, b) ↦ rw b refl
  | inr (n, b) ↦ rw b (lookup-ping_each w ps name)
]

lookup-health_of :
    (w : World) (ps : Dict Provider) (name : String)
    → lookup name (health_of (ping_each w ps)) ≡ healthy w (lookup name ps)
unfolding ping_each health_of lookup
lookup-health_of w [] name = refl
lookup-health_of w ((k, p) ∷ ps) name = elim (text_cases k name) [
  | inl (e, b) ↦ rw b refl
  | inr (n, b) ↦ rw b (lookup-health_of w ps name)
]

-- Let the names of the providers of a manager be distinct. In whatever order the goroutines of
-- PingAll write their results: the results that are there at the end tell, for each name, what Ping
-- of the provider of this name returns, and nothing for a name that is not registered; and
-- HealthCheck tells true of exactly the providers whose Ping returns no error.
pub ping_all_any_order :
    (w : World) (m : Manager) (order : Dict Provider) (name : String)
    → IsDistinct m.providers
    → Permᴰ m.providers order
    → (lookup name (write_results w order []) ≡ pinged w (lookup name m.providers) none)
      × (lookup name (ping_all w m) ≡ pinged w (lookup name m.providers) none)
      × (lookup name (health_check w m) ≡ healthy w (lookup name m.providers))
unfolding ping_all health_check lookup Agrees
ping_all_any_order w m order name d p =
    let (distinct, same) = perm-Agrees p d in
    (
      lookup-write_results w order [] name distinct ∙ ap (λ o. pinged w o none) (same name),
      lookup-ping_each w m.providers name,
      lookup-health_of w m.providers name,
    )
