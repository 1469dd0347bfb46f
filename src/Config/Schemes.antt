-- ===== src/Config/Schemes.antt =====
-- The scheme of the URL that the WebSocket client dials.
use Prim.Native.String.{◌++◌}
use k8s_runpod_kubelet.Base.{
  false, String, some, ◌≡◌, refl, ◌⊎◌, inl, inr, Option-cases, has_prefix, replace_first,
  strip_prefix, splice, append-strip_prefix,
}
use k8s_runpod_kubelet.Config.Urls.{web_socket_url}

-- What becomes of a URL.
abbrev pub Dials : String → String → Type 0
Dials url w =
    ((rest : String) × (url ≡ "http://" ++ rest) × (w ≡ "ws://" ++ rest))
    ⊎ ((rest : String) × (url ≡ "https://" ++ rest) × (w ≡ "wss://" ++ rest))
    ⊎ ((rest : String) × ((url ≡ "ws://" ++ rest) ⊎ (url ≡ "wss://" ++ rest)) × (w ≡ url))
    ⊎ ((has_prefix url "http://" ≡ false)
        × (has_prefix url "https://" ≡ false)
        × (has_prefix url "ws://" ≡ false)
        × (has_prefix url "wss://" ≡ false)
        × (w ≡ "wss://" ++ url))

replace-strip_prefix :
    (s old new r : String) → strip_prefix old s ≡ some r → replace_first s old new ≡ new ++ r
unfolding replace_first splice
replace-strip_prefix String.[] old new r h = rw h refl
replace-strip_prefix (String.◌∷◌ c s) old new r h = rw h refl

-- What the client dials: ws:// for http:// and wss:// for https://, the URL itself if its scheme is
-- ws:// or wss://, and the URL behind wss:// if it has none of these.
web_socket_url-Dials : (url : String) → Dials url (web_socket_url url)
unfolding web_socket_url
web_socket_url-Dials url = elim (Option-cases (strip_prefix "http://" url)) [
  | inr (rest, h) ↦ inl (
    rest,
    append-strip_prefix "http://" url rest h,
    rw h (replace-strip_prefix url "http://" "ws://" rest h),
  )
  | inl h ↦ elim (Option-cases (strip_prefix "https://" url)) [
    | inr (rest, t) ↦ inr (
        inl (
          rest,
          append-strip_prefix "https://" url rest t,
          rw (h, t) (replace-strip_prefix url "https://" "wss://" rest t),
        ))
    | inl t ↦ elim (Option-cases (strip_prefix "ws://" url)) [
      | inr (rest, w) ↦
          inr (inr (inl (rest, inl (append-strip_prefix "ws://" url rest w), rw (h, t, w) refl)))
      | inl w ↦ elim (Option-cases (strip_prefix "wss://" url)) [
        | inr (rest, x) ↦
            inr (
              inr (inl (rest, inr (append-strip_prefix "wss://" url rest x), rw (h, t, w, x) refl)))
        | inl x ↦ inr (inr (inr (rw h refl, rw t refl, rw w refl, rw x refl, rw (h, t, w, x) refl)))
      ]
    ]
  ]
]
