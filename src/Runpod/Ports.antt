-- ===== src/Runpod/Ports.antt =====
-- The proxy URLs of the HTTP ports of a pod.
use k8s_runpod_kubelet.Base.{
  String, List, [], ◌∷◌, Option, none, some, ◌≡◌, ◌≢◌, ◌↔◌, ap, sym, ◌∙◌, ◌⊎◌, inl, inr, text_cases,
  eq_false, Dict, lookup, insert_cases, lookup-insert, lookup-insert_self, lookup-insert_ne,
}
use k8s_runpod_kubelet.Runpod.Client.{http_port, proxy_url, add_url, port_urls, proxy_port_urls}

-- One of the specifications is `port/http`.
abbrev pub Offers : String → List String → Type 0
Offers port [] = ⊥
Offers port (spec ∷ specs) = (http_port spec ≡ some port) ⊎ Offers port specs

module _ (pod_id : String) where
  add_url_cases :
      (o : Option String) (port url : String) (urls : Dict String)
      → lookup port (add_url pod_id o urls) ≡ some url
      → (lookup port urls ≡ some url) ⊎ ((o ≡ some port) × (url ≡ proxy_url pod_id port))
  unfolding add_url
  add_url_cases none port url urls h = inl h
  add_url_cases (some p) port url urls h =
      elim (insert_cases p port (proxy_url pod_id p) url urls h) [
        | inl (q, r) ↦ inr (ap some q, sym r ∙ ap (proxy_url pod_id) q)
        | inr q ↦ inl q
      ]

  port_urls_cases :
      (specs : List String) (port url : String) (urls : Dict String)
      → lookup port (port_urls pod_id specs urls) ≡ some url
      → (lookup port urls ≡ some url) ⊎ (Offers port specs × (url ≡ proxy_url pod_id port))
  unfolding port_urls
  port_urls_cases [] port url urls h = inl h
  port_urls_cases (spec ∷ specs) port url urls h =
      elim (port_urls_cases specs port url (add_url pod_id (http_port spec) urls) h) [
        | inr (o, e) ↦ inr (inr o, e)
        | inl q ↦ elim (add_url_cases (http_port spec) port url urls q) [
          | inl r ↦ inl r
          | inr (o, e) ↦ inr (inl o, e)
        ]
      ]

  -- A URL that is there stays.
  add_url_kept :
      (o : Option String) (port : String) (urls : Dict String)
      → lookup port urls ≡ some (proxy_url pod_id port)
      → lookup port (add_url pod_id o urls) ≡ some (proxy_url pod_id port)
  unfolding add_url
  add_url_kept none port urls h = h
  add_url_kept (some p) port urls h = elim (text_cases p port) [
    | inl (q, b) ↦ lookup-insert p port _ urls ∙ rw b (ap (λ x. some (proxy_url pod_id x)) q)
    | inr (n, b) ↦ lookup-insert_ne p port _ urls n ∙ h
  ]

  port_urls_kept :
      (specs : List String) (port : String) (urls : Dict String)
      → lookup port urls ≡ some (proxy_url pod_id port)
      → lookup port (port_urls pod_id specs urls) ≡ some (proxy_url pod_id port)
  unfolding port_urls
  port_urls_kept [] port urls h = h
  port_urls_kept (spec ∷ specs) port urls h =
      port_urls_kept specs port _ (add_url_kept (http_port spec) port urls h)

  port_urls_offered :
      (specs : List String) (port : String) (urls : Dict String)
      → Offers port specs
      → lookup port (port_urls pod_id specs urls) ≡ some (proxy_url pod_id port)
  unfolding port_urls add_url
  port_urls_offered [] port urls h = absurd h
  port_urls_offered (spec ∷ specs) port urls (inl e) =
      port_urls_kept specs port (add_url pod_id (http_port spec) urls)
        (ap (λ o. lookup port (add_url pod_id o urls)) e ∙ lookup-insert_self port _ urls)
  port_urls_offered (spec ∷ specs) port urls (inr o) = port_urls_offered specs port _ o

-- The map of a pod with an id has a URL for a port exactly if the port is one of the HTTP ports that
-- were asked for, and the URL is the proxy's for this pod and port.
proxy_port_urls_iff :
    (pod_id : String) (specs : List String) (port url : String)
    → pod_id ≢ ""
    → (lookup port (proxy_port_urls pod_id specs) ≡ some url)
      ↔ (Offers port specs × (url ≡ proxy_url pod_id port))
unfolding proxy_port_urls lookup
proxy_port_urls_iff pod_id specs port url n = rw (eq_false pod_id "" n) (
  (λ h. elim (port_urls_cases pod_id specs port url [] h) [ inl q ↦ cc q | inr q ↦ q ]),
  λ (o, e). port_urls_offered pod_id specs port [] o ∙ ap some (sym e),
)
