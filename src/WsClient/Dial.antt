-- ===== src/WsClient/Dial.antt =====
-- pkg/websocket/client.go: buildDialURL and redactURL. net/url is a parameter.
use k8s_runpod_kubelet.Base.{
  Bool, String, ◌==◌, ◌&&◌, ◌≡◌, ◌≢◌, refl, ap, ◌∙◌, inl, inr, text_cases, Bool-cases,
  if◌then◌else◌, Result, ok, err, wrap, differ,
}

-- A URL and the url.Values of a query: what the two functions call. `with_raw_query` is the
-- assignment to RawQuery, whose text, of the type `Raw`, is only passed on.
pub record UrlPackage {ℓ κ ι} (Url : Type ℓ) (Values : Type κ) (Raw : Type ι)
    : Type (ℓ ⊔ κ ⊔ ι) where
  pub parse : String → Result Url
  pub query : Url → Values
  pub with_raw_query : Url → Raw → Url
  pub string : Url → String
  pub redacted : Url → String
  pub get : Values → String → String
  pub set : Values → (key value : String) → Values
  pub encode : Values → Raw

-- What net/url documents: Set and Get, and that a query that was encoded reads back.
pub record IsUrlPackage {ℓ κ ι} {Url : Type ℓ} {Values : Type κ} {Raw : Type ι}
    (lib : UrlPackage Url Values Raw) : Type (ℓ ⊔ κ ⊔ ι) where
  pub get-set_self : (v : Values) (key value : String) → lib.get (lib.set v key value) key ≡ value
  pub get-set_ne :
      (v : Values) (key value other : String)
      → key ≢ other
      → lib.get (lib.set v key value) other ≡ lib.get v other
  pub get-encode :
      (u : Url) (v : Values) (key : String)
      → lib.get (lib.query (lib.with_raw_query u (lib.encode v))) key ≡ lib.get v key

module _ {ℓ κ ι} {Url : Type ℓ} {Values : Type κ} {Raw : Type ι}
    (lib : UrlPackage Url Values Raw) where
  -- the query with the token, unless it has one
  abbrev pub with_token : Values → (token : String) → Values
  with_token q token =
      if (lib.get q "api_key" == "") && (lib.get q "token" == "")
      then lib.set q "api_key" token
      else q

  abbrev pub dial_url_of : (token : String) → Url → Url
  dial_url_of token u = lib.with_raw_query u (lib.encode (with_token (lib.query u) token))

  abbrev pub dial_text : (token : String) → Result Url → Result String
  dial_text token (err e) = wrap "invalid backend URL: " (err e)
  dial_text token (ok u) = ok (lib.string (dial_url_of token u))

  -- buildDialURL
  unfoldable pub build_dial_url : (raw_url token : String) → Result String
  build_dial_url raw_url token = dial_text token (lib.parse raw_url)

  -- one round of the loop in redactURL
  abbrev pub mask : String → Values → Values
  mask key q = if lib.get q key == "" then q else lib.set q key "***"

  abbrev pub redacted_url_of : Url → Url
  redacted_url_of u =
      lib.with_raw_query u (lib.encode (mask "token" (mask "api_key" (lib.query u))))

  abbrev pub redacted_text : String → Result Url → String
  redacted_text raw_url (err e) = raw_url
  redacted_text raw_url (ok u) = lib.redacted (redacted_url_of u)

  -- redactURL
  unfoldable pub redact_url : (raw_url : String) → String
  redact_url raw_url = redacted_text raw_url (lib.parse raw_url)

  module _ (laws : IsUrlPackage lib) where
    get-mask_self :
        (key : String) (q : Values)
        → lib.get (mask key q) key ≡ (if lib.get q key == "" then "" else "***")
    get-mask_self key q = elim (text_cases (lib.get q key) "") [
      | inl (e, b) ↦ rw b e
      | inr (n, b) ↦ rw b (laws.get-set_self q key "***")
    ]

    get-mask_ne :
        (key other : String) (q : Values)
        → key ≢ other
        → lib.get (mask key q) other ≡ lib.get q other
    get-mask_ne key other q n = elim (text_cases (lib.get q key) "") [
      | inl (e, b) ↦ rw b refl
      | inr (_, b) ↦ rw b (laws.get-set_ne q key "***" other n)
    ]

    -- The query has neither credential.
    abbrev bare : Values → Bool
    bare q = (lib.get q "api_key" == "") && (lib.get q "token" == "")

    get-with_token_self :
        (q : Values) (token : String)
        → lib.get (with_token q token) "api_key" ≡ (if bare q then token else lib.get q "api_key")
    get-with_token_self q token = elim (Bool-cases (bare q)) [
      | inl e ↦ rw e (laws.get-set_self q "api_key" token)
      | inr e ↦ rw e refl
    ]

    get-with_token_ne :
        (q : Values) (token key : String)
        → "api_key" ≢ key
        → lib.get (with_token q token) key ≡ lib.get q key
    get-with_token_ne q token key n = elim (Bool-cases (bare q)) [
      | inl e ↦ rw e (laws.get-set_ne q "api_key" token key n)
      | inr e ↦ rw e refl
    ]

    -- What redactURL logs of a URL that parses shows neither credential: the URL that it prints has,
    -- for api_key and for token, no value where the URL had none, and else three stars as its first
    -- value; the first value of every other key is that of the URL.
    redact_url-masks :
        (raw_url : String) (u : Url)
        → lib.parse raw_url ≡ ok u
        → (t : Url) × (redact_url raw_url ≡ lib.redacted t)
          × (lib.get (lib.query t) "api_key"
              ≡ (if lib.get (lib.query u) "api_key" == "" then "" else "***"))
          × (lib.get (lib.query t) "token"
              ≡ (if lib.get (lib.query u) "token" == "" then "" else "***"))
          × ((key : String)
              → "api_key" ≢ key
              → "token" ≢ key
              → lib.get (lib.query t) key ≡ lib.get (lib.query u) key)
    unfolding redact_url
    redact_url-masks raw_url u p =
        let q = lib.query u in
        let back = laws.get-encode u (mask "token" (mask "api_key" q)) in
        (
          redacted_url_of u,
          ap (redacted_text raw_url) p,
          back "api_key"
              ∙ get-mask_ne "token" "api_key" _ (differ "token" "api_key" refl)
              ∙ get-mask_self "api_key" q,
          back "token"
              ∙ get-mask_self "token" (mask "api_key" q)
              ∙ ap (λ v. if v == "" then "" else "***")
                  (get-mask_ne "api_key" "token" q (differ "api_key" "token" refl)),
          λ key n m. back key ∙ get-mask_ne "token" key _ m ∙ get-mask_ne "api_key" key q n,
        )

    -- The URL that connect dials, for a backend URL that parses: if it names neither an api_key nor
    -- a token, it gets the token of the client as its api_key; else its api_key stays. All other
    -- keys, token included, keep their values.
    pub build_dial_url-token :
        (raw_url token : String) (u : Url)
        → lib.parse raw_url ≡ ok u
        → (t : Url) × (build_dial_url raw_url token ≡ ok (lib.string t))
          × (lib.get (lib.query t) "api_key" ≡ (
              if (lib.get (lib.query u) "api_key" == "") && (lib.get (lib.query u) "token" == "")
              then token
              else lib.get (lib.query u) "api_key"))
          × ((key : String)
              → "api_key" ≢ key
              → lib.get (lib.query t) key ≡ lib.get (lib.query u) key)
    unfolding build_dial_url
    build_dial_url-token raw_url token u p =
        let q = lib.query u in
        let back = laws.get-encode u (with_token q token) in
        (
          dial_url_of token u,
          ap (dial_text token) p,
          back "api_key" ∙ get-with_token_self q token,
          λ key n. back key ∙ get-with_token_ne q token key n,
        )
