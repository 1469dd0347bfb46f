-- ===== src/WsClient/Connect.antt =====
-- pkg/websocket/client.go: connect, from the configuration to the state of the client, and the round
-- of connectionManager that calls it. net/url is a parameter, and what Dial answers to a URL and to
-- the value of the Authorization header is another.
use mathlib.Core.Path.{subst}
use Prim.Native.String.{◌++◌}
use k8s_runpod_kubelet.Base.{
  List, [], ◌∷◌, String, Option, none, some, ◌≡◌, ◌≢◌, refl, ap, ◌∙◌, sym, ◌==◌, ◌&&◌,
  if◌then◌else◌, Result, ok, err, GoError, wrapped,
}
use k8s_runpod_kubelet.WsClient.Link.{Link}
use k8s_runpod_kubelet.WsClient.Link
use k8s_runpod_kubelet.WsClient.Loop.{
  Loop, Event, dialing, backing_off, serving, dial_fails, dial_succeeds, react, step,
}
use k8s_runpod_kubelet.WsClient.Dial.{
  UrlPackage, IsUrlPackage, build_dial_url, dial_text, build_dial_url-token,
}

-- What the result of connect is for the loop.
abbrev pub dial_event : Option GoError → Event
dial_event none = dial_succeeds
dial_event (some e) = dial_fails

-- The field onConnect, where `none` is nil: SetOnConnect
unfoldable pub set_on_connect {ℓ} : {F : Type ℓ} → Option F → F → Option F
set_on_connect on_connect fn = some fn

-- The goroutines that connectionManager starts behind its call of connect.
unfoldable pub on_connected {ℓ} : {F : Type ℓ} → Option F → Option GoError → List F
on_connected none e = []
on_connected (some fn) none = fn ∷ []
on_connected (some fn) (some e) = []

module _ {Url Values Raw : Type 0} (lib : UrlPackage Url Values Raw)
    (dial : (url authorization : String) → Option GoError) where
  abbrev pub after_dial : Link → Option GoError → Link × Option GoError
  after_dial l (some e) = (l, some (wrapped "failed to dial WebSocket: " e))
  after_dial l none = (Link.connect l, none)

  abbrev pub dial_by : Link → Result String → Link × Option GoError
  dial_by l (err e) = (l, some e)
  dial_by l (ok url) = after_dial l (dial url ("Bearer " ++ l.config.api_token))

  -- connect
  unfoldable pub connect : Link → Link × Option GoError
  unfolding build_dial_url Link.connect
  connect l = dial_by l (build_dial_url lib l.config.url l.config.api_token)

  -- connectionManager's call of connect
  unfoldable pub dial_round : Loop → Loop
  unfolding connect
  dial_round s = step s (dial_event (connect s.link).1)

  -- What becomes of the loop when Dial answers.
  abbrev pub Dialled : Loop → Option GoError → Loop → Type 0
  Dialled s none t =
      (t.phase ≡ serving)
      × (t.link ≡ Link.connect s.link)
      × (t.reconnect_delay ≡ s.link.config.reconnect_interval)
  Dialled s (some e) t = (t.phase ≡ backing_off s.reconnect_delay) × (t.link ≡ s.link)

  -- The token of the URL that is dialled, given the URL of the configuration.
  abbrev pub token_of : Link → Url → String
  token_of l u =
      let q = lib.query u in
      if (lib.get q "api_key" == "") && (lib.get q "token" == "")
      then l.config.api_token
      else lib.get q "api_key"

  -- Without a URL that parses the dial fails; else a URL is dialled that has the token and, of every
  -- other key, the value of the configured URL, with the token in the header as well.
  abbrev pub Authorises : Loop → Result Url → Loop → Type 0
  Authorises s (err e) t = Dialled s (some e) t
  Authorises s (ok u) t =
      (url : Url) × (lib.get (lib.query url) "api_key" ≡ token_of s.link u)
      × ((key : String) → "api_key" ≢ key → lib.get (lib.query url) key ≡ lib.get (lib.query u) key)
      × Dialled s (dial (lib.string url) ("Bearer " ++ s.link.config.api_token)) t

  from_dialing : (s : Loop) (o : Option GoError) → Dialled s o (react dialing (dial_event o) s)
  unfolding react
  from_dialing s (some e) = (refl, refl)
  from_dialing s none = (refl, refl, refl)

  after_dial_event : (l : Link) (o : Option GoError) → dial_event (after_dial l o).1 ≡ dial_event o
  after_dial_event l none = refl
  after_dial_event l (some e) = refl

  -- The round, when Dial has given this answer.
  stepped :
      (s : Loop) (o : Option GoError) (answer : Link × Option GoError)
      → s.phase ≡ dialing
      → dial_event answer.1 ≡ dial_event o
      → Dialled s o (step s (dial_event answer.1))
  unfolding step
  stepped s o answer p q =
      subst (λ e. Dialled s o (react s.phase e s)) (sym q)
        (subst (λ x. Dialled s o (react x (dial_event o) s)) (sym p) (from_dialing s o))

  -- connectionManager where it is about to dial, if net/url behaves as it documents. Without a
  -- backend URL that parses it waits for the current delay and nothing changes. Else connect dials a
  -- URL that has the values of the backend URL, but for api_key: this is the token of the client where
  -- the URL has neither an api_key nor a token, and else that of the URL; the token goes with the
  -- bearer header in any case. If Dial succeeds the message loop starts, with the delay reset; if it
  -- fails the loop waits for the current delay.
  pub dial_round-Authorises :
      (laws : IsUrlPackage lib) (s : Loop) (r : Result Url)
      → s.phase ≡ dialing
      → lib.parse s.link.config.url ≡ r
      → Authorises s r (dial_round s)
  unfolding dial_round connect build_dial_url
  dial_round-Authorises laws s (err e) p h =
      let failed : dial_event (connect s.link).1 ≡ dial_fails =
        ap (λ o. dial_event (dial_by s.link (dial_text lib s.link.config.api_token o)).1) h in
      stepped s (some e) (connect s.link) p failed
  dial_round-Authorises laws s (ok u) p h =
      let token = s.link.config.api_token in
      let (url, built, key, others) = build_dial_url-token lib laws s.link.config.url token u h in
      let answer = dial (lib.string url) ("Bearer " ++ token) in
      (
        url,
        key,
        others,
        stepped s answer (connect s.link) p
            (ap (λ o. dial_event (dial_by s.link o).1) built ∙ after_dial_event s.link answer),
      )
