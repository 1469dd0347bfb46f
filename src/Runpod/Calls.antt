-- ===== src/Runpod/Calls.antt =====
-- A program that makes HTTP requests: it is done, or it makes a request and goes on with the reply.
use k8s_runpod_kubelet.Providers.World.{Request, Reply}

pub data Call {ℓ} (A : Type ℓ) : Type ℓ where
  done : A → Call A
  request : Request → (Reply → Call A) → Call A

-- What the program comes to where requests are answered by `http`.
unfoldable pub run {ℓ} : {A : Type ℓ} → (Request → Reply) → Call A → A
run http (done a) = a
run http (request r k) = run http (k (http r))
