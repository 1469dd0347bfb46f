-- ===== src/Providers/World.antt =====
-- What the providers meet outside the program: the HTTP service and the environment variables.
-- Every call of the service is answered by a function of the request, so a theorem that holds for
-- every `World` holds whatever the service answers.
use k8s_runpod_kubelet.Base.{ℕ, String, Option}
use k8s_runpod_kubelet.Protocol.Json.{Json}

-- `body` is `none` where the request has none. The bearer token is the API key.
pub record Request : Type 0 where
  pub method : String
  pub url : String
  pub body : Option Json
  pub api_key : String
  pub timeout_seconds : ℕ

-- A body that reads to its end, or one whose reading fails, with the text that comes before.
pub data Body : Type 0 where
  unreadable : (failure before : String) → Body
  text : String → Body

-- The request failed with this text, or it was answered by a status and a body.
pub data Reply : Type 0 where
  failed : String → Reply
  response : ℕ → Body → Reply

pub record World : Type 0 where
  pub http : Request → Reply
  -- a text as JSON, `none` where it is no JSON
  pub parse_json : String → Option Json
  -- os.Getenv, the empty text where the variable is not set
  pub getenv : String → String
