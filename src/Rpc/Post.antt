-- ===== src/Rpc/Post.antt =====
-- RpcClient::rpc_post, RpcClient::try_once and JsonRpcResponse::into_result.
use soroban_fork.Prelude.{ℕ, zero, suc, ◌+◌, ltb, Option, none, some, ◌∷◌, if◌then◌else◌}
use soroban_fork.Prelude.Word.{wrapping_add_u32}
use soroban_fork.Xdr.{Bytes}
use soroban_fork.Errors.{ForkError, Try, done, failed, or_fail}
use soroban_fork.Rpc.{
  RpcConfig, Request, HttpAnswer, no_answer, response, Http, JsonRpcResponse, Net, is_retryable,
  is_success,
}
use soroban_fork.Rpc.Backoff.{backoff_delay}

-- What one attempt gives: `Ok(parsed)` or a `RetryDecision`.
pub data Attempt {ℓ} (T : Type ℓ) : Type ℓ where
  parsed : T → Attempt T
  retry fatal : ForkError → Attempt T

-- A type of results with serde's reading of a body: none stands for its error.
pub record Codec {ℓ} (T : Type ℓ) : Type ℓ where
  pub parse : Bytes → Option (JsonRpcResponse T)

-- `response.json()`, whose errors are retried.
unfoldable pub read_body {ℓ} : {T : Type ℓ} → Option T → Attempt T
read_body none = retry ForkError.transport
read_body (some parsed_body) = parsed parsed_body

unfoldable pub try_once {ℓ} : {T : Type ℓ} → Codec T → HttpAnswer → Attempt (JsonRpcResponse T)
try_once codec no_answer = retry ForkError.transport
try_once codec (response code body) =
    if is_retryable code
    then retry ForkError.transport
    else if is_success code
    then read_body (codec.parse body)
    else fatal ForkError.transport

-- The request is sent.
unfoldable pub after_send : Net → Net
after_send net = record { sent = suc net.sent; slept = net.slept; rng = net.rng }

-- `std::thread::sleep(backoff_delay(base, attempt))`
unfoldable pub after_sleep : ℕ → ℕ → Net → Net
after_sleep base attempt net =
    let (delay, rng') = backoff_delay base attempt net.rng in
    record { sent = net.sent; slept = delay ∷ net.slept; rng = rng' }

-- `last_error.unwrap_or_else(..)`
unfoldable pub exhausted : Option ForkError → ForkError
exhausted none = ForkError.transport
exhausted (some e) = e

-- The `for` loop: the attempts that are left, the number of this one, and `last_error`.
unfoldable pub post_attempts {ℓ} :
    {T : Type ℓ}
    → ℕ
    → ℕ
    → Codec T
    → Http
    → Request
    → ℕ
    → ℕ
    → Option ForkError
    → Net
    → Try (JsonRpcResponse T) × Net
post_attempts total base codec http request zero attempt last net = (failed (exhausted last), net)
post_attempts total base codec http request (suc left) attempt last net =
    elim (try_once codec (http net.sent request)) [
      | parsed answer ↦ (done answer, after_send net)
      | retry e ↦
          let again =
            post_attempts total base codec http request left (attempt + 1) (some e)
              (after_sleep base attempt (after_send net)) in
          if ltb (attempt + 1) total then again else (failed e, after_send net)
      | fatal e ↦ (failed e, after_send net)
    ]

-- `self.config.retries + 1` is an addition of u32, which wraps in a release build.
unfoldable pub rpc_post {ℓ} :
    {T : Type ℓ} → RpcConfig → Codec T → Http → Request → Net → Try (JsonRpcResponse T) × Net
rpc_post config codec http request net =
    let total = wrapping_add_u32 config.retries 1 in
    post_attempts total config.base_retry_delay codec http request total 0 none net

unfoldable pub into_result {ℓ} : {T : Type ℓ} → JsonRpcResponse T → Try T
into_result answer = elim answer.error [
  | some text ↦ failed ForkError.rpc_error
  | none ↦ or_fail ForkError.rpc_no_result answer.result
]
