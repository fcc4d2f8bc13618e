-- ===== src/Rpc/Retry.antt =====
-- The retry loop of RpcClient::rpc_post.
use soroban_fork.Prelude.{
  ℕ, zero, suc, lt→ltb, ◌+◌, ◌≤◌, ◌<◌, Option, none, some, ◌≡◌, ◌⊎◌, inl, inr, refl, sym, subst,
  length, arith,
}
use soroban_fork.Prelude.Word.{u32_max, wrapping_add_u32}
use soroban_fork.Errors.{ForkError, Try, done, failed}
use soroban_fork.Rpc.{RpcConfig, Request, Http, JsonRpcResponse, Net}
use soroban_fork.Rpc.Post.{
  Attempt, parsed, retry, fatal, Codec, try_once, post_attempts, rpc_post, after_send, after_sleep,
}

-- The number of the request that decides a call with so many retries, whose first request has number `first`.
unfoldable pub deciding {ℓ} : {T : Type ℓ} → (ℕ → Attempt T) → ℕ → ℕ → ℕ
deciding tried zero first = first
deciding tried (suc retries) first =
    let later = deciding tried retries (suc first) in
    elim (tried first) [ retry e ↦ later | parsed answer ↦ first | fatal e ↦ first ]

-- The result that an attempt stands for when it decides.
unfoldable pub conclude {ℓ} : {T : Type ℓ} → Attempt T → Try T
conclude (parsed answer) = done answer
conclude (retry e) = failed e
conclude (fatal e) = failed e

Attempt-cases {ℓ} :
    {T : Type ℓ} (a : Attempt T)
    → ((t : T) × (a ≡ parsed t))
      ⊎ ((e : ForkError) × (a ≡ retry e))
      ⊎ ((e : ForkError) × (a ≡ fatal e))
Attempt-cases (parsed t) = inl (t, refl)
Attempt-cases (retry e) = inr (inl (e, refl))
Attempt-cases (fatal e) = inr (inr (e, refl))

deciding-le {ℓ} :
    {T : Type ℓ} (attempts : ℕ → Attempt T) (retries first : ℕ)
    → deciding attempts retries first ≤ first + retries
unfolding deciding
deciding-le attempts zero first = omega arith
deciding-le attempts (suc retries) first = elim (Attempt-cases (attempts first)) [
  | inl (t, e) ↦ rw (e, deciding) (omega arith)
  | inr (inl (x, e)) ↦ rw (e, deciding) (omega (arith, deciding-le attempts retries (suc first)))
  | inr (inr (x, e)) ↦ rw (e, deciding) (omega arith)
]

pub wrapping_add_u32_lem : (n : ℕ) → n < u32_max → wrapping_add_u32 n 1 ≡ suc n
wrapping_add_u32_lem n h = omega arith

module _ {ℓ} {T : Type ℓ} (codec : Codec T) (http : Http) (request : Request) where
  unfoldable pub tried : ℕ → Attempt (JsonRpcResponse T)
  tried number = try_once codec (http number request)

  -- An attempt that is to be retried, and is not the last, leads to the next one.
  post_attempts-retry :
      (total base left attempt : ℕ) (last : Option ForkError) (net : Net) {e : ForkError}
      → try_once codec (http net.sent request) ≡ retry e
      → attempt + 1 < total
      → post_attempts total base codec http request (suc left) attempt last net
        ≡ post_attempts total base codec http request left
            (attempt + 1)
            (some e)
            (after_sleep base attempt (after_send net))
  unfolding post_attempts
  post_attempts-retry total base left attempt last net h fits =
      rw (h, post_attempts, lt→ltb (attempt + 1) total fits)

  deciding-retry :
      (retries first : ℕ) {e : ForkError}
      → tried first ≡ retry e
      → deciding tried (suc retries) first ≡ deciding tried retries (suc first)
  unfolding deciding
  deciding-retry retries first h = rw (h, deciding)

  -- What a call that began in state `net` has come to when the request numbered `decided` decided it.
  abbrev Decided : Try (JsonRpcResponse T) × Net → ℕ → Net → Type ℓ
  Decided out decided net =
      (out.0 ≡ conclude (tried decided))
      × (out.1.sent ≡ suc decided)
      × (length out.1.slept + net.sent ≡ length net.slept + decided)

  ends_at_once :
      (total base left attempt : ℕ) (last : Option ForkError) (net : Net)
      → ((e : ForkError)
          → try_once codec (http net.sent request) ≡ retry e
          → (left ≡ 0) × (attempt + 1 ≡ total))
      → Decided
          (post_attempts total base codec http request (suc left) attempt last net)
          (deciding tried left net.sent)
          net
  unfolding post_attempts deciding tried conclude after_send
  ends_at_once total base zero attempt last net fits =
      elim (Attempt-cases (try_once codec (http net.sent request))) [
        | inl (t, e) ↦ ground (arith, e)
        | inr (inl (x, e)) ↦ ground (arith, e, fits x e)
        | inr (inr (x, e)) ↦ ground (arith, e)
      ]
  ends_at_once total base (suc left) attempt last net fits =
      elim (Attempt-cases (try_once codec (http net.sent request))) [
        | inl (t, e) ↦ ground (arith, e)
        | inr (inl (x, e)) ↦ ground (arith, fits x e)
        | inr (inr (x, e)) ↦ ground (arith, e)
      ]

  loop :
      (total base left attempt : ℕ) (last : Option ForkError) (net : Net)
      → attempt + suc left ≡ total
      → Decided
          (post_attempts total base codec http request (suc left) attempt last net)
          (deciding tried left net.sent)
          net
  unfolding after_send after_sleep tried try_once
  loop total base zero attempt last net fits =
      ends_at_once total base zero attempt last net (λ e h. (refl, fits))
  loop total base (suc left) attempt last net fits =
      elim (Attempt-cases (try_once codec (http net.sent request))) [
        | inl (t, e) ↦ ends_at_once total base (suc left) attempt last net (λ x h. cc (e, h))
        | inr (inl (x, e)) ↦
            let next = after_sleep base attempt (after_send net) in
            let (result, sent, slept) =
              loop total base left (attempt + 1) (some x) next (omega (arith, fits)) in
            subst (λ out. Decided out (deciding tried (suc left) net.sent) net)
              (sym (
                post_attempts-retry total base (suc left) attempt last net e (omega (arith, fits))))
              (subst
                (λ d.
                  Decided
                    (post_attempts total base codec http request (suc left) (attempt + 1) (some x)
                      next)
                    d net)
                (sym (deciding-retry left net.sent e)) (result, sent, omega (arith, slept)))
        | inr (inr (x, e)) ↦ ends_at_once total base (suc left) attempt last net (λ y h. cc (e, h))
      ]

  -- A call always ends, after at most one more request than the retries of its configuration, which leave room in a
  -- u32 for one more: its result is that of the first request that is not to be retried, or of the last one when all
  -- are; that request is the last one sent, and there is one delay between any two requests.
  pub rpc_post_lem :
      (config : RpcConfig) (net : Net)
      → config.retries < u32_max
      → Decided
          (rpc_post config codec http request net)
          (deciding tried config.retries net.sent)
          net
        × (deciding tried config.retries net.sent ≤ net.sent + config.retries)
  unfolding rpc_post
  rpc_post_lem config net small = (
    subst
        (λ total.
          Decided (post_attempts total config.base_retry_delay codec http request total 0 none net)
            (deciding tried config.retries net.sent) net)
        (sym (wrapping_add_u32_lem config.retries small))
        (loop (suc config.retries) config.base_retry_delay config.retries 0 none net (omega arith)),
    deciding-le tried config.retries net.sent,
  )
