-- ===== src/Auth/Display.antt =====
-- The Display of an authorization tree in src/auth_tree.rs: a line for each payload and for each invocation.
use soroban_fork.Prelude.{ℕ, suc, ◌+◌, Option, none, some, List, [], ◌∷◌, ◌++◌, codes, from_utf8}
use soroban_fork.Prelude.Int.{ℤ}
use soroban_fork.Prelude.Decimal.{decimal, signed_decimal}
use soroban_fork.Xdr.{Bytes, ScAddress, ScVal}
use soroban_fork.Render.{Texts, render_address, render_args, indent, line_end}
use soroban_fork.Auth.{
  SorobanAuthorizedFunction, contract_fn, create_contract, create_contract_v2,
  SorobanAuthorizedInvocation, invocation, Invocations, no_invocations, next, RecordedAuthPayload,
  AuthTree,
}

unfoldable pub function_name : Bytes → Bytes
function_name name = elim (from_utf8 name) [ some text ↦ text | none ↦ codes "<non-utf8>" ]

unfoldable pub nonce_text : Option ℤ → Bytes
nonce_text none = []
nonce_text (some n) = codes "  nonce=" ++ signed_decimal 19 n

module _ (texts : Texts) where
  unfoldable pub render_contract_fn : Bytes → ScAddress → Bytes → List ScVal → Bytes
  unfolding function_name
  render_contract_fn pad callee name args =
      pad
      ++ (codes "["
          ++ (render_address texts callee
              ++ (codes "] "
                  ++ (function_name name
                      ++ (codes "(" ++ (render_args texts args ++ (codes ")" ++ line_end)))))))

  -- The line of an invocation.
  unfoldable pub render_function : SorobanAuthorizedFunction → ℕ → Bytes
  render_function (contract_fn callee name args) depth =
      render_contract_fn (indent depth) callee name args
  render_function create_contract depth = indent depth ++ (codes "<create_contract>" ++ line_end)
  render_function create_contract_v2 depth =
      indent depth ++ (codes "<create_contract_v2>" ++ line_end)

  unfoldable mutual
    pub render_invocation : SorobanAuthorizedInvocation → ℕ → Bytes
    render_invocation (invocation function subs) depth =
        render_function function depth ++ render_subs subs (suc depth)

    -- The loop over the sub-invocations.
    pub render_subs : Invocations → ℕ → Bytes
    render_subs no_invocations depth = []
    render_subs (next i is) depth = render_invocation i depth ++ render_subs is depth

  unfoldable pub signer_text : Option ScAddress → Bytes
  signer_text none = codes "<source account>"
  signer_text (some a) = render_address texts a

  -- The line that heads a payload.
  unfoldable pub payload_line : ℕ → RecordedAuthPayload → Bytes
  unfolding nonce_text signer_text
  payload_line idx payload =
      codes "  payload #"
      ++ (decimal 20 idx
          ++ (codes "  signer="
              ++ (signer_text payload.address ++ (nonce_text payload.nonce ++ line_end))))

  unfoldable pub render_payload : ℕ → RecordedAuthPayload → Bytes
  render_payload idx payload = payload_line idx payload ++ render_invocation payload.root 2

  -- The loop over the payloads, which counts them.
  unfoldable pub render_payloads : ℕ → List RecordedAuthPayload → Bytes
  render_payloads idx [] = []
  render_payloads idx (p ∷ ps) = render_payload idx p ++ render_payloads (idx + 1) ps

  unfoldable pub display_payloads : List RecordedAuthPayload → Bytes
  display_payloads [] =
      codes "[AUTH] (empty "
      ++ (0xe2 ∷ 0x80 ∷ 0x94 ∷ []
          ++ (codes " has invoke_contract run yet, and did it demand any auth?)" ++ line_end))
  display_payloads (p ∷ ps) = codes "[AUTH]" ++ (line_end ++ render_payloads 0 (p ∷ ps))

  unfoldable pub display : AuthTree → Bytes
  unfolding display_payloads
  display t = display_payloads t.payloads
