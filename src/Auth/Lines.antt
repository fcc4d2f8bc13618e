-- ===== src/Auth/Lines.antt =====
-- The lines of a displayed authorization tree.
use soroban_fork.Prelude.{
  ℕ, suc, ◌+◌, List, [], ◌∷◌, ◌++◌, ◌≡◌, refl, All, arith, length, Option, none, some,
}
use soroban_fork.Prelude.Int.{ℤ}
use soroban_fork.Render.{Texts, render_address, render_args}
use soroban_fork.Render.Lines.{
  line_count, line_count-append, line_count-indent, line_count-decimal, line_count-signed_decimal,
}
use soroban_fork.Auth.{
  SorobanAuthorizedFunction, contract_fn, create_contract, create_contract_v2,
  SorobanAuthorizedInvocation, invocation, Invocations, no_invocations, next, RecordedAuthPayload,
  AuthTree, count_invocations, count_all, sum_payloads, payload_count, invocation_count,
}
use soroban_fork.Auth.Count.{demands, demands_all, tree_demands}
use soroban_fork.Auth.Display.{
  function_name, nonce_text, render_contract_fn, render_function, render_invocation, render_subs,
  signer_text, payload_line, render_payload, render_payloads, display_payloads, display,
}

All-append : {A : Type 0} (P : A → Type 0) (xs ys : List A) → All P (xs ++ ys) → All P xs × All P ys
All-append P [] ys h = (tt, h)
All-append P (x ∷ xs) ys h = let (left, right) = All-append P xs ys h.1 in ((h.0, left), right)

line_count-nil : line_count [] ≡ 0
unfolding line_count
line_count-nil = refl

line_count-nonce_text : (nonce : Option ℤ) → line_count (nonce_text nonce) ≡ 0
unfolding nonce_text
line_count-nonce_text none = unfold line_count in refl
line_count-nonce_text (some n) =
    simp (line_count-append, line_count-signed_decimal) (unfold line_count in refl)

module _ (texts : Texts) where
  -- A function whose contract, name and arguments render without a line break.
  abbrev pub IsOneLine : SorobanAuthorizedFunction → Type 0
  IsOneLine (contract_fn callee name args) =
      (line_count (render_address texts callee) ≡ 0)
      × (line_count (function_name name) ≡ 0)
      × (line_count (render_args texts args) ≡ 0)
  IsOneLine create_contract = Unit
  IsOneLine create_contract_v2 = Unit

  -- A signer that renders without a line break.
  abbrev pub HasPlainSigner : RecordedAuthPayload → Type 0
  HasPlainSigner p = line_count (signer_text texts p.address) ≡ 0

  line_count-render_function :
      (f : SorobanAuthorizedFunction) (depth : ℕ)
      → IsOneLine f
      → line_count (render_function texts f depth) ≡ 1
  unfolding render_function render_contract_fn
  line_count-render_function (contract_fn callee name args) depth h =
      simp (line_count-append, line_count-indent, h.0, h.1, h.2) (unfold line_count in refl)
  line_count-render_function create_contract depth h =
      simp (line_count-append, line_count-indent) (unfold line_count in refl)
  line_count-render_function create_contract_v2 depth h =
      simp (line_count-append, line_count-indent) (unfold line_count in refl)

  mutual
    unfolding render_invocation render_subs demands demands_all count_invocations count_all

    line_count-render_invocation :
        (i : SorobanAuthorizedInvocation) (depth : ℕ)
        → All IsOneLine (demands i)
        → line_count (render_invocation texts i depth) ≡ count_invocations i
    line_count-render_invocation (invocation function subs) depth h = omega (
      arith,
      line_count-append (render_function texts function depth) (render_subs texts subs (suc depth)),
      line_count-render_function function depth h.0,
      line_count-render_subs subs (suc depth) h.1,
    )

    line_count-render_subs :
        (is : Invocations) (depth : ℕ)
        → All IsOneLine (demands_all is)
        → line_count (render_subs texts is depth) ≡ count_all is
    line_count-render_subs no_invocations depth h = line_count-nil
    line_count-render_subs (next i is) depth h =
        let (first, others) = All-append IsOneLine (demands i) (demands_all is) h in
        omega (
          arith,
          line_count-append (render_invocation texts i depth) (render_subs texts is depth),
          line_count-render_invocation i depth first,
          line_count-render_subs is depth others,
        )

  line_count-payload_line :
      (idx : ℕ) (p : RecordedAuthPayload)
      → HasPlainSigner p
      → line_count (payload_line texts idx p) ≡ 1
  unfolding payload_line
  line_count-payload_line idx p h =
      simp (line_count-append, line_count-decimal, h, line_count-nonce_text)
        (unfold line_count in refl)

  line_count-render_payloads :
      (idx : ℕ) (ps : List RecordedAuthPayload)
      → All HasPlainSigner ps
      → All IsOneLine (tree_demands ps)
      → line_count (render_payloads texts idx ps) ≡ length ps + sum_payloads ps
  unfolding render_payloads render_payload tree_demands sum_payloads
  line_count-render_payloads idx [] signers h = unfold line_count in refl
  line_count-render_payloads idx (p ∷ ps) signers h =
      let (first, others) = All-append IsOneLine (demands p.root) (tree_demands ps) h in
      omega (
        arith,
        line_count-append (payload_line texts idx p ++ render_invocation texts p.root 2)
            (render_payloads texts (idx + 1) ps),
        line_count-append (payload_line texts idx p) (render_invocation texts p.root 2),
        line_count-payload_line idx p signers.0,
        line_count-render_invocation p.root 2 first,
        line_count-render_payloads (idx + 1) ps signers.1 others,
      )

  line_count-display_payloads :
      (ps : List RecordedAuthPayload)
      → All HasPlainSigner ps
      → All IsOneLine (tree_demands ps)
      → line_count (display_payloads texts ps) ≡ 1 + length ps + sum_payloads ps
  unfolding display_payloads line_count sum_payloads
  line_count-display_payloads [] signers h = unfold line_count sum_payloads in refl
  line_count-display_payloads (p ∷ ps) signers h =
      omega (arith, line_count-render_payloads 0 (p ∷ ps) signers h)

  -- A displayed authorization tree has its title, a line for each payload and a line for each invocation, the nested
  -- ones included, when no signer, contract, name or argument holds a line break.
  pub line_count-display :
      (t : AuthTree)
      → All HasPlainSigner t.payloads
      → All IsOneLine (tree_demands t.payloads)
      → line_count (display texts t) ≡ 1 + payload_count t + invocation_count t
  unfolding display payload_count invocation_count
  line_count-display t signers h = line_count-display_payloads t.payloads signers h
