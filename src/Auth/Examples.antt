-- ===== src/Auth/Examples.antt =====
-- A run of the counts of src/auth_tree.rs: a swap that makes two transfers, and a deployment of another signer.
use soroban_fork.Prelude.{◌≡◌, refl, true, none, some, [], ◌∷◌, codes, from_utf8, ◌+◌}
use soroban_fork.Prelude.Int.{pos}
use soroban_fork.Xdr.{ScAddress, void}
use soroban_fork.Render.{
  Texts, render_address, render_args, render_args_later, render_scval, abbreviate_strkey, indent,
}
use soroban_fork.Render.Lines.{line_count}
use soroban_fork.Prelude.Decimal.{decimal, signed_decimal}
use soroban_fork.Auth.Count.{demands, demands_all, tree_demands}
use soroban_fork.Auth.Display.{
  display, display_payloads, render_payloads, render_payload, payload_line, signer_text, nonce_text,
  render_invocation, render_subs, render_function, render_contract_fn, function_name,
}
use soroban_fork.Auth.Lines.{line_count-display}
use soroban_fork.Auth.{
  contract_fn, create_contract, SorobanAuthorizedInvocation, invocation, no_invocations, next,
  AuthTree, from_payloads, payload_count, count_invocations, sum_payloads, invocation_count,
  is_empty, has_none,
}

abbrev texts : Texts
texts = record {
  contract_strkey = λ id. codes "C";
  account_strkey = λ key. codes "G";
  debug = λ v. codes "?";
  debug_address = λ a. codes "?";
}

abbrev transfer : SorobanAuthorizedInvocation
transfer =
    invocation (contract_fn (ScAddress.contract (2 ∷ [])) (116 ∷ []) (void ∷ [])) no_invocations

abbrev swap : SorobanAuthorizedInvocation
swap =
    invocation (contract_fn (ScAddress.contract (1 ∷ [])) (115 ∷ []) [])
      (next transfer (next transfer no_invocations))

abbrev recorded : AuthTree
recorded = from_payloads (
    record { address = some (ScAddress.contract (9 ∷ [])); nonce = some (pos 7); root = swap }
    ∷ record { address = none; nonce = none; root = invocation create_contract no_invocations }
    ∷ [])

two_payloads : payload_count recorded ≡ 2
unfolding payload_count from_payloads
two_payloads = refl

four_invocations : invocation_count recorded ≡ 4
unfolding invocation_count from_payloads sum_payloads count_invocations
four_invocations = refl

empty_tree : is_empty (from_payloads []) ≡ true
unfolding is_empty from_payloads has_none
empty_tree = refl

line_count-display_example :
    line_count (display texts recorded) ≡ 1 + payload_count recorded + invocation_count recorded
unfolding from_payloads demands demands_all tree_demands signer_text render_address render_args
    render_args_later render_scval abbreviate_strkey function_name from_utf8 line_count
line_count-display_example =
    line_count-display texts recorded (refl, (refl, tt))
      ((refl, refl, refl), ((refl, refl, refl), ((refl, refl, refl), (tt, tt))))

recorded_shown :
    display texts recorded
    ≡ codes
        "[AUTH]\n  payload #0  signer=C  nonce=7\n    [C] s()\n      [C] t(())\n      [C] t(())\n  payload #1  signer=<source account>\n    <create_contract>\n"
unfolding display display_payloads render_payloads render_payload payload_line signer_text
    nonce_text render_invocation render_subs render_function render_contract_fn function_name
    from_payloads render_address render_args render_args_later render_scval abbreviate_strkey indent
    decimal signed_decimal from_utf8
recorded_shown = refl
