-- ===== src/Auth/Count.antt =====
-- The counts of src/auth_tree.rs against the list of what the recorded trees demand.
use soroban_fork.Prelude.{◌≡◌, ◌≤◌, List, [], ◌∷◌, ◌++◌, length, length-append, arith}
use soroban_fork.Auth.{
  SorobanAuthorizedFunction, SorobanAuthorizedInvocation, invocation, Invocations, no_invocations,
  next, RecordedAuthPayload, AuthTree, payload_count, count_invocations, count_all, sum_payloads,
  invocation_count,
}

-- The functions of an invocation and of all below it, in the order of the calls.
unfoldable mutual
  pub demands : SorobanAuthorizedInvocation → List SorobanAuthorizedFunction
  demands (invocation f subs) = f ∷ demands_all subs

  pub demands_all : Invocations → List SorobanAuthorizedFunction
  demands_all no_invocations = []
  demands_all (next i is) = demands i ++ demands_all is

unfoldable pub tree_demands : List RecordedAuthPayload → List SorobanAuthorizedFunction
tree_demands [] = []
tree_demands (p ∷ ps) = demands p.root ++ tree_demands ps

mutual
  unfolding count_invocations count_all demands demands_all

  count_invocations_lem :
      (i : SorobanAuthorizedInvocation) → count_invocations i ≡ length (demands i)
  count_invocations_lem (invocation f subs) = omega (arith, count_all_lem subs)

  count_all_lem : (is : Invocations) → count_all is ≡ length (demands_all is)
  count_all_lem no_invocations = omega arith
  count_all_lem (next i is) =
      omega (
        arith,
        count_invocations_lem i,
        count_all_lem is,
        length-append (demands i) (demands_all is),
      )

sum_payloads_lem : (ps : List RecordedAuthPayload) → sum_payloads ps ≡ length (tree_demands ps)
unfolding sum_payloads tree_demands
sum_payloads_lem [] = omega arith
sum_payloads_lem (p ∷ ps) = omega (
  arith,
  count_invocations_lem p.root,
  sum_payloads_lem ps,
  length-append (demands p.root) (tree_demands ps),
)

-- The number of invocations is that of the functions that the payloads' trees demand, one by one.
invocation_count_lem : (t : AuthTree) → invocation_count t ≡ length (tree_demands t.payloads)
unfolding invocation_count
invocation_count_lem t = sum_payloads_lem t.payloads

count_invocations_positive : (i : SorobanAuthorizedInvocation) → 1 ≤ count_invocations i
unfolding count_invocations
count_invocations_positive (invocation f subs) = omega arith

payloads_bound : (ps : List RecordedAuthPayload) → length ps ≤ sum_payloads ps
unfolding sum_payloads
payloads_bound [] = omega arith
payloads_bound (p ∷ ps) = omega (arith, payloads_bound ps, count_invocations_positive p.root)

-- There are at least as many invocations as payloads.
payload_count-invocation_count : (t : AuthTree) → payload_count t ≤ invocation_count t
unfolding payload_count invocation_count
payload_count-invocation_count t = payloads_bound t.payloads
