-- ===== src/Env/Debug.antt =====
-- src/lib.rs: what a `ForkedEnv` tells of the last invocation. The host's two buffers are parameters, `none` where
-- reading one fails.
use soroban_fork.Prelude.{Option, none, some, List, []}
use soroban_fork.Xdr.{Bytes}
use soroban_fork.Render.{Texts}
use soroban_fork.Trace.{HostEvent, Frames, from_events}
use soroban_fork.Auth.{RecordedAuthPayload, AuthTree, from_payloads}

-- The host after an invocation.
pub record LastInvocation : Type 0 where
  pub get_diagnostic_events : Option (List HostEvent)
  pub get_recorded_auth_payloads : Option (List RecordedAuthPayload)

unfoldable pub diagnostic_events : LastInvocation → List HostEvent
diagnostic_events host = elim host.get_diagnostic_events [ some events ↦ events | none ↦ [] ]

unfoldable pub trace : LastInvocation → Frames
trace host = from_events (diagnostic_events host)

unfoldable pub auth_payloads : LastInvocation → List RecordedAuthPayload
auth_payloads host = elim host.get_recorded_auth_payloads [ some payloads ↦ payloads | none ↦ [] ]

unfoldable pub auth_tree : LastInvocation → AuthTree
auth_tree host = from_payloads (auth_payloads host)

-- What the two print functions write to the standard error.
unfoldable pub print_trace : Texts → LastInvocation → Bytes
print_trace texts host = soroban_fork.Trace.Display.display texts (trace host)

unfoldable pub print_auth_tree : Texts → LastInvocation → Bytes
print_auth_tree texts host = soroban_fork.Auth.Display.display texts (auth_tree host)
