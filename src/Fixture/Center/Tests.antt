-- ===== src/Fixture/Center/Tests.antt =====
-- Examples of the theorems on the center plugin of the contract tests.
use relayward_sdk.Base.{
  ℕ, ◌<◌, ◌≡◌, ◌⊎◌, refl, true, false, List, [], ◌∷◌, Option, none, some, Bytes, codes, arith,
  Result, Error, error, ok, err, pass, All,
}
use relayward_sdk.CenterPlugin.Info.{
  ActivateRequest, health_healthy, permission_nodes_read, validate_activate_request,
  validate_activated, validate_status_response,
}
use relayward_sdk.CenterPlugin.Subscription.{
  SubscriptionServiceBinding, RenderSubscriptionRequest, validate_render_subscription_request,
}
use relayward_sdk.Agent.Plugins.{ParseUrl}
use relayward_sdk.Fixture.Center.{
  CenterPlugin, Network, Host, Formats, internal, start, install, activate, get_status, connected,
  open_connection, close_connection,
}
use relayward_sdk.Fixture.Center.Calls.{render_subscription}
use relayward_sdk.Fixture.Center.Connections.{World, Steps, Kept}
use relayward_sdk.Fixture.Center.Moves.{
  Move, Reachable, connects, finishes, copies, still, move, started, moved, reachable-Kept,
  stays_healthy,
}
use relayward_sdk.Fixture.Center.Activation.{after_call, activate-Steps}
use relayward_sdk.Fixture.Center.Answers.{activate_accepted, activate_failed}
use relayward_sdk.Fixture.Center.Rendered.{render_long_name}

-- A host that knows no node, and one that answers no call.
abbrev empty_host : Host
empty_host = record {
  reachable = true;
  list_nodes = λ connection. ok (record { nodes = [] });
  replace_services = λ connection request. ok (record { service_count = 1 });
  publish_events = λ connection request. ok (record { event_count = 1 });
}

abbrev silent_host : Host
silent_host = record empty_host { list_nodes = λ connection. err (error "silent") }

abbrev request : ActivateRequest
request = record { permissions = permission_nodes_read ∷ [] }

abbrev fresh : CenterPlugin
fresh = record {
  plugin_id = codes "io.example.test";
  version = codes "1.0.0";
  active = false;
  host = none;
}

abbrev network : Network
network = record { opened = 0; closed = [] }

abbrev first_world : World
first_world = record { plugin = fresh; network = network; pending = []; calls = [] }

-- Two calls make their connections; the first is installed.
abbrev two_dialled : World
two_dialled = record {
  plugin = fresh;
  network = record { opened = 2; closed = [] };
  pending = 1 ∷ 0 ∷ [];
  calls = [];
}

abbrev one_installed : World
one_installed = record {
  plugin = record fresh { active = true; host = some 0 };
  network = record { opened = 2; closed = [] };
  pending = 1 ∷ [];
  calls = [];
}

-- A call of `InvokeUI` copied the host, and the second call of `Activate` closed it meanwhile.
abbrev host_called : World
host_called = record one_installed { calls = 0 ∷ [] }

abbrev host_replaced : World
host_replaced = record {
  plugin = record fresh { active = true; host = some 1 };
  network = record { opened = 2; closed = 0 ∷ [] };
  pending = [];
  calls = 0 ∷ [];
}

replaces_host : Move host_called host_replaced
unfolding install connected relayward_sdk.Fixture.Center.contains close_connection
replaces_host = finishes host_called empty_host [] [] [] 1 refl

host_replaced-Reachable : Reachable host_replaced
unfolding open_connection install start connected relayward_sdk.Fixture.Center.contains
host_replaced-Reachable =
    moved
      (moved
        (moved
          (moved (moved (started (codes "io.example.test") (codes "1.0.0")) (connects first_world))
            (connects (record first_world {
              network = record { opened = 1; closed = [] };
              pending = 0 ∷ [];
            })))
          (finishes two_dialled empty_host [] (1 ∷ []) [] 0 refl))
        (copies one_installed 0 refl))
      replaces_host

reachable-Kept_example : Kept host_replaced
reachable-Kept_example = reachable-Kept host_replaced-Reachable

activate-Steps_example : Steps one_installed (
    after_call one_installed
      (activate empty_host one_installed.plugin one_installed.network (some request)).0)
activate-Steps_example = activate-Steps empty_host one_installed (some request)

request-accepted : validate_activate_request (some request) ≡ pass
unfolding validate_activate_request relayward_sdk.CenterPlugin.Info.validate_permissions
    relayward_sdk.CenterPlugin.Info.strings_are_sorted
    relayward_sdk.CenterPlugin.Info.check_permissions
    relayward_sdk.CenterPlugin.Info.is_known_permission relayward_sdk.Base.beq
request-accepted = refl

activate_accepted_example :
    ((activate empty_host fresh network (some request)).1
      ≡ ok (record { permissions = request.permissions }))
    × (validate_activated (some request) (some (record { permissions = request.permissions }))
        ≡ pass)
    × ((get_status (activate empty_host fresh network (some request)).0.0).health ≡ health_healthy)
activate_accepted_example =
    activate_accepted empty_host fresh network request (record { nodes = [] }) request-accepted refl
      refl

silent-failed : (activate silent_host fresh network (some request)).1 ≡ err (error "silent")
unfolding activate validate_activate_request relayward_sdk.CenterPlugin.Info.validate_permissions
    relayward_sdk.CenterPlugin.Info.strings_are_sorted
    relayward_sdk.CenterPlugin.Info.check_permissions
    relayward_sdk.CenterPlugin.Info.is_known_permission relayward_sdk.Base.beq
    relayward_sdk.Fixture.Center.contains relayward_sdk.Fixture.Center.sort_strings
silent-failed = refl

activate_failed_example :
    ((activate silent_host fresh network (some request)).0.0 ≡ fresh)
    × (((activate silent_host fresh network (some request)).0.1 ≡ network)
        ⊎ ((activate silent_host fresh network (some request)).0.1
            ≡ close_connection network.opened (open_connection network)))
activate_failed_example =
    activate_failed silent_host fresh network request (error "silent") silent-failed

stays_healthy_example :
    ((get_status host_replaced.plugin).health ≡ health_healthy)
    × (validate_status_response (some (get_status host_replaced.plugin)) ≡ pass)
stays_healthy_example = stays_healthy (move replaces_host still) refl

abbrev formats : Formats
formats = record {
  texts = λ entries. codes "{}";
  counts = λ entries. codes "{}";
  node_input = λ json. err (error "no input");
  event_input = λ json. err (error "no input");
  fixture_url = λ authorization_id path name. codes "relayward-test://fixture.example.com";
}

abbrev sample_parse_url : ParseUrl
sample_parse_url = λ raw.
    some (record {
      scheme = codes "relayward-test";
      host = codes "a";
      has_user = false;
      fragment = [];
    })

abbrev long_named : SubscriptionServiceBinding
long_named = record {
  service_id = codes "main";
  display_name =
      codes
        "aaaaaaaaaabbbbbbbbbbaaaaaaaaaabbbbbbbbbbaaaaaaaaaabbbbbbbbbbaaaaaaaaaabbbbbbbbbbaaaaaaaaaa";
}

abbrev render_request : RenderSubscriptionRequest
render_request = record {
  authorization_id = codes "3f2504e0-4f89-41d3-9a0c-0305e82c3301";
  node_id = codes "3f2504e0-4f89-41d3-9a0c-0305e82c3301";
  services = some long_named ∷ [];
}

render_request-accepted : validate_render_subscription_request (some render_request) ≡ pass
unfolding validate_render_subscription_request relayward_sdk.Regex.match_string
    relayward_sdk.CenterPlugin.Subscription.check_bindings
    relayward_sdk.CenterPlugin.Text.validate_display_name relayward_sdk.Base.beq
    relayward_sdk.Unicode.is_trimmed mathlib.Core.List.flatten relayward_sdk.Unicode.valid_utf8
    relayward_sdk.Unicode.rune_count relayward_sdk.Unicode.has_no_control
render_request-accepted = refl

long_named-ascii : All (λ c. c < 128) long_named.display_name
long_named-ascii = ground arith

render_long_name_example :
    render_subscription sample_parse_url formats (some render_request)
    ≡ err (internal "generated subscription is invalid")
render_long_name_example =
    render_long_name sample_parse_url formats render_request long_named [] render_request-accepted
      refl long_named-ascii (omega arith)
