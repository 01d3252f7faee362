-- ===== src/Fixture/Center/Activation.antt =====
-- One call of `Activate` of the center plugin: the steps it takes, and its answer.
use relayward_sdk.Base.{
  refl, inl, inr, List, [], ◌∷◌, Option, none, some, Bytes, Result-cases, Bool-cases,
}
use relayward_sdk.CenterPlugin.Info.{
  ActivateRequest, permission_nodes_read, validate_activate_request,
}
use relayward_sdk.Fixture.Center.{
  CenterPlugin, Network, Host, open_connection, sort_strings, contains, activated, connected,
  dialled, activate,
}
use relayward_sdk.Fixture.Center.Connections.{
  World, Steps, dials, gives_up, installs, none_left, then,
}

-- A world in which a call changed the plugin and the network.
abbrev pub after_call : World → CenterPlugin × Network → World
after_call w (plugin, network) = record {
  plugin = plugin;
  network = network;
  pending = w.pending;
  calls = w.calls;
}

module _ (host : Host) (w : World) where
  -- The world in which the call made its connection.
  dialled_world : World
  unfolding open_connection
  dialled_world = record {
    plugin = w.plugin;
    network = open_connection w.network;
    pending = w.network.opened ∷ w.pending;
    calls = w.calls;
  }

  install-Steps :
      (permissions : List Bytes)
      → Steps w (
          after_call w
            (activated w.network.opened w.plugin (open_connection w.network) permissions).0)
  unfolding activated dialled_world
  install-Steps permissions =
      then (dials w) (then (installs dialled_world [] w.pending w.network.opened refl) none_left)

  connected-Steps :
      (permissions : List Bytes)
      → Steps w (
          after_call w
            (connected host w.network.opened w.plugin (open_connection w.network) permissions).0)
  unfolding connected dialled_world
  connected-Steps permissions = elim (Bool-cases (contains permissions permission_nodes_read)) [
    | inr unasked ↦ rw unasked (install-Steps permissions)
    | inl asked ↦ elim (Result-cases (host.list_nodes w.network.opened)) [
      | inl (nodes, answered) ↦ rw (asked, answered) (install-Steps permissions)
      | inr (e, failed) ↦
          rw (asked, failed)
            (then (dials w)
              (then (gives_up dialled_world [] w.pending w.network.opened refl) none_left))
    ]
  ]

  dialled-Steps :
      (permissions : List Bytes)
      → Steps w (after_call w (dialled host w.plugin w.network permissions).0)
  unfolding dialled
  dialled-Steps permissions = elim (Bool-cases host.reachable) [
    | inl reached ↦ rw reached (connected-Steps permissions)
    | inr unreached ↦ rw unreached none_left
  ]

  -- A call of `Activate` that runs alone is a sequence of the steps that calls take when they
  -- interleave, and leaves the pending calls of others as they were.
  pub activate-Steps :
      (request : Option ActivateRequest)
      → Steps w (after_call w (activate host w.plugin w.network request).0)
  unfolding activate
  activate-Steps none = none_left
  activate-Steps (some request) = elim (Result-cases (validate_activate_request (some request))) [
    | inl (u, accepted) ↦ rw (accepted, activate) (dialled-Steps (sort_strings request.permissions))
    | inr (e, rejected) ↦ rw (rejected, activate) none_left
  ]
