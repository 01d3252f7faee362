-- ===== src/Fixture/Center/Moves.antt =====
-- Calls of the center plugin of pluginfixture/plugin.go that interleave, each by the part of its code
-- that touches the shared state.
use mathlib.Core.Path.{subst}
use relayward_sdk.Base.{
  ◌≡◌, refl, sym, ◌⊎◌, inl, inr, true, List, [], ◌∷◌, ◌++◌, some, Bytes, Bool-cases, Result-cases,
  ℕ, pass, beq,
}
use relayward_sdk.Unicode.{is_trimmed, trim_space, has_no_control, runes}
use relayward_sdk.CenterPlugin.Info.{
  permission_nodes_read, health_healthy, validate_status_response,
}
use relayward_sdk.CenterPlugin.Text.{validate_diagnostic}
use relayward_sdk.Fixture.Center.{
  CenterPlugin, Network, Host, start, open_connection, close_connection, install, contains,
  activated, connected, get_status,
}
use relayward_sdk.Fixture.Center.Connections.{
  World, Step, dials, gives_up, installs, reads, returns, Kept, Step-Kept, start-Kept,
}

-- The world that a call left with its connection gone from the pending ones.
abbrev pub settled : World → List ℕ → CenterPlugin × Network → World
settled w pending (plugin, network) = record {
  plugin = plugin;
  network = network;
  pending = pending;
  calls = w.calls;
}

-- A call of `Activate` makes its connection, and later runs what follows `NewClient` on it: the host
-- answers or not, and permissions are given. A call of `InvokeUI` copies the host, and returns.
pub data Move : World → World → Type 0 where
  connects :
      (w : World)
      → Move w (record {
        plugin = w.plugin;
        network = open_connection w.network;
        pending = w.network.opened ∷ w.pending;
        calls = w.calls;
      })
  finishes :
      (w : World) (host : Host) (permissions : List Bytes) (before after : List ℕ) (connection : ℕ)
      → w.pending ≡ before ++ connection ∷ after
      → Move w
          (settled w (before ++ after) (connected host connection w.plugin w.network permissions).0)
  copies :
      (w : World) (connection : ℕ)
      → w.plugin.host ≡ some connection
      → Move w (record w { calls = connection ∷ w.calls })
  answers :
      (w : World) (before after : List ℕ) (connection : ℕ)
      → w.calls ≡ before ++ connection ∷ after
      → Move w (record w { calls = before ++ after })

pub data Moves : World → World → Type 0 where
  still : {w : World} → Moves w w
  move : {u v w : World} → Move u v → Moves v w → Moves u w

-- The worlds after any interleaving of calls.
pub data Reachable : World → Type 0 where
  started :
      (plugin_id version : Bytes)
      → Reachable (record {
        plugin = start plugin_id version;
        network = record { opened = 0; closed = [] };
        pending = [];
        calls = [];
      })
  moved : {v w : World} → Reachable v → Move v w → Reachable w

-- A call installs its connection, or closes it and leaves the plugin as it was.
connected-cases :
    (host : Host) (connection : ℕ) (plugin : CenterPlugin) (network : Network)
    (permissions : List Bytes)
    → ((connected host connection plugin network permissions).0 ≡ install connection plugin network)
      ⊎ ((connected host connection plugin network permissions).0
          ≡ (plugin, close_connection connection network))
unfolding connected activated
connected-cases host connection plugin network permissions =
    elim (Bool-cases (contains permissions permission_nodes_read)) [
      | inr unasked ↦ inl (rw unasked refl)
      | inl asked ↦ elim (Result-cases (host.list_nodes connection)) [
        | inl (nodes, answered) ↦ inl (rw (asked, answered) refl)
        | inr (e, failed) ↦ inr (rw (asked, failed) refl)
      ]
    ]

pub Move-Step : {v w : World} → Move v w → Step v w
Move-Step (connects v) = dials v
Move-Step (finishes v host permissions before after connection e) =
    elim (connected-cases host connection v.plugin v.network permissions) [
      | inl kept ↦
          subst (λ s. Step v (settled v (before ++ after) s)) (sym kept)
            (installs v before after connection e)
      | inr closed ↦
          subst (λ s. Step v (settled v (before ++ after) s)) (sym closed)
            (gives_up v before after connection e)
    ]
Move-Step (copies v connection e) = reads v connection e
Move-Step (answers v before after connection e) = returns v before after connection e

-- However calls of `Activate` and `InvokeUI` interleave, every connection that was made is in one
-- place, and there once: with a call of `Activate` that has not finished, the host of the plugin, or
-- closed. So none is leaked and none is closed twice. The plugin is active exactly if it has a host.
-- A call of `InvokeUI` works on the host of the plugin, or on a connection that is closed.
pub reachable-Kept : {w : World} → Reachable w → Kept w
reachable-Kept (started plugin_id version) = start-Kept plugin_id version
reachable-Kept (moved r m) = Step-Kept (Move-Step m) (reachable-Kept r)

connected-active :
    (host : Host) (connection : ℕ) (plugin : CenterPlugin) (network : Network)
    (permissions : List Bytes)
    → plugin.active ≡ true
    → (connected host connection plugin network permissions).0.0.active ≡ true
unfolding install
connected-active host connection plugin network permissions h =
    elim (connected-cases host connection plugin network permissions) [
      | inl kept ↦ rw kept refl
      | inr closed ↦ rw closed h
    ]

stays_active : {v w : World} → Moves v w → v.plugin.active ≡ true → w.plugin.active ≡ true
stays_active still h = h
stays_active (move (connects v) rest) h = stays_active rest h
stays_active (move (finishes v host permissions before after c e) rest) h =
    stays_active rest (connected-active host c v.plugin v.network permissions h)
stays_active (move (copies v c e) rest) h = stays_active rest h
stays_active (move (answers v before after c e) rest) h = stays_active rest h

-- A plugin that was activated once stays so, whatever calls of `Activate` and `InvokeUI` follow, and
-- however they interleave and end: the status after them is healthy, and one that
-- `ValidateStatusResponse` accepts.
pub stays_healthy :
    {v w : World}
    → Moves v w
    → v.plugin.active ≡ true
    → ((get_status w.plugin).health ≡ health_healthy)
      × (validate_status_response (some (get_status w.plugin)) ≡ pass)
unfolding get_status validate_status_response validate_diagnostic is_trimmed trim_space
    has_no_control runes beq mathlib.Core.List.flatten
stays_healthy {w = w} moves h =
    let active = stays_active moves h in (rw active refl, rw active refl)
