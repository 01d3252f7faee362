-- ===== src/Fixture/Center/Answers.antt =====
-- The answers of the center plugin of pluginfixture/plugin.go to `Activate` and `GetStatus`.
use relayward_sdk.Base.{
  ◌≡◌, refl, ◌∙◌, ap, ◌⊎◌, inl, inr, true, List, [], ◌∷◌, some, Bytes, arith, Error, Bool-cases, ok,
  err, pass,
}
use relayward_sdk.CenterPlugin.Info.{
  ActivateRequest, permission_nodes_read, health_healthy, strings_are_sorted, validate_permissions,
  validate_activate_request, validate_activated,
}
use relayward_sdk.CenterPlugin.Info.Permissions.{accepted_activation_iff}
use relayward_sdk.CenterPlugin.Ui.{ListNodesResponse}
use relayward_sdk.Fixture.Center.{
  CenterPlugin, Network, Host, open_connection, close_connection, install, insert, sort_strings,
  contains, activated, connected, dialled, activate, get_status,
}

-- Sorting leaves a sorted list as it is.
insert-first :
    (value : Bytes) (rest : List Bytes)
    → strings_are_sorted (value ∷ rest) ≡ true
    → insert value rest ≡ value ∷ rest
unfolding insert strings_are_sorted
insert-first value [] h = refl
insert-first value (next ∷ rest) h = ground arith

strings_are_sorted-rest :
    (value : Bytes) (rest : List Bytes)
    → strings_are_sorted (value ∷ rest) ≡ true
    → strings_are_sorted rest ≡ true
unfolding strings_are_sorted
strings_are_sorted-rest value [] h = refl
strings_are_sorted-rest value (next ∷ rest) h = ground arith

sort_strings-sorted :
    (values : List Bytes) → strings_are_sorted values ≡ true → sort_strings values ≡ values
unfolding sort_strings
sort_strings-sorted [] h = refl
sort_strings-sorted (value ∷ rest) h =
    ap (insert value) (sort_strings-sorted rest (strings_are_sorted-rest value rest h))
    ∙ insert-first value rest h

accepted-sorted :
    (request : ActivateRequest)
    → validate_activate_request (some request) ≡ pass
    → strings_are_sorted request.permissions ≡ true
unfolding validate_activate_request validate_permissions
accepted-sorted request h = ground arith

accepted-permissions :
    (request : ActivateRequest)
    → validate_activate_request (some request) ≡ pass
    → validate_permissions request.permissions ≡ pass
unfolding validate_activate_request
accepted-permissions request h = h

module _ (host : Host) (plugin : CenterPlugin) (network : Network) (request : ActivateRequest) where
  dialled_outcome :
      (nodes : ListNodesResponse) (permissions : List Bytes)
      → host.reachable ≡ true
      → host.list_nodes network.opened ≡ ok nodes
      → dialled host plugin network permissions
        ≡ activated network.opened plugin (open_connection network) permissions
  unfolding dialled connected
  dialled_outcome nodes permissions r a =
      elim (Bool-cases (contains permissions permission_nodes_read)) [
        | inl asked ↦ rw (r, asked, a) refl
        | inr unasked ↦ rw (r, unasked) refl
      ]

  activate_outcome :
      (nodes : ListNodesResponse)
      → validate_activate_request (some request) ≡ pass
      → host.reachable ≡ true
      → host.list_nodes network.opened ≡ ok nodes
      → activate host plugin network (some request)
        ≡ activated network.opened plugin (open_connection network) request.permissions
  unfolding activate
  activate_outcome nodes h r a =
      let sorted = sort_strings-sorted request.permissions (accepted-sorted request h) in
      rw (h, activate)
        (ap (dialled host plugin network) sorted ∙ dialled_outcome nodes request.permissions r a)

  -- An accepted request to a host that answers is answered with the permissions of the request,
  -- which is an answer that `ValidateActivated` accepts, and the plugin then reports that it is healthy.
  pub activate_accepted :
      (nodes : ListNodesResponse)
      → validate_activate_request (some request) ≡ pass
      → host.reachable ≡ true
      → host.list_nodes network.opened ≡ ok nodes
      → ((activate host plugin network (some request)).1
          ≡ ok (record { permissions = request.permissions }))
        × (validate_activated (some request) (some (record { permissions = request.permissions }))
            ≡ pass)
        × ((get_status (activate host plugin network (some request)).0.0).health ≡ health_healthy)
  unfolding activated install get_status
  activate_accepted nodes h r a =
      let outcome = activate_outcome nodes h r a in
      let valid : validate_permissions request.permissions ≡ pass =
        accepted-permissions request h in
      (
        ap (λ result. result.1) outcome,
        (accepted_activation_iff request (record { permissions = request.permissions })).1
            (valid, refl),
        ap (λ result. (get_status result.0.0).health) outcome,
      )

  -- A call that fails leaves the plugin as it was, and no connection open: it made none, or closed
  -- the one it made.
  pub activate_failed :
      (e : Error)
      → (activate host plugin network (some request)).1 ≡ err e
      → ((activate host plugin network (some request)).0.0 ≡ plugin)
        × (((activate host plugin network (some request)).0.1 ≡ network)
            ⊎ ((activate host plugin network (some request)).0.1
                ≡ close_connection network.opened (open_connection network)))
  unfolding activate dialled connected activated
  activate_failed e h = ground arith
