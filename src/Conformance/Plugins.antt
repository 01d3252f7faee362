-- ===== src/Conformance/Plugins.antt =====
-- conformance/load.go: the loaders of messages of node plugins and center plugins.
use relayward_sdk.Base.{[], some, Bytes, Result, ok, ◌>>◌, ◌>>=◌, or_else_error, wrapf}
use relayward_sdk.NodePlugin.Info as NodeInfo
use relayward_sdk.CenterPlugin.Info as CenterInfo
use relayward_sdk.CenterPlugin.Info.{
  ActivateRequest, GetStatusResponse, validate_activate_request, validate_status_response,
}
use relayward_sdk.CenterPlugin.Ui.{
  InvokeUiRequest, ListNodesResponse, validate_invoke_ui_request, validate_list_nodes_response,
}
use relayward_sdk.CenterPlugin.Services.{ReplaceServicesRequest, validate_replace_services_request}
use relayward_sdk.Conformance.Files.{FileSystem, Unmarshal, load_proto_json}

module _ (files : FileSystem) where
  unfoldable pub load_node_plugin_info :
      Unmarshal NodeInfo.GetInfoResponse → Bytes → Result NodeInfo.GetInfoResponse
  load_node_plugin_info unmarshal path = do
    info ← or_else_error (load_proto_json files unmarshal path) (wrapf "load node plugin info: %w")
    NodeInfo.validate_info_response (some info) [] []
    ok info

  unfoldable pub load_center_plugin_info :
      Unmarshal CenterInfo.GetInfoResponse → Bytes → Result CenterInfo.GetInfoResponse
  load_center_plugin_info unmarshal path = do
    info ←
        or_else_error (load_proto_json files unmarshal path) (wrapf "load center plugin info: %w")
    CenterInfo.validate_info_response (some info) [] []
    ok info

  unfoldable pub load_center_plugin_activation :
      Unmarshal ActivateRequest → Bytes → Result ActivateRequest
  load_center_plugin_activation unmarshal path = do
    request ←
        or_else_error (load_proto_json files unmarshal path)
          (wrapf "load center plugin activation: %w")
    validate_activate_request (some request)
    ok request

  unfoldable pub load_center_plugin_status :
      Unmarshal GetStatusResponse → Bytes → Result GetStatusResponse
  load_center_plugin_status unmarshal path = do
    status ←
        or_else_error (load_proto_json files unmarshal path) (wrapf "load center plugin status: %w")
    validate_status_response (some status)
    ok status

  unfoldable pub load_center_plugin_ui_request :
      Unmarshal InvokeUiRequest → Bytes → Result InvokeUiRequest
  load_center_plugin_ui_request unmarshal path = do
    request ←
        or_else_error (load_proto_json files unmarshal path)
          (wrapf "load center plugin UI request: %w")
    validate_invoke_ui_request (some request)
    ok request

  unfoldable pub load_center_plugin_nodes :
      Unmarshal ListNodesResponse → Bytes → Result ListNodesResponse
  load_center_plugin_nodes unmarshal path = do
    nodes ←
        or_else_error (load_proto_json files unmarshal path) (wrapf "load center plugin nodes: %w")
    validate_list_nodes_response (some nodes)
    ok nodes

  unfoldable pub load_center_plugin_services :
      Unmarshal ReplaceServicesRequest → Bytes → Result ReplaceServicesRequest
  load_center_plugin_services unmarshal path = do
    services ←
        or_else_error (load_proto_json files unmarshal path)
          (wrapf "load center plugin services: %w")
    validate_replace_services_request (some services)
    ok services
