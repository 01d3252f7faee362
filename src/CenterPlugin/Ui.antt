-- ===== src/CenterPlugin/Ui.antt =====
-- centerplugin/v1/validate.go: calls of the plugin's UI, and the list of the nodes.
pub mod NodeIds
use relayward_sdk.Base.{
  ℕ, ◌+◌, Bool, false, not, ◌||◌, List, [], ◌∷◌, Option, none, some, Bytes, beq, ltb, ◌==◌, length,
  errorf, nil, num, cause, error, wrapf, Check, err, ◌>>◌, pass, reject_if, or_else_error,
}
use relayward_sdk.Regex.{match_string}
use relayward_sdk.Unicode.{is_trimmed}
use relayward_sdk.Json
use relayward_sdk.Protocol.{is_one_of}
use relayward_sdk.CenterPlugin.Text.{
  maximum_ui_json_bytes, ui_method_pattern, validate_json_object, validate_opaque_id,
}

pub record InvokeUiRequest : Type 0 where
  pub method : Bytes
  pub json : Bytes

pub record InvokeUiResponse : Type 0 where
  pub json : Bytes

pub record Node : Type 0 where
  pub id : Bytes
  pub name : Bytes
  pub enabled : Bool
  pub connected : Bool

pub record ListNodesResponse : Type 0 where
  pub nodes : List (Option Node)

unfoldable pub validate_invoke_ui_request : Option InvokeUiRequest → Check
validate_invoke_ui_request none = err (error "request: required")
validate_invoke_ui_request (some value) = do
  reject_if (ltb 128 (length value.method) || not (match_string ui_method_pattern value.method))
      (error "method: invalid plugin UI method")
  or_else_error (validate_json_object value.json) (wrapf "json: %w")

unfoldable pub validate_invoke_ui_response : Option InvokeUiResponse → Check
validate_invoke_ui_response none = err (error "response: required")
validate_invoke_ui_response (some value) =
    reject_if
      (length value.json == 0
        || ltb maximum_ui_json_bytes (length value.json)
        || not (Json.valid value.json))
      (errorf "json: must contain at most %d bytes of valid JSON" (num maximum_ui_json_bytes nil))

-- The loop over the nodes; `seen` holds the IDs of those before.
unfoldable pub check_nodes : ℕ → List Bytes → List (Option Node) → Check
check_nodes index seen [] = pass
check_nodes index seen (none ∷ rest) = err (errorf "nodes[%d]: required" (num index nil))
check_nodes index seen (some node ∷ rest) = do
  or_else_error (validate_opaque_id node.id)
      (λ e. errorf "nodes[%d].id: %w" (num index (cause e nil)))
  reject_if (is_one_of seen node.id) (errorf "nodes[%d].id: duplicate value" (num index nil))
  reject_if (not (is_trimmed node.name) || beq node.name [] || ltb 80 (length node.name))
      (errorf "nodes[%d].name: must contain 1 to 80 trimmed bytes" (num index nil))
  check_nodes (index + 1) (node.id ∷ seen) rest

unfoldable pub validate_list_nodes_response : Option ListNodesResponse → Check
validate_list_nodes_response none = err (error "response: required")
validate_list_nodes_response (some value) = check_nodes 0 [] value.nodes
