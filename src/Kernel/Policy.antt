-- ===== src/Kernel/Policy.antt =====
-- kernel/policy_gate.py: permission classes, the safe overlay, and what one node may do.
pub mod Classes
pub mod Paths
use Prim.Native.String
use brain_flow.Prelude.{
  String, Bool, true, false, ◌&&◌, ◌||◌, not, Option, none, some, List, [], ◌∷◌, any, str_eq,
  if◌then◌else◌,
}
use brain_flow.Prelude.Text.{
  Codes, codes, replace_code, lstrip, starts_with, codes_eq, split, or_text,
}

abbrev pub auto_apply : List String
auto_apply = "read" ∷ "safe_overlay" ∷ []

abbrev pub approval_required : List String
approval_required =
    "vault_mutate" ∷ "source_mutate" ∷ "network_egress" ∷ "network" ∷ "publish" ∷ "shell"
    ∷ "credentials" ∷ "approval_required" ∷ []

abbrev pub contains : List String → String → Bool
contains xs c = any (str_eq c) xs

abbrev pub is_known : String → Bool
is_known c = contains auto_apply c || contains approval_required c

unfoldable pub normalize_permission_class : String → String
normalize_permission_class raw =
    if str_eq raw "network"
    then "network_egress"
    else if str_eq raw "approval_required"
    then "vault_mutate"
    else raw

unfoldable pub may_auto_apply : String → Bool
may_auto_apply permission_class = contains auto_apply (normalize_permission_class permission_class)

-- The error of a refused path; `{"ok": True}` is `none`.
pub data PathError : Type 0 where
  traversal : PathError
  not_under_overlay : String → PathError

abbrev pub overlay_roots : List Codes
overlay_roots =
    codes ".brainflow/artifacts/"
    ∷ codes ".brainflow/workflows/"
    ∷ codes ".brainflow/graphs/"
    ∷ codes ".brainflow/templates/"
    ∷ codes "artifacts/"
    ∷ []

unfoldable pub overlay_path : String → Codes
overlay_path path = lstrip b'/' (replace_code 0x5c b'/' (codes path))

unfoldable pub assert_path_safe_overlay : String → Option PathError
assert_path_safe_overlay path =
    let p = overlay_path path in
    if any (codes_eq (codes "..")) (split b'/' p)
    then some traversal
    else if any (starts_with p) overlay_roots
    then none
    else some (not_under_overlay path)

pub data ActionError : Type 0 where
  unknown_class requires_approval : String → ActionError
  unsafe_path : PathError → ActionError

-- The text of an error.
unfoldable pub error_text : ActionError → String
error_text (unknown_class cls) = String.◌++◌ "unknown permission class: " cls
error_text (requires_approval cls) = String.◌++◌ "permission class requires approval: " cls
error_text (unsafe_path traversal) = "path traversal rejected"
error_text (unsafe_path (not_under_overlay path)) =
    String.◌++◌ "path not under .brainflow overlay: " path

-- The dictionary that `evaluate_node_action` returns.
pub record Action : Type 0 where
  pub ok : Bool
  pub approval_required : Bool
  pub permission_class : Option String
  pub error : Option ActionError

abbrev checked_write : String → Option PathError → Action
checked_write cls none = record {
  ok = true;
  approval_required = false;
  permission_class = some cls;
  error = none;
}
checked_write cls (some e) = record {
  ok = false;
  approval_required = true;
  permission_class = none;
  error = some (unsafe_path e);
}

-- if write_path: ...
abbrev check_write : Option String → Option PathError
check_write none = none
check_write (some path) = if str_eq path "" then none else assert_path_safe_overlay path

-- `permission_class` is the node's field of that name.
unfoldable pub evaluate_node_action : Option String → Option String → Action
evaluate_node_action permission_class write_path =
    let cls = normalize_permission_class (or_text permission_class "safe_overlay") in
    if not (is_known cls) && not (contains auto_apply cls)
    then record {
      ok = false;
      approval_required = true;
      permission_class = none;
      error = some (unknown_class cls);
    }
    else if not (may_auto_apply cls)
    then record {
      ok = false;
      approval_required = true;
      permission_class = some cls;
      error = some (requires_approval cls);
    }
    else checked_write cls (check_write write_path)
