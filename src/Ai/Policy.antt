-- ===== src/Ai/Policy.antt =====
-- The workspace policy, kernel01/kernel/ai/ai_workspace_policy.c: what an assistant may do, and on
-- which paths. A path is a C string, or `none` for the null pointer.
pub mod Paths
pub mod Allow
use Prim.Native.String.{String}
use hnmos.Prelude.{
  ℕ, ◌+◌, ◌-◌, Bool, true, false, not, ◌&&◌, ◌||◌, Option, none, some, List, [], ◌∷◌, leb, ◌==◌,
  if◌then◌else◌, length, get_or,
}
use hnmos.Prelude.Buffer.{codes}

pub data Capability : Type 0 where
  read_workspace write_hnlang_draft read_build_log : Capability
  run_workspace_build use_provider_network : Capability
  modify_system write_kernel write_boot change_policy control_driver change_audit_log : Capability

pub data Decision : Type 0 where
  deny allow require_approval : Decision

-- The loop of `hnm_ai_policy_has_prefix`. Where the text ends before the prefix its NUL differs.
unfoldable pub prefix_matches : List ℕ → List ℕ → Bool
prefix_matches text [] = true
prefix_matches [] (c ∷ cs) = false
prefix_matches (t ∷ ts) (c ∷ cs) = (t == c) && prefix_matches ts cs

unfoldable pub has_prefix : Option (List ℕ) → List ℕ → Bool
has_prefix none prefix = false
has_prefix (some text) prefix = prefix_matches text prefix

-- The next character, or the NUL.
abbrev pub next_char : List ℕ → ℕ
next_char [] = 0
next_char (c ∷ cs) = c

unfoldable pub two_dots : List ℕ → Bool
two_dots [] = false
two_dots (c ∷ cs) = ((c == b'.') && (next_char cs == b'.')) || two_dots cs

unfoldable pub contains_parent_reference : Option (List ℕ) → Bool
contains_parent_reference none = true
contains_parent_reference (some path) = two_dots path

abbrev pub char_at : List ℕ → ℕ → ℕ
char_at path i = get_or path i 0

unfoldable pub has_hnlang_suffix : Option (List ℕ) → Bool
has_hnlang_suffix none = false
has_hnlang_suffix (some path) =
    let len = length path in
    leb 3 len
    && (char_at path (len - 3) == b'.')
    && (char_at path (len - 2) == b'h')
    && (char_at path (len - 1) == b'n')

unfoldable pub decide : Capability → Decision
decide read_workspace = allow
decide write_hnlang_draft = allow
decide read_build_log = allow
decide run_workspace_build = require_approval
decide use_provider_network = require_approval
decide _ = deny

abbrev pub is_allow : Decision → Bool
is_allow allow = true
is_allow _ = false

abbrev pub is_write_draft : Capability → Bool
is_write_draft write_hnlang_draft = true
is_write_draft _ = false

unfoldable pub decide_path : Capability → Option (List ℕ) → Decision
decide_path capability path =
    let base_decision = decide capability in
    if not (is_allow base_decision)
    then base_decision
    else (if not (has_prefix path (codes "/workspace/")) || contains_parent_reference path
        then deny
        else (if is_write_draft capability && not (has_hnlang_suffix path) then deny else allow))

unfoldable pub capability_name : Capability → String
capability_name read_workspace = "read.workspace"
capability_name write_hnlang_draft = "write.workspace.hnlang"
capability_name read_build_log = "read.build.log"
capability_name run_workspace_build = "run.workspace.build"
capability_name use_provider_network = "network.provider"
capability_name modify_system = "change.system"
capability_name write_kernel = "write.kernel"
capability_name write_boot = "write.boot"
capability_name change_policy = "change.policy"
capability_name control_driver = "control.driver"
capability_name change_audit_log = "change.audit"

unfoldable pub decision_name : Decision → String
decision_name allow = "allow"
decision_name require_approval = "approval"
decision_name deny = "deny"
