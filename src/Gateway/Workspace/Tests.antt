-- ===== src/Gateway/Workspace/Tests.antt =====
-- Requests below the workspace `/w/a`, and a workspace that is a dot.
use ngen_orca.Base.{refl, ◌∷◌, [], codes, false, true, ◌≡◌, ok, err, ◌++◌}
use ngen_orca.Gateway.Workspace.{
  components, normal, root_dir, PathBuf, SandboxPolicyConfig, resolve_workspace_path,
  command_sandbox_policy, normalize_path,
}
use ngen_orca.Gateway.Workspace.Inside.{Names, resolve_workspace_path-Names}
use ngen_orca.Gateway.Workspace.Reach.{resolve_workspace_path-components}
use ngen_orca.Gateway.Workspace.Limits.{Limited, command_sandbox_policy-Limited}

abbrev workspace : PathBuf
workspace = root_dir ∷ normal (codes "w") ∷ normal (codes "a") ∷ []

abbrev policy : SandboxPolicyConfig
policy = record {
  allow_network = false;
  allow_workspace_write = true;
  allow_child_processes = true;
  additional_read_paths = [];
  additional_write_paths = [];
  memory_limit_mb = 512;
  cpu_limit_seconds = 30;
  wall_time_limit_seconds = 0;
}

resolve_workspace_path-Names_example :
    (rest : PathBuf) × (root_dir ∷ normal (codes "w") ∷ normal (codes "a") ∷ normal (codes "d") ∷ []
      ≡ normalize_path workspace ++ rest)
    × Names rest
unfolding ngen_orca.Gateway.Workspace.part ngen_orca.Gateway.Workspace.parts
    ngen_orca.Gateway.Workspace.components ngen_orca.Gateway.Workspace.pop
    ngen_orca.Gateway.Workspace.push ngen_orca.Gateway.Workspace.push_all
    ngen_orca.Gateway.Workspace.normalize_path ngen_orca.Gateway.Workspace.is_absolute
    ngen_orca.Gateway.Workspace.join ngen_orca.Gateway.Workspace.same_component
    ngen_orca.Gateway.Workspace.starts_with ngen_orca.Gateway.Workspace.resolve_workspace_path
    ngen_orca.Gateway.Workspace.new_tool ngen_orca.Gateway.Workspace.resolve
    ngen_orca.Gateway.Workspace.megabytes_to_bytes ngen_orca.Gateway.Workspace.apply_timeout_cap
    ngen_orca.Gateway.Workspace.command_sandbox_policy ngen_orca.Gateway.Workspace.Inside.IsName
    ngen_orca.Gateway.Workspace.Inside.Rooted ngen_orca.Identity.Texts.split
resolve_workspace_path-Names_example =
    resolve_workspace_path-Names workspace
      (root_dir ∷ normal (codes "w") ∷ normal (codes "a") ∷ normal (codes "d") ∷ [])
      (codes "../a/./c/../d") refl refl

resolve_workspace_path-components_example :
    resolve_workspace_path workspace (codes "c//d")
    ≡ ok (normalize_path workspace ++ components (codes "c//d"))
unfolding ngen_orca.Gateway.Workspace.part ngen_orca.Gateway.Workspace.parts
    ngen_orca.Gateway.Workspace.components ngen_orca.Gateway.Workspace.pop
    ngen_orca.Gateway.Workspace.push ngen_orca.Gateway.Workspace.push_all
    ngen_orca.Gateway.Workspace.normalize_path ngen_orca.Gateway.Workspace.is_absolute
    ngen_orca.Gateway.Workspace.join ngen_orca.Gateway.Workspace.same_component
    ngen_orca.Gateway.Workspace.starts_with ngen_orca.Gateway.Workspace.resolve_workspace_path
    ngen_orca.Gateway.Workspace.new_tool ngen_orca.Gateway.Workspace.resolve
    ngen_orca.Gateway.Workspace.megabytes_to_bytes ngen_orca.Gateway.Workspace.apply_timeout_cap
    ngen_orca.Gateway.Workspace.command_sandbox_policy ngen_orca.Gateway.Workspace.Inside.IsName
    ngen_orca.Gateway.Workspace.Inside.Rooted ngen_orca.Identity.Texts.split
resolve_workspace_path-components_example =
    resolve_workspace_path-components workspace (codes "c//d") refl (tt, (tt, tt))

-- One step out.
refused : resolve_workspace_path workspace (codes "../b") ≡ err (codes "../b")
unfolding ngen_orca.Gateway.Workspace.part ngen_orca.Gateway.Workspace.parts
    ngen_orca.Gateway.Workspace.components ngen_orca.Gateway.Workspace.pop
    ngen_orca.Gateway.Workspace.push ngen_orca.Gateway.Workspace.push_all
    ngen_orca.Gateway.Workspace.normalize_path ngen_orca.Gateway.Workspace.is_absolute
    ngen_orca.Gateway.Workspace.join ngen_orca.Gateway.Workspace.same_component
    ngen_orca.Gateway.Workspace.starts_with ngen_orca.Gateway.Workspace.resolve_workspace_path
    ngen_orca.Gateway.Workspace.new_tool ngen_orca.Gateway.Workspace.resolve
    ngen_orca.Gateway.Workspace.megabytes_to_bytes ngen_orca.Gateway.Workspace.apply_timeout_cap
    ngen_orca.Gateway.Workspace.command_sandbox_policy ngen_orca.Gateway.Workspace.Inside.IsName
    ngen_orca.Gateway.Workspace.Inside.Rooted ngen_orca.Identity.Texts.split
refused = refl

-- The normal form of a dot is the empty path, with which every path starts.
dot_accepts :
    resolve_workspace_path (components (codes ".")) (codes "/etc/passwd")
    ≡ ok (root_dir ∷ normal (codes "etc") ∷ normal (codes "passwd") ∷ [])
unfolding ngen_orca.Gateway.Workspace.part ngen_orca.Gateway.Workspace.parts
    ngen_orca.Gateway.Workspace.components ngen_orca.Gateway.Workspace.pop
    ngen_orca.Gateway.Workspace.push ngen_orca.Gateway.Workspace.push_all
    ngen_orca.Gateway.Workspace.normalize_path ngen_orca.Gateway.Workspace.is_absolute
    ngen_orca.Gateway.Workspace.join ngen_orca.Gateway.Workspace.same_component
    ngen_orca.Gateway.Workspace.starts_with ngen_orca.Gateway.Workspace.resolve_workspace_path
    ngen_orca.Gateway.Workspace.new_tool ngen_orca.Gateway.Workspace.resolve
    ngen_orca.Gateway.Workspace.megabytes_to_bytes ngen_orca.Gateway.Workspace.apply_timeout_cap
    ngen_orca.Gateway.Workspace.command_sandbox_policy ngen_orca.Gateway.Workspace.Inside.IsName
    ngen_orca.Gateway.Workspace.Inside.Rooted ngen_orca.Identity.Texts.split
dot_accepts = refl

command_sandbox_policy-Limited_example :
    Limited policy (command_sandbox_policy 100000 (codes "/w/a") policy)
command_sandbox_policy-Limited_example = command_sandbox_policy-Limited 100000 (codes "/w/a") policy
