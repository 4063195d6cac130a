-- ===== src/Gateway/Workspace.antt =====
-- ngenorca-gateway/src/tools.rs: the paths that the workspace tools accept, and the policy under which a
-- command runs (`SandboxPolicy` of ngenorca-sandbox/src/lib.rs). A path is the list of its components on a
-- Unix system, which are what `push`, `pop`, `==` and `starts_with` go by.
pub mod Inside
pub mod Reach
pub mod Limits
mod Tests
use ngen_orca.Identity.Texts.{Text, split, is_empty}
use ngen_orca.Base.{
  List, if◌then◌else◌, [], ◌∷◌, Bool, Result, ℕ, ◌||◌, ◌++◌, same, true, ok, min, ◌==◌, max, codes,
  false, err, ◌*◌, ◌&&◌, ◌^◌, ◌-◌,
}

pub data Component : Type 0 where
  root_dir : Component
  cur_dir : Component
  parent_dir : Component
  normal : Text → Component

abbrev pub PathBuf : Type 0
PathBuf = List Component

-- A part of the text between slashes, after the first: an empty part and a dot are dropped.
unfoldable pub part : Text → PathBuf
part s =
    if is_empty s || same s (codes ".")
    then []
    else if same s (codes "..")
    then parent_dir ∷ []
    else normal s ∷ []

unfoldable pub parts : List Text → PathBuf
parts [] = []
parts (s ∷ more) = part s ++ parts more

-- `Path::components`: a dot is a component in front of a relative path only.
unfoldable pub components : Text → PathBuf
components s = elim (split 47 s) [
  | [] ↦ []
  | a ∷ [] ↦ if same a (codes ".") then cur_dir ∷ [] else part a
  | a ∷ b ∷ more ↦
      if is_empty a
      then root_dir ∷ parts (b ∷ more)
      else (if same a (codes ".") then cur_dir ∷ [] else part a) ++ parts (b ∷ more)
]

abbrev pop_only : Component → PathBuf
pop_only root_dir = root_dir ∷ []
pop_only cur_dir = []
pop_only parent_dir = []
pop_only (normal s) = []

-- `PathBuf::pop`, which leaves a root and an empty path.
unfoldable pub pop : PathBuf → PathBuf
pop [] = []
pop (a ∷ []) = pop_only a
pop (a ∷ b ∷ more) = a ∷ pop (b ∷ more)

-- A component at the end of the path under construction.
unfoldable pub push : PathBuf → Component → PathBuf
push normalized root_dir = root_dir ∷ []
push normalized cur_dir = normalized
push normalized parent_dir = pop normalized
push normalized (normal s) = normalized ++ normal s ∷ []

unfoldable pub push_all : PathBuf → PathBuf → PathBuf
push_all normalized [] = normalized
push_all normalized (a ∷ more) = push_all (push normalized a) more

unfoldable pub normalize_path : PathBuf → PathBuf
normalize_path path = push_all [] path

unfoldable pub is_absolute : PathBuf → Bool
is_absolute (root_dir ∷ more) = true
is_absolute (cur_dir ∷ more) = false
is_absolute (parent_dir ∷ more) = false
is_absolute (normal s ∷ more) = false
is_absolute [] = false

-- `Path::join` of a relative path: its dot in front is no component behind another one.
unfoldable pub join : PathBuf → PathBuf → PathBuf
join [] path = path
join (a ∷ base) (cur_dir ∷ more) = a ∷ base ++ more
join (a ∷ base) [] = a ∷ base
join (a ∷ base) (root_dir ∷ more) = root_dir ∷ more
join (a ∷ base) (parent_dir ∷ more) = a ∷ base ++ parent_dir ∷ more
join (a ∷ base) (normal s ∷ more) = a ∷ base ++ normal s ∷ more

unfoldable pub same_component : Component → Component → Bool
same_component root_dir root_dir = true
same_component cur_dir cur_dir = true
same_component parent_dir parent_dir = true
same_component (normal s) (normal t) = same s t
same_component _ _ = false

unfoldable pub starts_with : PathBuf → PathBuf → Bool
starts_with path [] = true
starts_with [] (b ∷ base) = false
starts_with (a ∷ path) (b ∷ base) = same_component a b && starts_with path base

-- The error is `Unauthorized` with the path requested.
unfoldable pub resolve_workspace_path : PathBuf → Text → Result Text PathBuf
resolve_workspace_path workspace requested =
    let workspace_root = normalize_path workspace in
    let req_path = components requested in
    let candidate =
      if is_absolute req_path
      then normalize_path req_path
      else normalize_path (join workspace_root req_path) in
    if starts_with candidate workspace_root then ok candidate else err requested

-- `WorkspaceTool::new` and `resolve`.
unfoldable pub new_tool : PathBuf → PathBuf
new_tool workspace_root = normalize_path workspace_root

unfoldable pub resolve : PathBuf → Text → Result Text PathBuf
resolve tool requested = resolve_workspace_path tool requested

pub record SandboxPolicyConfig : Type 0 where
  pub allow_network : Bool
  pub allow_workspace_write : Bool
  pub allow_child_processes : Bool
  pub additional_read_paths : List Text
  pub additional_write_paths : List Text
  pub memory_limit_mb : ℕ
  pub cpu_limit_seconds : ℕ
  pub wall_time_limit_seconds : ℕ

-- A limit of 0 is none.
pub record SandboxPolicy : Type 0 where
  pub network : Bool
  pub read_paths : List Text
  pub write_paths : List Text
  pub spawn : Bool
  pub memory_limit_bytes : ℕ
  pub cpu_time_limit_secs : ℕ
  pub wall_timeout_secs : ℕ

unfoldable pub megabytes_to_bytes : ℕ → ℕ
megabytes_to_bytes megabytes = min (megabytes * 1048576) (2 ^ 64 - 1)

unfoldable pub apply_timeout_cap : ℕ → ℕ → ℕ
apply_timeout_cap requested configured =
    if configured == 0 then requested else min requested configured

-- `MAX_COMMAND_TIMEOUT_SECS`.
abbrev pub max_command_timeout_secs : ℕ
max_command_timeout_secs = 300

unfoldable pub command_sandbox_policy : ℕ → Text → SandboxPolicyConfig → SandboxPolicy
command_sandbox_policy timeout_secs workspace_root policy =
    let requested = max 1 (min timeout_secs max_command_timeout_secs) in
    record {
      network = policy.allow_network;
      read_paths = workspace_root ∷ policy.additional_read_paths;
      write_paths =
          if policy.allow_workspace_write
          then workspace_root ∷ policy.additional_write_paths
          else policy.additional_write_paths;
      spawn = policy.allow_child_processes;
      memory_limit_bytes = megabytes_to_bytes policy.memory_limit_mb;
      cpu_time_limit_secs = apply_timeout_cap requested policy.cpu_limit_seconds;
      wall_timeout_secs = apply_timeout_cap requested policy.wall_time_limit_seconds;
    }
