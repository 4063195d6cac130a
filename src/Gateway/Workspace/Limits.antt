-- ===== src/Gateway/Workspace/Limits.antt =====
-- The limits under which tools.rs runs a command.
use ngen_orca.Gateway.Workspace.{
  command_sandbox_policy, SandboxPolicyConfig, SandboxPolicy, apply_timeout_cap, megabytes_to_bytes,
}
use ngen_orca.Base.{
  ℕ, ◌≡◌, ◌≤◌, ◌⊎◌, ◌<◌, inl, max, ◌^◌, suc, min, zero, arith, refl, ◌==◌, false, inr,
}
use ngen_orca.Identity.Texts.{Text}

-- At most what is configured, where a limit is configured.
abbrev pub Within : ℕ → ℕ → Type 0
Within limit configured = (configured ≡ 0) ⊎ (limit ≤ configured)

pub record Limited (policy : SandboxPolicyConfig) (limits : SandboxPolicy) : Type 0 where
  pub some_time : 1 ≤ limits.wall_timeout_secs
  pub some_cpu : 1 ≤ limits.cpu_time_limit_secs
  pub short_time : limits.wall_timeout_secs ≤ 300
  pub short_cpu : limits.cpu_time_limit_secs ≤ 300
  pub time_within : Within limits.wall_timeout_secs policy.wall_time_limit_seconds
  pub cpu_within : Within limits.cpu_time_limit_secs policy.cpu_limit_seconds
  pub memory_fits : limits.memory_limit_bytes < 2 ^ 64

apply_timeout_cap_lem :
    (requested configured : ℕ)
    → 1 ≤ requested
    → requested ≤ 300
    → (1 ≤ apply_timeout_cap requested configured)
      × (apply_timeout_cap requested configured ≤ 300)
      × Within (apply_timeout_cap requested configured) configured
unfolding apply_timeout_cap
apply_timeout_cap_lem requested zero h k = (h, k, inl refl)
apply_timeout_cap_lem requested (suc c) h k =
    let nonzero : (suc c == 0) ≡ false = ground arith in
    rw nonzero (omega arith, omega arith, inr (omega arith))

-- Whatever time the model asks for, a command runs under a limit of 1 to 300 seconds of wall-clock and of
-- processor time (0 would be no limit), which is at most the configured one, and the limit of its memory
-- fits 64 bits.
pub command_sandbox_policy-Limited :
    (timeout_secs : ℕ) (root : Text) (policy : SandboxPolicyConfig)
    → Limited policy (command_sandbox_policy timeout_secs root policy)
unfolding command_sandbox_policy megabytes_to_bytes
command_sandbox_policy-Limited timeout_secs root policy =
    let requested = max 1 (min timeout_secs 300) in
    let (a, b, c) =
      apply_timeout_cap_lem requested policy.cpu_limit_seconds (omega arith) (omega arith) in
    let (d, e, f) =
      apply_timeout_cap_lem requested policy.wall_time_limit_seconds (omega arith) (omega arith) in
    record {
      some_time = d;
      some_cpu = a;
      short_time = e;
      short_cpu = b;
      time_within = f;
      cpu_within = c;
      memory_fits = omega arith;
    }
