-- ===== src/Pool/Options.antt =====
-- `resolve_execution_options` of scripts/worker_pool.py.
use ao_operator.Base.{◌↔◌, Bool, true, false, ◌&&◌, ◌||◌, if◌then◌else◌, not, ◌≡◌, arith}

pub data Mode : Type 0 where
  dry_run render_only run unsupported : Mode

pub record WorkerExecutionOptions : Type 0 where
  pub isolate_workspace : Bool
  pub promote_artifacts : Bool

pub data OptionsError : Type 0 where
  unsupported_mode workspaces_exclusive promotion_exclusive : OptionsError

pub data Resolved : Type 0 where
  options : WorkerExecutionOptions → Resolved
  invalid : OptionsError → Resolved

abbrev pub is_run : Mode → Bool
is_run run = true
is_run _ = false

abbrev pub is_unsupported : Mode → Bool
is_unsupported unsupported = true
is_unsupported _ = false

-- A flag of the source, then its opposite.
abbrev pub overridden : Bool → Bool → Bool → Bool
overridden default on off = if off then false else if on then true else default

unfoldable pub resolve_execution_options : Mode → Bool → Bool → Bool → Bool → Resolved
resolve_execution_options mode isolated shared promote no_promote =
    if is_unsupported mode
    then invalid unsupported_mode
    else if isolated && shared
    then invalid workspaces_exclusive
    else if promote && no_promote
    then invalid promotion_exclusive
    else options (record {
      isolate_workspace = overridden (is_run mode) isolated shared;
      promote_artifacts = overridden (is_run mode) promote no_promote;
    })

-- The options that the flags ask for, where no two of them exclude each other: a flag decides, and
-- without a flag a live run, and no other mode, is isolated and promoted.
abbrev pub asked : Mode → Bool → Bool → Bool → Bool → WorkerExecutionOptions
asked mode isolated shared promote no_promote = record {
  isolate_workspace = isolated || is_run mode && not shared;
  promote_artifacts = promote || is_run mode && not no_promote;
}

-- Options are given exactly for a known mode without a pair of opposite flags, and they are then what
-- the flags ask for: isolated or promoted by the flag, or in a live run without the opposite flag.
pub resolve_execution_options_lem :
    (mode : Mode) (isolated shared promote no_promote : Bool) (o : WorkerExecutionOptions)
    → (resolve_execution_options mode isolated shared promote no_promote ≡ options o) ↔ (
        ((is_unsupported mode || (isolated && shared || promote && no_promote)) ≡ false)
        × (o ≡ asked mode isolated shared promote no_promote))
unfolding resolve_execution_options
resolve_execution_options_lem mode isolated shared promote no_promote o =
    (λ h. ground arith, λ h. ground (arith, h.0, h.1))
