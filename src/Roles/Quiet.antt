-- ===== src/Roles/Quiet.antt =====
-- What a run of scripts/factory_run.py with neither blockers nor concerns says of its roles.
use ao_operator.Base.{Bool, not, ◌&&◌}
use ao_operator.Text.{Text, teq}
use ao_operator.Dict.{Dict}
use ao_operator.Roles.Ids.{RoleResult, is_done, slice_family}

-- The entries of a dict that are slices of a family and are not DONE.
abbrev is_failing : Text → Text × RoleResult → Bool
is_failing family e = teq (slice_family e.0) family && not (teq e.0 family) && not (is_done e.1)
