-- ===== src/GateB/Profile.antt =====
-- scripts/gate_b.py: `validate_profile`, on a profile as it is read from JSON. A field is `none` where it
-- is missing or of another type, and so is an item of a list.
use ao_operator.Base.{
  ℕ, ◌+◌, Bool, true, false, not, Option, none, some, List, [], ◌∷◌, ◌++◌, all, map, is_some,
  if◌then◌else◌,
}
use ao_operator.Base.Empty.{is_empty}
use ao_operator.Text.{Text, codes, teq, mem}
use ao_operator.GateB.Slices.{given, or_empty}
use ao_operator.GateB.Spec.{Role}

abbrev pub Items : Type 0
Items = Option (List (Option Text))

pub record ProfileRole : Type 0 where
  pub id : Option Text
  pub reads : Items
  pub writes : Items
  pub skills : Items
  pub instructions : Items
  pub deps : Items
  pub is_mutator : Bool

pub record Shell : Type 0 where
  pub allow_prefixes : Items
  pub require_approval_for : Items
  pub deny_prefixes : Items

pub record Fs : Type 0 where
  pub write_scopes_must_match_contract : Option Bool
  pub deny_outside_workspace : Option Bool

pub record Network : Type 0 where
  pub egress_default : Option Text
  pub allow_hosts : Items

pub record Secrets : Type 0 where
  pub forbidden_env : Items
  pub require_approval_for_read : Option Bool

pub record Posture : Type 0 where
  pub shell : Option Shell
  pub fs : Option Fs
  pub network : Option Network
  pub secrets : Option Secrets

-- No posture is as good as null.
pub data PostureField : Type 0 where
  absent malformed : PostureField
  posture : Posture → PostureField

pub record Profile : Type 0 where
  pub schema : Option Text
  pub roles : Option (List (Option ProfileRole))
  pub policy_posture : PostureField

pub data ProfileFile : Type 0 where
  invalid_json not_object : ProfileFile
  profile : Profile → ProfileFile

pub data ProfileError : Type 0 where
  json_invalid no_object profile_schema profile_roles : ProfileError
  role_object role_id role_duplicate : ℕ → ProfileError
  role_field : ℕ → (field : Text) → ProfileError
  posture_object : ProfileError
  posture_part posture_field : (name : Text) → ProfileError

abbrev pub error_if : Bool → ProfileError → List ProfileError
error_if true e = e ∷ []
error_if false e = []

-- `_list_str`
abbrev pub is_list_str : Items → Bool
is_list_str none = false
is_list_str (some l) = all given l

-- The tests on the five lists of a role.
abbrev pub field_errors : ℕ → ProfileRole → List ProfileError
field_errors index r =
    error_if (not (is_list_str r.reads)) (role_field index (codes "reads"))
    ++ (error_if (not (is_list_str r.writes)) (role_field index (codes "writes"))
        ++ (error_if (not (is_list_str r.skills)) (role_field index (codes "skills"))
            ++ (error_if (not (is_list_str r.instructions))
                  (role_field index (codes "instructions"))
                ++ error_if (not (is_list_str r.deps)) (role_field index (codes "deps")))))

-- The loop over the roles, behind the ids that were seen.
unfoldable pub roles_errors : ℕ → List Text → List (Option ProfileRole) → List ProfileError
unfolding teq
roles_errors index seen [] = []
roles_errors index seen (none ∷ roles) = role_object index ∷ roles_errors (index + 1) seen roles
roles_errors index seen (some r ∷ roles) =
    let id = or_empty r.id in
    let skipped = roles_errors (index + 1) seen roles in
    let rest = roles_errors (index + 1) (id ∷ seen) roles in
    if is_empty id
    then role_id index ∷ skipped
    else error_if (mem id seen) (role_duplicate index) ++ (field_errors index r ++ rest)

unfoldable pub all_roles_errors : Option (List (Option ProfileRole)) → List ProfileError
unfolding roles_errors
all_roles_errors none = profile_roles ∷ []
all_roles_errors (some []) = profile_roles ∷ []
all_roles_errors (some (r ∷ roles)) = roles_errors 1 [] (r ∷ roles)

abbrev pub shell_errors : Option Shell → List ProfileError
shell_errors none = posture_part (codes "shell") ∷ []
shell_errors (some s) =
    error_if (not (is_list_str s.allow_prefixes)) (posture_field (codes "shell.allow_prefixes"))
    ++ (error_if (not (is_list_str s.require_approval_for))
          (posture_field (codes "shell.require_approval_for"))
        ++ error_if (not (is_list_str s.deny_prefixes))
            (posture_field (codes "shell.deny_prefixes")))

abbrev pub fs_errors : Option Fs → List ProfileError
fs_errors none = posture_part (codes "fs") ∷ []
fs_errors (some f) =
    error_if (not (is_some f.write_scopes_must_match_contract))
      (posture_field (codes "fs.write_scopes_must_match_contract"))
    ++ error_if (not (is_some f.deny_outside_workspace))
        (posture_field (codes "fs.deny_outside_workspace"))

unfoldable pub network_errors : Option Network → List ProfileError
unfolding teq
network_errors none = posture_part (codes "network") ∷ []
network_errors (some n) =
    error_if (not (mem (or_empty n.egress_default) (codes "allow" ∷ codes "deny" ∷ [])))
      (posture_field (codes "network.egress_default"))
    ++ error_if (not (is_list_str n.allow_hosts)) (posture_field (codes "network.allow_hosts"))

abbrev pub secrets_errors : Option Secrets → List ProfileError
secrets_errors none = posture_part (codes "secrets") ∷ []
secrets_errors (some s) =
    error_if (not (is_list_str s.forbidden_env)) (posture_field (codes "secrets.forbidden_env"))
    ++ error_if (not (is_some s.require_approval_for_read))
        (posture_field (codes "secrets.require_approval_for_read"))

unfoldable pub posture_errors : PostureField → List ProfileError
unfolding network_errors
posture_errors absent = []
posture_errors malformed = posture_object ∷ []
posture_errors (posture p) =
    shell_errors p.shell
    ++ (fs_errors p.fs ++ (network_errors p.network ++ secrets_errors p.secrets))

abbrev pub is_schema : Text → Option Text → Bool
is_schema t none = false
is_schema t (some u) = teq u t

unfoldable pub validate_profile : ProfileFile → List ProfileError
unfolding teq all_roles_errors posture_errors
validate_profile invalid_json = json_invalid ∷ []
validate_profile not_object = no_object ∷ []
validate_profile (profile p) =
    error_if (not (is_schema (codes "ao-operator/profile/v1") p.schema)) profile_schema
    ++ (all_roles_errors p.roles ++ posture_errors p.policy_posture)

-- The roles of a profile, as `role_contracts` reads them of a profile without an error.
abbrev pub texts_in : Items → List Text
texts_in none = []
texts_in (some l) = map or_empty l

abbrev pub read_role : ProfileRole → Role
read_role r = record {
  id = or_empty r.id;
  reads = texts_in r.reads;
  writes = texts_in r.writes;
  skills = texts_in r.skills;
  is_mutator = r.is_mutator;
}

abbrev pub read_roles : List (Option ProfileRole) → List Role
read_roles [] = []
read_roles (none ∷ roles) = read_roles roles
read_roles (some r ∷ roles) = read_role r ∷ read_roles roles

abbrev pub read_given : Option (List (Option ProfileRole)) → List Role
read_given none = []
read_given (some roles) = read_roles roles

abbrev pub roles_of : ProfileFile → List Role
roles_of invalid_json = []
roles_of not_object = []
roles_of (profile p) = read_given p.roles
