-- ===== src/GateB/Spec.antt =====
-- scripts/gate_b.py: the role contracts, the specification that Gate R reads, the lint of the
-- constitution, the analysis of the specification, and the gate. The roles are those of a profile, each
-- value as `str` gives it. The results of `validate_intake` and `validate_profile` are arguments.
use ao_operator.Base.{
  ℕ, ◌+◌, Bool, true, false, not, ◌&&◌, List, [], ◌∷◌, ◌++◌, if◌then◌else◌, all, any, map, filter,
}
use ao_operator.Base.Empty.{is_empty}
use ao_operator.Text.{mem, first_of_each, Text, codes, teq, contains, starts_with, strip, is_space}
use ao_operator.Dict.{Dict, set}
use ao_operator.GateB.Paths.{concrete_path, render_slug}
use ao_operator.GateB.Slices.{RawSlice, NormalSlice, Partition, validate_partition_slices}

pub record Role : Type 0 where
  pub id : Text
  pub reads : List Text
  pub writes : List Text
  pub skills : List Text
  pub is_mutator : Bool

unfoldable pub role_contract : Text → Role → Role
unfolding render_slug
role_contract slug r = record r {
  reads = map (render_slug slug) r.reads;
  writes = map (render_slug slug) r.writes;
}

abbrev pub role_contracts : Text → List Role → List Role
role_contracts slug roles = map (role_contract slug) roles

pub record SpecRole : Type 0 where
  pub role : Role
  pub role_artifact : Text
  pub allowed_artifacts : List Text

-- `run-artifacts/<slug>/roles/<id>.md`
unfoldable pub role_artifact_of : Text → Text → Text
role_artifact_of slug id =
    codes "run-artifacts/" ++ (slug ++ (codes "/roles/" ++ (id ++ codes ".md")))

unfoldable pub spec_role : Text → Role → SpecRole
unfolding role_contract role_artifact_of concrete_path first_of_each
spec_role slug r =
    let declared = role_contract slug r in
    let artifact = role_artifact_of slug r.id in
    record {
      role = declared;
      role_artifact = artifact;
      allowed_artifacts =
          first_of_each []
            (artifact ∷ filter (λ t. not (is_empty t)) (map concrete_path declared.writes));
    }

pub record Spec : Type 0 where
  pub role_artifacts : Dict Text
  pub roles : List SpecRole
  pub partition_slices : List NormalSlice

unfoldable pub artifacts_from : Text → Dict Text → List Role → Dict Text
unfolding role_artifact_of set
artifacts_from slug d [] = d
artifacts_from slug d (r ∷ roles) =
    artifacts_from slug (set r.id (role_artifact_of slug r.id) d) roles

unfoldable pub spec_contract : Text → List Role → Partition → Spec
unfolding spec_role artifacts_from
spec_contract slug roles partition = record {
  role_artifacts = artifacts_from slug [] roles;
  roles = map (spec_role slug) roles;
  partition_slices = partition.slices;
}

pub record Requirement : Type 0 where
  pub id : Text
  pub text : Text

pub data AnalyzeError : Type 0 where
  no_requirements roles_empty : AnalyzeError
  requirement_id requirement_text id_required duplicate_id writes_type artifact_required
        allowed_type allowed_missing :
      ℕ → AnalyzeError
  ears_prefix rfc_keyword : Text → AnalyzeError

abbrev pub error_if : Bool → AnalyzeError → List AnalyzeError
error_if true e = e ∷ []
error_if false e = []

abbrev pub constitution_contract : List Requirement
constitution_contract =
    record {
      id = codes "GB-SHALL-001";
      text =
          codes
            "WHEN AO Operator receives intake artifacts, Gate B SHALL validate classification, shape, acceptance criteria, constraints, sensitive fields, trigger hints, and scoped slices before role dispatch.";
    }
    ∷ record {
      id = codes "GB-SHALL-002";
      text =
          codes
            "WHEN a profile is selected, Gate B SHALL validate role reads, writes, skills, dependencies, and policy posture before role dispatch.";
    }
    ∷ record {
      id = codes "GR-SHALL-001";
      text =
          codes
            "WHEN role execution completes, Gate R SHALL compare role artifacts against the Gate B role contract before closure is trusted.";
    }
    ∷ record {
      id = codes "GR-SHALL-002";
      text =
          codes
            "IF a role reports an artifact outside its declared Gate B writes, Gate R MUST fail closure with the drift path named.";
    }
    ∷ []

unfoldable pub requirement_errors : ℕ → Requirement → List AnalyzeError
unfolding strip is_space starts_with contains
requirement_errors index r =
    let text = strip is_space r.text in
    error_if (is_empty r.id) (requirement_id index)
    ++ (if is_empty text
        then requirement_text index ∷ []
        else error_if
            (not (
              any (λ p. starts_with p text)
                (codes "WHEN" ∷ codes "IF" ∷ codes "WHILE" ∷ codes "WHERE" ∷ codes "GIVEN" ∷ [])))
            (ears_prefix r.id)
          ++ error_if
              (not (
                any (λ t. contains t text)
                  (codes "MUST"
                    ∷ codes "MUST NOT"
                    ∷ codes "SHALL"
                    ∷ codes "SHALL NOT"
                    ∷ codes "SHOULD"
                    ∷ codes "SHOULD NOT"
                    ∷ [])))
              (rfc_keyword r.id))

unfoldable pub requirements_errors : ℕ → List Requirement → List AnalyzeError
unfolding requirement_errors
requirements_errors index [] = []
requirements_errors index (r ∷ rs) =
    requirement_errors index r ++ requirements_errors (index + 1) rs

unfoldable pub lint_constitution : List Requirement → List AnalyzeError
unfolding requirements_errors
lint_constitution [] = no_requirements ∷ []
lint_constitution (r ∷ rs) = requirements_errors 1 (r ∷ rs)

-- `_list_str` on a list of texts
abbrev pub list_str : List Text → Bool
list_str l = all (λ t. not (is_empty t)) l

unfoldable pub spec_role_errors : ℕ → List Text → SpecRole → List AnalyzeError
unfolding teq
spec_role_errors index seen s =
    if is_empty s.role.id
    then id_required index ∷ []
    else error_if (mem s.role.id seen) (duplicate_id index)
      ++ (error_if (not (list_str s.role.writes)) (writes_type index)
          ++ (error_if (is_empty s.role_artifact) (artifact_required index)
              ++ (if not (list_str s.allowed_artifacts)
                  then allowed_type index ∷ []
                  else error_if (not (mem s.role_artifact s.allowed_artifacts))
                      (allowed_missing index))))

unfoldable pub spec_roles_errors : ℕ → List Text → List SpecRole → List AnalyzeError
unfolding spec_role_errors
spec_roles_errors index seen [] = []
spec_roles_errors index seen (s ∷ roles) =
    spec_role_errors index seen s
    ++ spec_roles_errors (index + 1) (if is_empty s.role.id then seen else s.role.id ∷ seen) roles

unfoldable pub spec_kit_analyze : Spec → List Requirement → List AnalyzeError
unfolding lint_constitution spec_roles_errors
spec_kit_analyze spec constitution =
    lint_constitution constitution
    ++ (if is_empty spec.roles then roles_empty ∷ [] else spec_roles_errors 1 [] spec.roles)

pub record Report : Type 0 where
  pub spec : Spec
  pub partition : Partition
  pub analyze_errors : List AnalyzeError
  pub passes : Bool

unfoldable pub run_gate : Text → List Text → List Text → List Role → List RawSlice → Report
unfolding validate_partition_slices spec_contract spec_kit_analyze
run_gate slug intake_errors profile_errors profile_roles raw_slices =
    let partition = validate_partition_slices slug raw_slices in
    let spec = spec_contract slug (role_contracts slug profile_roles) partition in
    let analyze = spec_kit_analyze spec constitution_contract in
    record {
      spec = spec;
      partition = partition;
      analyze_errors = analyze;
      passes =
          is_empty intake_errors
          && (is_empty profile_errors && (is_empty analyze && is_empty partition.errors));
    }
