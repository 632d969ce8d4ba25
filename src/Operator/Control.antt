-- ===== src/Operator/Control.antt =====
-- The actions of scripts/operator_control.py: status, submit, observe, cancel and approval, on the
-- audit log of one slug and on the default approval file. The evidence is that of
-- scripts/summarize_50_slice_operator_state.py, which no action changes. Times and paths are left out.
use ao_operator.Base.{
  ℕ, zero, suc, ◌-◌, Bool, true, false, not, ◌&&◌, Option, none, some, List, [], ◌∷◌, ◌++◌, leb,
  if◌then◌else◌, length,
}
use ao_operator.Text.{Text}
use ao_operator.Operator.State.{Approval, Evidence, Blocker, approval_env_name, is_blank, summarize}

pub data ControlError : Type 0 where
  approved_by_required approval_source_required env_required file_exists : ControlError

-- The arguments of `approval`; `env_set` is whether the environment's variable is "1".
pub record Request : Type 0 where
  pub approved_by : Text
  pub approval_source : Text
  pub target_slices : ℕ
  pub target_tasks : ℕ
  pub env_set : Bool
  pub write_approval_file : Bool
  pub overwrite : Bool

-- An action with its arguments.
pub data Action : Type 0 where
  status : Action
  submit : (source intent : Text) → Action
  observe : (audit_limit : ℕ) → Action
  cancel : (target_run reason : Text) → Action
  approval : Request → Action

-- A payload, but for the audit records that `observe` puts into it.
pub record Control : Type 0 where
  pub action : Action
  pub passes : Bool
  pub dispatch_authorized : Bool
  pub current_state : Text
  pub approved : Bool
  pub blockers : List Blocker
  pub errors : List ControlError
  pub approval_file_written : Bool

-- The lines of the audit log: no JSON object, or a payload with the records it holds.
mutual
  pub data Line : Type 0 where
    garbled : Line
    entry : Control → Records → Line

  pub data Records : Type 0 where
    no_records : Records
    record_then : Line → Records → Records

pub record Payload : Type 0 where
  pub control : Control
  pub recent_audit : Records

-- The file at the approval's path: none, a text that is no JSON object, or one that can be read. What
-- the summary raises on, a directory or bytes that are no UTF-8, is left out.
pub data ApprovalFile : Type 0 where
  absent unreadable : ApprovalFile
  holds : Approval → ApprovalFile

-- `output_path.exists()`
abbrev pub exists : ApprovalFile → Bool
exists absent = false
exists _ = true

-- What the summary reads of the file.
abbrev pub read : ApprovalFile → Option Approval
read (holds a) = some a
read _ = none

pub record World : Type 0 where
  pub evidence : Evidence
  pub approval_file : ApprovalFile
  pub audit : List Line

unfoldable pub parsed : List Line → List Line
parsed [] = []
parsed (garbled ∷ lines) = parsed lines
parsed (entry c rs ∷ lines) = entry c rs ∷ parsed lines

-- `l[-n:]`, with a limit of 0 giving the whole list, as `l[-0:]` does.
unfoldable pub drop_lines : ℕ → List Line → List Line
drop_lines zero l = l
drop_lines (suc n) [] = []
drop_lines (suc n) (x ∷ l) = drop_lines n l

unfoldable pub last_lines : ℕ → List Line → List Line
unfolding drop_lines
last_lines zero l = l
last_lines (suc n) l = drop_lines (length l - suc n) l

unfoldable pub records_of : List Line → Records
records_of [] = no_records
records_of (l ∷ lines) = record_then l (records_of lines)

unfoldable pub read_audit : List Line → ℕ → Records
unfolding parsed last_lines records_of
read_audit lines limit = records_of (last_lines limit (parsed lines))

abbrev pub is_approval_action : Action → Bool
is_approval_action (approval r) = true
is_approval_action _ = false

unfoldable pub base_payload : World → Action → Control
unfolding summarize
base_payload w action =
    let s = summarize w.evidence (read w.approval_file) in
    record {
      action = action;
      passes = true;
      dispatch_authorized = is_approval_action action && s.dispatch_authorized;
      current_state = s.current_state;
      approved = s.approved;
      blockers = s.blockers;
      errors = [];
      approval_file_written = false;
    }

abbrev pub record_action : Bool → World → Payload → World × Payload
record_action false w p = (w, p)
record_action true w p = (record w { audit = w.audit ++ entry p.control p.recent_audit ∷ [] }, p)

abbrev pub error_if : Bool → ControlError → List ControlError
error_if true e = e ∷ []
error_if false e = []

unfoldable pub approval_errors : World → Request → List ControlError
unfolding is_blank
approval_errors w r =
    error_if (is_blank r.approved_by) approved_by_required
    ++ (error_if (is_blank r.approval_source) approval_source_required
        ++ (error_if (leb 50 r.target_slices && not r.env_set) env_required
            ++ error_if (r.write_approval_file && (exists w.approval_file && not r.overwrite))
                file_exists))

unfoldable pub approval_file_payload : Request → Approval
approval_file_payload r = record {
  approved = true;
  target_slices = r.target_slices;
  target_tasks = r.target_tasks;
  approval_env = approval_env_name;
  approved_by = r.approved_by;
}

abbrev pub written : World → Request → World
written w r =
    if r.write_approval_file
    then record w { approval_file = holds (approval_file_payload r) }
    else w

-- What an approval does with the errors that were found.
abbrev pub approve : World → Request → List ControlError → World × Control
approve w r [] = (
  written w r,
  record (base_payload (written w r) (approval r)) {
    approval_file_written = r.write_approval_file;
  },
)
approve w r (e ∷ es) = (
  w,
  record (base_payload w (approval r)) {
    passes = false;
    dispatch_authorized = false;
    errors = e ∷ es;
  },
)

unfoldable pub perform : Bool → Action → World → World × Payload
unfolding base_payload read_audit approval_errors approval_file_payload
perform audit (approval r) w =
    let (w', control) = approve w r (approval_errors w r) in
    record_action audit w' (record { control = control; recent_audit = no_records })
perform audit (observe limit) w = record_action audit w (record {
  control = record (base_payload w (observe limit)) { dispatch_authorized = false };
  recent_audit = read_audit w.audit limit;
})
perform audit status w = record_action audit w (record {
  control = record (base_payload w status) { dispatch_authorized = false };
  recent_audit = no_records;
})
perform audit (submit source intent) w = record_action audit w (record {
  control = record (base_payload w (submit source intent)) { dispatch_authorized = false };
  recent_audit = no_records;
})
perform audit (cancel target_run reason) w = record_action audit w (record {
  control = record (base_payload w (cancel target_run reason)) { dispatch_authorized = false };
  recent_audit = no_records;
})
