-- ===== src/Pool/Tests.antt =====
-- The workers on small inputs.
use ao_operator.Base.{
  ℕ, ◌≤◌, ◌≡◌, ◌≢◌, refl, true, false, ◌&&◌, none, some, [], ◌∷◌, if◌then◌else◌, min, max, ◌/◌, ◌⊎◌,
  ◌↔◌, ◌||◌, arith,
}
use ao_operator.Text.{Text, codes, teq}
use ao_operator.Queue.{Entry, QueueTask, Place, find_entry, mark_done, queue_depth}
use ao_operator.Pool.Limits.{
  desired_worker_count, adjusted_rate_limit_floor, desired_worker_count_bounds,
}
use ao_operator.Pool.Options.{
  WorkerExecutionOptions, options, run, is_unsupported, asked, resolve_execution_options,
  resolve_execution_options_lem,
}
use ao_operator.Pool.Worker.{
  Host, Settings, Pool, returns, WorkerResult, run_task, report_of, pos, is_zero, run_foreground,
}
use ao_operator.Pool.Outcome.{copied, run_task_lem, run_task_returns}
use ao_operator.Pool.Drain.{Drains, run_foreground-Drains}
use ao_operator.Queue.{claim_one, pending_tasks, remove_entry}
use ao_operator.Base.{is_some, ◌<◌}
use ao_operator.Pool.Report.{count_visible, report_payload}
use ao_operator.Pool.Advice.{report-run_pool, report-idle}

abbrev host : Host
host = record {
  prepare_task_workspace = λ slug. true;
  runner = λ slug. record {
    returncode = pos 0;
    output = codes "fine";
    provider_rate_limit_signal = none;
  };
  promote_task_artifacts = λ slug. some [];
}

abbrev settings : Settings
settings = record {
  promote_artifacts = true;
  recover_stale_after_seconds = some 60;
  workers = 2;
  drain = true;
  now = 100;
}

abbrev token : ℕ → Text
token i = codes "41-c0ffee"

abbrev demo : Entry
demo = record { name = codes "demo.brief.md"; is_file = true; mtime = 90; content = codes "text" }

abbrev claimed_name : Text
claimed_name = codes "41-c0ffee__demo.brief.md"

abbrev one_pending : Pool
one_pending = record {
  queue = record { pending = demo ∷ []; in_flight = []; done = []; failed = [] };
  telemetry = [];
  drawn = 0;
}

abbrev one_claimed : Pool
one_claimed = record {
  queue = record {
    pending = [];
    in_flight = record demo { name = claimed_name } ∷ [];
    done = [];
    failed = [];
  };
  telemetry = [];
  drawn = 1;
}

abbrev task : QueueTask
task = record { place = Place.in_flight; name = claimed_name; slug = codes "demo" }

abbrev report : WorkerResult
report = report_of host settings task (host.runner task.slug)

desired_worker_count_bounds_example :
    (desired_worker_count one_pending.queue 4 (adjusted_rate_limit_floor 4 1 1)
      ≤ queue_depth one_pending.queue)
    × (desired_worker_count one_pending.queue 4 (adjusted_rate_limit_floor 4 1 1) ≤ 4)
    × (min 1 (min (queue_depth one_pending.queue) 4)
        ≤ desired_worker_count one_pending.queue 4 (adjusted_rate_limit_floor 4 1 1))
    × ((◌≡◌ {A = ℕ} 1 0)
        ⊎ (desired_worker_count one_pending.queue 4 (adjusted_rate_limit_floor 4 1 1)
            ≤ max 1 (4 / 2)))
desired_worker_count_bounds_example = desired_worker_count_bounds one_pending.queue 4 1

run_foreground-Drains_example :
    Drains host token settings (run_foreground host token settings 2 one_pending)
run_foreground-Drains_example =
    run_foreground-Drains host token settings 2 one_pending refl (omega arith) (omega arith)

run_task_returns_example :
    (r : WorkerResult) × (p' : Pool) × (run_task host settings task one_claimed ≡ (p', returns r))
    × (r.task ≡ some task)
    × (is_zero r.returncode
        ≡ (is_zero (host.runner task.slug).returncode && copied settings host task.slug))
    × (find_entry task.name (if is_zero r.returncode then p'.queue.done else p'.queue.failed)
        ≢ none)
    × (p'.queue.in_flight ≡ remove_entry task.name one_claimed.queue.in_flight)
unfolding find_entry teq
run_task_returns_example =
    run_task_returns host settings task one_claimed refl (λ e. ground arith) refl refl

abbrev after : Pool
after = record {
  queue = record {
    pending = [];
    in_flight = [];
    done = record demo { name = claimed_name } ∷ [];
    failed = [];
  };
  telemetry = [];
  drawn = 1;
}

run_task_lem_example :
    (host.prepare_task_workspace task.slug ≡ true)
    × (report.task ≡ some task)
    × (is_zero report.returncode
        ≡ (is_zero (host.runner task.slug).returncode && copied settings host task.slug))
    × (find_entry task.name
          (if is_zero report.returncode then after.queue.done else after.queue.failed)
        ≢ none)
    × (after.queue.in_flight ≡ remove_entry task.name one_claimed.queue.in_flight)
unfolding mark_done teq
run_task_lem_example =
    run_task_lem host settings task one_claimed after report (unfold run_task in refl)

abbrev isolated_only : WorkerExecutionOptions
isolated_only = record { isolate_workspace = true; promote_artifacts = false }

resolve_execution_options_lem_example :
    (resolve_execution_options run true false false true ≡ options isolated_only) ↔ (
      ((is_unsupported run || (true && false || false && true)) ≡ false)
      × (isolated_only ≡ asked run true false false true))
resolve_execution_options_lem_example =
    resolve_execution_options_lem run true false false true isolated_only

report-run_pool_example :
    ((report_payload 4 none 60 60 100 one_pending.queue []).stale_in_flight ≡ 0)
    × (0 < (report_payload 4 none 60 60 100 one_pending.queue []).suggested_workers)
    × ((report_payload 4 none 60 60 100 one_pending.queue []).suggested_workers
        ≤ queue_depth one_pending.queue)
    × (is_some (claim_one token one_pending.queue).1 ≡ true)
unfolding desired_worker_count queue_depth adjusted_rate_limit_floor
report-run_pool_example =
    report-run_pool 4 none 60 60 100 one_pending.queue [] token (unfold report_payload in refl)

report-idle_example :
    (pending_tasks after.queue ≡ [])
    × ((report_payload 4 none 60 60 100 after.queue []).stale_in_flight ≡ 0)
    × (count_visible after.queue.failed ≡ 0)
report-idle_example =
    report-idle 4 none 60 60 100 after.queue [] (omega arith) (unfold report_payload in refl)
