-- ===== src/Tests/WorkerRuns.antt =====
-- An execution of a run that its user cancels while the graph is running.
use crucible.Base.{◌++◌, find?, ℕ, ◌≡◌, refl, true, false, List, [], ◌∷◌, none, some}
use crucible.Db.Models.{World}
use crucible.Agents.State.{no_update, JudgmentData}
use crucible.Agents.Orchestrator.{generate, simulate}
use crucible.Api.Evaluation.{cancel_evaluation_run, has_id}
use crucible.Worker.Execution.{Environment, ready}
use crucible.Worker.Persist.{persist_final_state}
use crucible.Worker.Persist.Summary.{IsSummary, persist_final_state-IsSummary}
use crucible.Db.Run.{EvaluationRun, RunStatus}
use crucible.Db.Models.{Judgment}
use crucible.Agents.State.{EvaluationState}
use crucible.Worker.Result.{ok, raised}
use crucible.Worker.Tasks.{initial_state}
use crucible.Worker.Tasks.{execute_evaluation_run}
use crucible.Worker.Tasks.Keeps.{AreNumbered}
use crucible.Worker.Tasks.Numbering.{execute_evaluation_run-AreNumbered}
use crucible.Lifecycle.{Step, Reach, here, next}
use crucible.Lifecycle.Moves.{IsShared}
use crucible.Lifecycle.Executes.{execute_evaluation_run-Reach}
use crucible.Tests.Data.{nat_floats, user, world, run_of, agent}

abbrev cancel_7 : World ℕ → World ℕ
unfolding cancel_evaluation_run
cancel_7 w = (cancel_evaluation_run 7 user 20 world w).1

abbrev environment : Environment ℕ
environment = record {
  task_id = some 1;
  now = 10;
  uuid = λ n. n;
  after_claim = λ w. w;
  setup = ready;
  stream =
      record { others = λ w. w; elapsed = false; updates = (generate, no_update) ∷ [] }
      ∷ record { others = cancel_7; elapsed = true; updates = (simulate, no_update) ∷ [] }
      ∷ [];
  stream_error = none;
  before_save = λ w. w;
  before_terminal = λ w. w;
}

execute_evaluation_run-AreNumbered_example :
    AreNumbered (execute_evaluation_run 7 environment world).published
execute_evaluation_run-AreNumbered_example = execute_evaluation_run-AreNumbered 7 environment world

environment-IsShared : IsShared environment
unfolding cancel_7
environment-IsShared = record {
  after_claim = λ w. here;
  stream = ((λ w. here), ((λ w. next here (Step.cancel 7 user 20 world)), tt));
  before_save = λ w. here;
  before_terminal = λ w. here;
}

execute_evaluation_run-Reach_example :
    Reach world (execute_evaluation_run 7 environment world).world
execute_evaluation_run-Reach_example =
    execute_evaluation_run-Reach 7 environment environment-IsShared world refl

-- the second judgment is of a trace that is not stored
abbrev judgments : List (JudgmentData ℕ)
judgments =
    record {
      scenario_id = 1;
      trace_key = some "key";
      score = 90;
      overall_score = none;
      reasoning = "";
      passed = true;
    }
    ∷ record {
      scenario_id = 2;
      trace_key = some "other";
      score = 10;
      overall_score = none;
      reasoning = "";
      passed = false;
    }
    ∷ []

-- the end of a graph run with one scenario and one trace
abbrev final : EvaluationState ℕ
final = record (initial_state (run_of 7 RunStatus.running) agent) {
  scenarios =
      record {
        id = 1;
        title = some "a title";
        description = none;
        expected_outcome = none;
        expected_behavior = none;
        category = none;
        input_payload = none;
      }
      ∷ [];
  traces =
      record {
        trace_id = 3;
        scenario_id = 1;
        storage_key = some "key";
        turn_count = some 2;
        error_message = none;
      }
      ∷ [];
  judgments = judgments;
}

abbrev saved : World ℕ
unfolding persist_final_state
saved = elim (persist_final_state (λ n. n) 90 7 final world) [ ok w ↦ w | raised e ↦ world ]

saved_7 : persist_final_state (λ n. n) 90 7 final world ≡ ok saved
unfolding persist_final_state saved
saved_7 = refl

persist_final_state-IsSummary_example :
    (rows : List (Judgment ℕ)) × (row : EvaluationRun ℕ) × (saved.judgments
      ≡ world.judgments ++ rows)
    × (find? (has_id 7) saved.runs ≡ some row)
    × IsSummary rows (run_of 7 RunStatus.pending) row
persist_final_state-IsSummary_example =
    persist_final_state-IsSummary (λ n. n) 90 7 final world saved (run_of 7 RunStatus.pending)
      saved_7 refl
