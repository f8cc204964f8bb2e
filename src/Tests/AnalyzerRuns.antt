-- ===== src/Tests/AnalyzerRuns.antt =====
-- The analyzer and the replay of events on concrete data.
use crucible.Base.{ℕ, ◌≡◌, refl, true, List, [], ◌∷◌, none, some, ◌==◌, count, if◌then◌else◌}
use crucible.Db.Run.{EvaluationRun, RunStatus}
use crucible.Db.Models.{World}
use crucible.Worker.Execution.{EvaluationEvent, Label}
use crucible.Core.Events.{Bus, Json}
use crucible.Db.Order.{order_by}
use crucible.Connectors.VectorDb.{BaselineVector}
use crucible.Agents.Baseline.{resolve_baseline, embedding_model}
use crucible.Agents.Drift.{Numerics, compute_drift_math}
use crucible.Agents.Baseline.Resolution.{IsBaseline, resolve_baseline_sound}
use crucible.Agents.Drift.Overlap.{overlap_count_of, has_scenario, compute_drift_math-overlap}
use crucible.Tests.Data.{nat_floats, world, run_of}
use crucible.Tests.Texts.{strokes, stroke_count}

-- run 9 is pinned
abbrev pinned_world : World ℕ
pinned_world = record world {
  runs =
      record (run_of 9 RunStatus.completed) {
        is_baseline = true;
        embedding_model_version = some embedding_model;
      }
      ∷ run_of 8 RunStatus.running
      ∷ [];
}

resolve_baseline_sound_example : (r : EvaluationRun ℕ) × IsBaseline 1 5 8 pinned_world 9 r
unfolding resolve_baseline order_by
resolve_baseline_sound_example = resolve_baseline_sound 1 5 8 pinned_world 9 refl

abbrev numerics : Numerics ℕ
numerics = record { similarity = λ a b. 1; set_order = λ s. s; round_4 = λ x. x }

abbrev current : List (ℕ × List ℕ)
current = (1, 5 ∷ []) ∷ (2, 6 ∷ []) ∷ []

abbrev baseline : List (BaselineVector ℕ)
baseline = record { id = 7; vector = 5 ∷ []; scenario_id = 2 } ∷ []

compute_drift_math-overlap_example :
    overlap_count_of (compute_drift_math numerics current baseline) ≡ (
      if 1 == 0
      then none
      else some (count (λ (i : ℕ × List ℕ). has_scenario numerics baseline i.0) current))
compute_drift_math-overlap_example = compute_drift_math-overlap numerics current baseline

-- an event is written as its number
abbrev json : Json ℕ
json = record { dump = λ v. strokes v.seq_num; seq_num = λ s. some (stroke_count s) }

abbrev event : ℕ → EvaluationEvent ℕ
event n = record {
  seq_num = n;
  run_id = 7;
  status = RunStatus.running;
  current_node = Label.start;
  turn_count = 0;
  total_cost_usd = 0;
  passed_scenarios = 0;
  failed_scenarios = 0;
  error_message = none;
}

abbrev events : List (ℕ × EvaluationEvent ℕ)
events = (100, event 1) ∷ (101, event 2) ∷ (102, event 3) ∷ []

abbrev bus : Bus
bus = record { channel = []; replay = []; expires_at = 0 }
