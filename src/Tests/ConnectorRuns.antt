-- ===== src/Tests/ConnectorRuns.antt =====
-- The clients of external services, the sweep and the clean-up on concrete data.
use text.Mathlib.Text.{◌==◌ as str_eq}
use text.Mathlib.TextEquality.{eq_iff}
use mathlib.Core.List.Memᴰ.{head, tail}
use crucible.Base.{
  ◌==◌, Option, ℕ, suc, ◌≡◌, ◌≢◌, refl, String, false, List, [], ◌∷◌, none, some, arith, any, All,
  ltb, if◌then◌else◌, inl,
}
use crucible.Db.Run.{external, RunStatus}
use crucible.Db.Models.{World}
use crucible.Worker.Result.{ok}
use crucible.Core.Redis.{alive}
use crucible.Core.Breaker.{up, is_open, record_failure}
use crucible.Connectors.Target.{
  Network, Call, Exchange, raised_circuit_open, send_closed, send_interaction, send_all,
}
use crucible.Connectors.Target.Dials.{IsPublic, send_interaction-IsPublic}
use crucible.Connectors.Target.Failures.{AllFail, send_interaction-send_all}
use crucible.Connectors.S3.{Object, key_of, upload_trace, download_trace}
use crucible.Worker.Beat.{sweep_zombie_runs}
use crucible.Worker.Beat.Swept.{IsAlive, sweep_zombie_runs-IsAlive}
use crucible.Worker.Cleanup.{cleanup_orphaned_traces}
use crucible.Worker.Cleanup.Orphans.{IsKept}
use crucible.Connectors.Llm.{Provider, Reply, rate_limit, other, estimate_tokens, generate}
use crucible.Connectors.Llm.Attempts.{Attempts, generated_of, generate-Attempts}
use crucible.Connectors.S3.Keys.{IsUuidText, download_trace-upload_trace_twice}
use crucible.Worker.Cleanup.Keeps.{cleanup_orphaned_traces-keeps}
use crucible.Lifecycle.Unique.{IdsUnique}
use crucible.Tests.Data.{nat_floats, world, run_of}
use crucible.Tests.Texts.{strokes, strokes_inj, strokes_no_slash}

-- the target resolves to a public address and does not answer
abbrev network : Network
network = record {
  getaddrinfo = λ n. some ("203.0.113.7" ∷ []);
  is_private = λ ip. false;
  is_loopback = λ ip. false;
  is_link_local = λ ip. false;
  str = λ ip. ip;
  exn = λ d. external "dial";
  is_pooled = λ n. false;
  post = λ n. Exchange.request_error (external "timeout");
  is_success = λ code. false;
}

abbrev call_at : ℕ → Call
call_at t = record {
  network = network;
  checked_at = t;
  noted_at = suc t;
  at_check = up;
  at_note = up;
}

production_ne : ◌≢◌ {A = String} "production" "development"
production_ne e =
    let same = (eq_iff "production" "development").1 e in absurd (ground (arith, same))

send_interaction-IsPublic_example :
    All (IsPublic network) (send_interaction "production" (call_at 100) none).dialed
send_interaction-IsPublic_example =
    send_interaction-IsPublic "production" (call_at 100) none production_ne

abbrev more_calls : List Call
more_calls = call_at 110 ∷ call_at 120 ∷ call_at 130 ∷ []

all_fail : AllFail "production" (call_at 100 ∷ more_calls) none
unfolding send_interaction is_open record_failure
all_fail = (refl, refl, (refl, refl, (refl, refl, (refl, refl, tt))))

send_interaction-send_all_example :
    let key = send_all "production" (call_at 100 ∷ more_calls) none in
    send_interaction "production" (call_at 140) key ≡ (
      if ltb 140 161
      then record { dialed = []; interaction = raised_circuit_open; key = key }
      else send_closed "production" (call_at 140) key)
unfolding alive
send_interaction-send_all_example =
    send_interaction-send_all "production" (call_at 100) more_calls (call_at 140) none refl all_fail
      (omega arith, (omega arith, (omega arith, tt))) refl refl

-- a model whose first answer is a rate limit, and then no answer is one
abbrev provider : Provider String ℕ
provider = record {
  Encoding = Unit {0};
  encoding_for_model = λ m. none;
  cl100k_base = tt;
  encode_length = λ e s. 1;
  max_tokens = λ m. none;
  acompletion = λ k. if k == 0 then Reply.raised rate_limit else Reply.raised (other "refused");
  aembedding = λ k. Reply.raised rate_limit;
  completion_cost = λ r. none;
  embedding_cost = λ v. none;
}

abbrev messages : List (List (String × Option String))
messages = (("role", some "user") ∷ []) ∷ []

generate-Attempts_example :
    Attempts
      (λ n. generated_of provider (provider.acompletion n))
      0
      2
      (generate provider "gpt-4o" messages none)
unfolding estimate_tokens
generate-Attempts_example = generate-Attempts provider "gpt-4o" messages none (omega arith)

sweep_zombie_runs-IsAlive_example : All (IsAlive 300 1000) (sweep_zombie_runs 300 1000 world).runs
sweep_zombie_runs-IsAlive_example = sweep_zombie_runs-IsAlive 300 1000 world

-- run 9 failed long ago and saved nothing
abbrev old_world : World ℕ
old_world = record world { runs = run_of 9 RunStatus.failed ∷ run_of 8 RunStatus.completed ∷ [] }

abbrev bucket : List Object
bucket =
    record { key = key_of strokes 1 9 4; body = "orphan" }
    ∷ record { key = key_of strokes 1 8 3; body = "{}" }
    ∷ []

abbrev one_page : List String → List (List String)
one_page keys = keys ∷ []

one_page_lists_all :
    (keys : List String) (k : String) → any (any (str_eq k)) (one_page keys) ≡ any (str_eq k) keys
one_page_lists_all keys k = ground arith

strokes-IsUuidText : IsUuidText strokes
strokes-IsUuidText = record { no_slash = strokes_no_slash; injective = strokes_inj }

download_trace-upload_trace_twice_example :
    let (key, once) = upload_trace strokes 1 7 3 "{}" [] in
    let (key', twice) = upload_trace strokes 1 7 4 "[]" once in
    (download_trace (external "NoSuchKey") key twice ≡ ok "{}")
    × (download_trace (external "NoSuchKey") key' twice ≡ ok "[]")
download_trace-upload_trace_twice_example =
    download_trace-upload_trace_twice strokes strokes-IsUuidText (external "NoSuchKey") 1 7 3 1 7 4
      "{}" "[]" [] three_or_four
  where
    three_or_four : {t r : ℕ} → (t ≡ t) × (r ≡ r) × ((let i : ℕ = 3 in i) ≡ 4) → ⊥
    three_or_four (_, _, e) = absurd (omega (arith, e))

old_world_IdsUnique : IdsUnique old_world.runs
old_world_IdsUnique i = ground arith

run_8_IsKept : IsKept 10000 (run_of 8 RunStatus.completed)
unfolding IsKept
run_8_IsKept = inl (λ e. cc, λ e. cc)

cleanup_orphaned_traces-keeps_example :
    download_trace
      (external "NoSuchKey")
      (key_of strokes 1 8 3)
      (cleanup_orphaned_traces strokes one_page (λ i. none) 10000 old_world bucket)
    ≡ download_trace (external "NoSuchKey") (key_of strokes 1 8 3) bucket
cleanup_orphaned_traces-keeps_example =
    cleanup_orphaned_traces-keeps strokes one_page one_page_lists_all (external "NoSuchKey")
      (λ i. none) strokes-IsUuidText 10000 old_world bucket (run_of 8 RunStatus.completed) 3
      old_world_IdsUnique (tail (head refl)) run_8_IsKept
