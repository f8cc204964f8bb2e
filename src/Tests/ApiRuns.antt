-- ===== src/Tests/ApiRuns.antt =====
-- The reading handlers and the sessions on concrete data.
use mathlib.Core.List.{Memᴰ}
use crucible.Db.Run.{RunStatus}
use crucible.Base.{ℕ, ◌*◌, ◌↔◌, ◌≡◌, true, [], some, arith}
use crucible.Api.Baseline.{list_evaluation_runs}
use crucible.Api.Isolation.{list_evaluation_runs_iff}
use crucible.Api.Auth.{Codec, refresh_token, logout}
use crucible.Api.Auth.Sessions.{Fails, refresh_token-logout}
use crucible.Tests.Data.{nat_floats, user, world, run_of}

list_evaluation_runs_iff_example :
    ((k : ℕ) × Memᴰ
        (run_of 8 RunStatus.completed)
        (list_evaluation_runs (λ rs. rs) user (k * 1) 1 world))
    ↔ (Memᴰ (run_of 8 RunStatus.completed) world.runs × (1 ≡ user.tenant_id))
list_evaluation_runs_iff_example =
    list_evaluation_runs_iff user world (λ rs. rs) (λ r. ((λ m. m), (λ m. m))) 1 (omega arith)
      (run_of 8 RunStatus.completed)

-- every token is a refresh token of user 2
abbrev codec : Codec
codec = record {
  decode = λ t. some (record { sub = some "two"; type = some "refresh" });
  uuid = λ s. some 2;
  str = λ n. "two";
  create_access_token = λ s. "access";
  create_refresh_token = λ s. "refresh";
  verify_password = λ p h. true;
  lower = λ s. s;
}

refresh_token-logout_example :
    Fails 401 (refresh_token codec 500 (logout 100 (some "cookie") []) (some "cookie"))
refresh_token-logout_example = refresh_token-logout codec 100 500 (some "cookie") [] (omega arith)
