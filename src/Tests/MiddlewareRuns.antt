-- ===== src/Tests/MiddlewareRuns.antt =====
-- A login behind a proxy, whose handler raises, with a Redis that answers and one that does not.
use crucible.Base.{ℕ, ◌≡◌, refl, false, true, suc, none, some, String, Bool}
use crucible.Core.RateLimit.Client.{Request}
use crucible.Core.RateLimit.Middleware.{
  Redis, refused, Handled, raises, plain_of, State, dispatch_request,
}
use crucible.Core.RateLimit.Runs.{ran, all_answer, dispatch_request_open}

-- a handler that counts its calls
abbrev call_next : ℕ → Handled ℕ × ℕ
call_next n = (raises, suc n)

abbrev login : Request
login = record { path = "/api/v1/auth/login"; forwarded = some "10.0.0.1, 10.0.0.2"; host = none }

abbrev is_login : String → String → Bool
is_login path part = true

abbrev is_space : ℕ → Bool
is_space c = false

abbrev fresh : State ℕ
fresh = record { counters = λ t ip. none; app = 0 }

abbrev down : Redis
down = record all_answer { on_ttl = refused }

dispatch_request_open_example :
    ran call_next (dispatch_request call_next is_login is_space login down 100 fresh)
    ≡ (plain_of {R = ℕ} raises, 1)
dispatch_request_open_example =
    dispatch_request_open call_next is_login is_space login down 100 fresh refl
