-- ===== src/Core/RateLimit/Middleware.antt =====
-- src/backend/core/rate_limit.py: `dispatch` as a whole, with the exempt paths, with a Redis that
-- may fail at each command, and with the handler behind it.
use text.Mathlib.Text.{◌==◌ as str_eq}
use crucible.Base.{
  ℕ, ◌-◌, String, Bool, true, false, ◌&&◌, Option, none, some, ◌==◌, ltb, if◌then◌else◌,
}
use crucible.Core.Redis.{Counter, incr, expire, ttl}
use crucible.Core.RateLimit.{Tier, auth, default, max_requests, window_seconds, get_tier, reset_of}
use crucible.Core.RateLimit.Client.{Request, get_client_ip}

-- How one command of Redis goes: it answers, it fails before it is run, or its answer is lost.
pub data Reply : Type 0 where
  answers refused lost : Reply

abbrev pub runs : Reply → Bool
runs refused = false
runs _ = true

abbrev pub returns : Reply → Bool
returns answers = true
returns _ = false

-- How the client's creation and the commands of one request go.
pub record Redis : Type 0 where
  pub from_url : Bool
  pub on_incr : Reply
  pub on_expire : Reply
  pub on_ttl : Reply

-- what a call of the handler comes to
pub data Handled (R : Type 0) : Type 0 where
  responds : R → Handled R
  raises : Handled R

-- What the middleware hands on: its own 429, the handler's response with the three headers, the
-- handler's response as it is, or the handler's exception.
pub data Answer (R : Type 0) : Type 0 where
  too_many_requests : (retry_after : ℕ) → Answer R
  limited : (limit remaining reset : ℕ) → R → Answer R
  plain : R → Answer R
  handler_raises : Answer R

abbrev pub plain_of : {R : Type 0} → Handled R → Answer R
plain_of (responds r) = plain r
plain_of raises = handler_raises

-- the counter that a request leaves, and its count and remaining time where all commands answered
abbrev pub Counted : Type 0
Counted = Option Counter × Option (ℕ × ℕ)

module _ (redis : Redis) (now window : ℕ) where
  -- `await redis.ttl(key)`
  abbrev pub read_ttl : (current : ℕ) → Counter → Counted
  read_ttl current c = (some c, if returns redis.on_ttl then some (current, ttl now c) else none)

  -- from `if current == 1` on
  abbrev pub set_expiry : (current : ℕ) → Counter → Counted
  set_expiry current c =
      let c' = if runs redis.on_expire then expire now window c else c in
      if current == 1
      then if returns redis.on_expire then read_ttl current c' else (some c', none)
      else read_ttl current c

  -- the commands of the `try` block
  unfoldable pub count_request : Option Counter → Counted
  unfolding incr
  count_request key =
      let (current, c) = incr now key in
      if redis.from_url && runs redis.on_incr
      then if returns redis.on_incr then set_expiry current c else (some c, none)
      else (key, none)

-- the counters by tier and address, and what the handler works on
pub record State (S : Type 0) : Type 0 where
  pub counters : Tier → String → Option Counter
  pub app : S

abbrev pub same_tier : Tier → Tier → Bool
same_tier auth auth = true
same_tier default default = true
same_tier _ _ = false

module _ {S R : Type 0} (call_next : S → Handled R × S) where
  -- `return await call_next(request)`
  abbrev pub pass_on : State S → Answer R × State S
  pass_on s = let (h, app) = call_next s.app in (plain_of h, record s { app = app })

  -- from `if current > max_requests` on
  unfoldable pub admit : Tier → (current left : ℕ) → State S → Answer R × State S
  admit tier current left s =
      let reset = reset_of left (window_seconds tier) in
      let (h, app) = call_next s.app in
      if ltb (max_requests tier) current then (too_many_requests reset, s) else elim h [
        | responds r ↦ (
          limited (max_requests tier) (max_requests tier - current) reset r,
          record s { app = app },
        )
        | raises ↦ pass_on (record s { app = app })
      ]

  -- the request of one client, counted under its key
  unfoldable pub dispatch_limited : Tier → String → Redis → (now : ℕ) → State S → Answer R × State S
  unfolding count_request admit
  dispatch_limited tier client_ip redis now s =
      let (key, counted) =
        count_request redis now (window_seconds tier) (s.counters tier client_ip) in
      let s' = record s {
        counters = λ t ip. if same_tier t tier && str_eq ip client_ip then key else s.counters t ip;
      } in
      elim counted [ none ↦ pass_on s' | some (current, left) ↦ admit tier current left s' ]

  module _ (contains : String → String → Bool) (is_space : ℕ → Bool) where
    unfoldable pub dispatch_request : Request → Redis → (now : ℕ) → State S → Answer R × State S
    unfolding get_tier get_client_ip dispatch_limited
    dispatch_request request redis now s = elim (get_tier contains request.path) [
      | none ↦ pass_on s
      | some tier ↦ dispatch_limited tier (get_client_ip is_space request) redis now s
    ]
