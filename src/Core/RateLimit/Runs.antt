-- ===== src/Core/RateLimit/Runs.antt =====
-- src/backend/core/rate_limit.py: how often `dispatch` runs the handler, and whose counters it moves.
use text.Mathlib.Text.{◌==◌ as str_eq}
use crucible.Base.{
  str_eq_refl, ℕ, ◌-◌, ◌≡◌, ◌⊎◌, ◌∙◌, ap, refl, String, Bool, true, false, ◌&&◌, Option, none, some,
  ltb, if◌then◌else◌, Bool-cases, Option-cases, inl, inr, arith,
}
use crucible.Core.Redis.{Counter, incr, ttl}
use crucible.Core.RateLimit.{
  Tier, auth, default, Verdict, passed, max_requests, window_seconds, get_tier, reset_of, dispatch,
}
use crucible.Core.RateLimit.Client.{Request, get_client_ip}
use crucible.Core.RateLimit.Middleware.{
  Redis, answers, returns, Handled, responds, raises, Answer, plain, handler_raises,
  too_many_requests, limited, plain_of, count_request, State, same_tier, admit, dispatch_limited,
  dispatch_request,
}

-- every command that a request needs in any case is answered
abbrev pub is_up : Redis → Bool
is_up redis = redis.from_url && returns redis.on_incr && returns redis.on_ttl

count_request_down :
    (redis : Redis) (now window : ℕ) (key : Option Counter)
    → is_up redis ≡ false
    → (count_request redis now window key).1 ≡ none
unfolding count_request
count_request_down redis now window key down = ground (arith, down)

Handled-cases : {R : Type 0} (h : Handled R) → ((r : R) × (h ≡ responds r)) ⊎ (h ≡ raises)
Handled-cases (responds r) = inl (r, refl)
Handled-cases raises = inr refl

-- no command fails
abbrev pub all_answer : Redis
all_answer = record { from_url = true; on_incr = answers; on_expire = answers; on_ttl = answers }

count_request_up :
    (tier : Tier) (now : ℕ) (key : Option Counter)
    → (let c = (dispatch tier now key).1 in
        count_request all_answer now (window_seconds tier) key
        ≡ (some c, some ((incr now key).0, ttl now c)))
unfolding count_request dispatch
count_request_up tier now key = ground arith

-- an answer with status 429
abbrev pub is_refused : {R : Type 0} → Answer R → Bool
is_refused (too_many_requests _) = true
is_refused (limited _ _ _ _) = false
is_refused (plain _) = false
is_refused handler_raises = false

module _ {S R : Type 0} (call_next : S → Handled R × S) where
  -- How often the handler ran, on the state `app`: not at all where the answer is 429, and else once,
  -- or twice where it raised.
  pub data Ran (app : S) : Answer R × S → Type 0 where
    not_run : (n : ℕ) → Ran app (too_many_requests n, app)
    run_once : (a : Answer R) → is_refused a ≡ false → Ran app (a, (call_next app).1)
    run_twice :
        (call_next app).0 ≡ raises
        → Ran app (plain_of (call_next (call_next app).1).0, (call_next (call_next app).1).1)

  abbrev pub ran : Answer R × State S → Answer R × S
  ran (a, s) = (a, s.app)

  -- Where Redis fails, a request is passed on unchanged: its answer is the handler's, without the headers.
  pub dispatch_request_open :
      (contains : String → String → Bool) (is_space : ℕ → Bool) (request : Request) (redis : Redis)
      (now : ℕ) (s : State S)
      → is_up redis ≡ false
      → ran (dispatch_request call_next contains is_space request redis now s)
        ≡ (plain_of (call_next s.app).0, (call_next s.app).1)
  unfolding dispatch_request dispatch_limited
  dispatch_request_open contains is_space request redis now s down =
      elim (Option-cases (get_tier contains request.path)) [
        | inl exempt ↦ rw (exempt, dispatch_request) refl
        | inr (tier, e) ↦
            rw
              (
                e,
                dispatch_request,
                count_request_down redis now (window_seconds tier)
                    (s.counters tier (get_client_ip is_space request)) down,
                dispatch_limited,
              )
              refl
      ]

  admit-counters :
      (tier : Tier) (current left : ℕ) (s : State S)
      → (admit call_next tier current left s).1.counters ≡ s.counters
  unfolding admit
  admit-counters tier current left s = elim (Bool-cases (ltb (max_requests tier) current)) [
    | inl over ↦ rw over refl
    | inr within ↦ elim (Handled-cases (call_next s.app).0) [
      | inl (r, e) ↦ rw (within, e) refl
      | inr e ↦ rw (within, e) refl
    ]
  ]

  -- A request leaves the counters of every other client, and of every other tier, as they are.
  pub dispatch_request-counters :
      (contains : String → String → Bool) (is_space : ℕ → Bool) (request : Request) (redis : Redis)
      (now : ℕ) (s : State S) (t tier : Tier) (ip : String)
      → get_tier contains request.path ≡ some tier
      → (same_tier t tier && str_eq ip (get_client_ip is_space request)) ≡ false
      → (dispatch_request call_next contains is_space request redis now s).1.counters t ip
        ≡ s.counters t ip
  unfolding dispatch_request dispatch_limited
  dispatch_request-counters contains is_space request redis now s t tier ip e other =
      elim (Option-cases
        (count_request redis now (window_seconds tier)
          (s.counters tier (get_client_ip is_space request))).1) [
            | inl none_counted ↦
                rw (e, dispatch_request) (rw (none_counted, dispatch_limited) (rw other refl))
            | inr ((current, left), q) ↦
                rw (e, dispatch_request)
                  (rw (q, dispatch_limited)
                    (rw (admit-counters tier current left _) (rw other refl)))
          ]

  -- the handler's response behind the verdict
  abbrev pub finish : Tier → Verdict → R → Answer R
  finish tier (Verdict.too_many_requests n) r = too_many_requests n
  finish tier (passed remaining reset) r = limited (max_requests tier) remaining reset r

  same_tier_refl : (t : Tier) → same_tier t t ≡ true
  same_tier_refl auth = refl
  same_tier_refl default = refl

  admit-finish :
      (tier : Tier) (current left : ℕ) (s : State S) (r : R)
      → (call_next s.app).0 ≡ responds r
      → (let reset = reset_of left (window_seconds tier) in
          (admit call_next tier current left s).0
          ≡ finish tier
              (if ltb (max_requests tier) current
                then Verdict.too_many_requests reset
                else passed (max_requests tier - current) reset)
              r)
  unfolding admit
  admit-finish tier current left s r e = elim (Bool-cases (ltb (max_requests tier) current)) [
    | inl over ↦ rw over refl
    | inr within ↦ rw (within, e) refl
  ]

  -- Where Redis and the handler answer, the request of a client is answered by the verdict on the client's own counter.
  pub dispatch_limited-dispatch :
      (tier : Tier) (ip : String) (now : ℕ) (s : State S) (r : R)
      → (call_next s.app).0 ≡ responds r
      → (let end = dispatch_limited call_next tier ip all_answer now s in
          let (v, c) = dispatch tier now (s.counters tier ip) in
          (end.0 ≡ finish tier v r) × (end.1.counters tier ip ≡ some c))
  unfolding dispatch_limited dispatch
  dispatch_limited-dispatch tier ip now s r e =
      let key = s.counters tier ip in
      let up = count_request_up tier now key in
      let left = ttl now (dispatch tier now key).1 in
      let s' : State S = record s {
        counters = λ t i.
            if same_tier t tier && str_eq i ip
            then (count_request all_answer now (window_seconds tier) key).0
            else s.counters t i;
      } in
      let counted : s'.counters tier ip ≡ some (dispatch tier now key).1 =
        rw (same_tier_refl tier, str_eq_refl ip) (ap (λ c. c.0) up) in
      rw (ap (λ c. c.1) up, dispatch_limited)
        (
          admit-finish tier (incr now key).0 left s' r e,
          ap (λ k. k tier ip) (admit-counters tier (incr now key).0 left s') ∙ counted,
        )
