-- ===== src/Connectors/Target/Failures.antt =====
-- What failures of the target do to the breaker of src/backend/connectors/target_agent.py.
use crucible.Base.{
  suc, ◌+◌, ◌<◌, ◌≡◌, ◌∙◌, refl, ap, String, Bool, true, false, List, [], ◌∷◌, Option, none, arith,
  length, length-map, map, All, ltb, leb, if◌then◌else◌,
}
use crucible.Core.Redis.{Counter, alive}
use crucible.Core.Breaker.{up, is_open, record_failure, fail_all}
use crucible.Core.Breaker.Opens.{is_open-count}
use crucible.Connectors.Target.{
  Call, Interaction, returned, raised_circuit_open, raised_http_status, raised_request,
  raised_other, send_closed, send_interaction, send_all,
}

-- the target did not answer, or with a status of 500 and more
abbrev pub is_failure : Interaction → Bool
is_failure (returned _) = false
is_failure raised_circuit_open = false
is_failure (raised_http_status code) = leb 500 code
is_failure (raised_request _) = true
is_failure (raised_other _) = false

module _ (app_env : String) where
  -- each call, after the calls before it, fails and notes that
  abbrev pub AllFail : List Call → Option Counter → Type 0
  AllFail [] key = Unit
  AllFail (call ∷ calls) key =
      (call.at_note ≡ up)
      × (is_failure (send_interaction app_env call key).interaction ≡ true)
      × AllFail calls (send_interaction app_env call key).key

  send_closed_fails :
      (call : Call) (key : Option Counter)
      → is_failure (send_closed app_env call key).interaction ≡ true
      → (send_closed app_env call key).key ≡ record_failure call.at_note call.noted_at key
  unfolding send_closed
  send_closed_fails call key h = ground arith

  send_interaction_fails :
      (call : Call) (key : Option Counter)
      → call.at_note ≡ up
      → is_failure (send_interaction app_env call key).interaction ≡ true
      → (send_interaction app_env call key).key ≡ record_failure up call.noted_at key
  unfolding send_interaction
  send_interaction_fails call key e h = ground (arith, send_closed_fails call key)

  send_all-eq-fail_all :
      (calls : List Call) (key : Option Counter)
      → AllFail calls key
      → send_all app_env calls key ≡ fail_all (map (λ c. c.noted_at) calls) key
  unfolding send_all fail_all
  send_all-eq-fail_all [] key h = refl
  send_all-eq-fail_all (call ∷ calls) key (up_then, fails, rest) =
      send_all-eq-fail_all calls _ rest
      ∙ ap (fail_all (map (λ c. c.noted_at) calls)) (send_interaction_fails call key up_then fails)

  -- Four calls in a row, of any workers, to which the target gave no answer or a status of 500 and
  -- more, where no counter of failures is alive when the first is noted and the later three are noted
  -- within 60 seconds of it: until these 60 seconds are over, a worker that can ask Redis does not
  -- connect and raises, and afterwards calls go through again.
  pub send_interaction-send_all :
      (first : Call) (calls : List Call) (next : Call) (key : Option Counter)
      → alive first.noted_at key ≡ none
      → AllFail (first ∷ calls) key
      → All (λ t. t < first.noted_at + 60) (map (λ c. c.noted_at) calls)
      → length calls ≡ 3
      → next.at_check ≡ up
      → let key' = send_all app_env (first ∷ calls) key in
        send_interaction app_env next key' ≡ (
          if ltb next.checked_at (first.noted_at + 60)
          then record { dialed = []; interaction = raised_circuit_open; key = key' }
          else send_closed app_env next key')
  unfolding send_interaction
  send_interaction-send_all first calls next key gone fails soon four can_ask =
      let times = map (λ c. c.noted_at) calls in
      let start = first.noted_at in
      let now = next.checked_at in
      let counted : is_open 4 up now (send_all app_env (first ∷ calls) key)
          ≡ (if ltb now (start + 60) then leb 4 (suc (length times)) else false) =
        ap (is_open 4 up now) (send_all-eq-fail_all (first ∷ calls) key fails)
        ∙ is_open-count 4 start now times key gone soon in
      let three : length times ≡ 3 = length-map (λ c. c.noted_at) calls ∙ four in
      ground (arith, counted, three)
