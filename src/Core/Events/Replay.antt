-- ===== src/Core/Events/Replay.antt =====
-- What a client that reconnects is given: src/backend/core/events.py.
use crucible.Base.{ℕ, suc, ◌+◌, ◌≤◌, ◌<◌, ◌≡◌, String, List, [], ◌∷◌}
use crucible.Worker.Execution.{EvaluationEvent}
use crucible.Core.Events.{Bus, Json, replay_buffer_ttl_seconds, up, publish_evaluation_event}

module _ {F : Type 0} where
  -- the events are published one after the other, each at its time
  abbrev pub publish_all : Json F → List (ℕ × EvaluationEvent F) → Bus → Bus
  publish_all json [] b = b
  publish_all json ((now, e) ∷ es) b =
      publish_all json es (publish_evaluation_event json up now e b)

  abbrev pub event_of : ℕ × EvaluationEvent F → EvaluationEvent F
  event_of p = p.1

  -- the numbers n + 1, n + 2, … in this order
  abbrev pub AreNumberedFrom : (n : ℕ) → List (ℕ × EvaluationEvent F) → Type 0
  AreNumberedFrom n [] = Unit
  AreNumberedFrom n (p ∷ ps) = (p.1.seq_num ≡ suc n) × AreNumberedFrom (suc n) ps

  -- published within the hour before `now`
  abbrev pub IsRecent : (now : ℕ) → ℕ × EvaluationEvent F → Type 0
  IsRecent now p = (p.0 ≤ now) × (now < p.0 + replay_buffer_ttl_seconds)

module _ {F : Type 0} (json : Json F) where
  abbrev pub message_of : ℕ × EvaluationEvent F → String
  message_of p = json.dump p.1
