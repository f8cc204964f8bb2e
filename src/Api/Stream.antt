-- ===== src/Api/Stream.antt =====
-- src/backend/api/routes/evaluation.py: `get_stream_ticket` and `stream_evaluation_run`, on the keys
-- `ticket:…` of Redis. A ticket is the number that `uuid4` gave.
pub mod Tickets
use crucible.Base.{
  ℕ, ◌+◌, String, Bool, List, [], ◌∷◌, ◌++◌, Option, none, some, ◌==◌, ltb, ◌&&◌, find?,
  if◌then◌else◌,
}
use crucible.Db.Table.{delete}
use crucible.Db.Models.{World, User}
use crucible.Api.Http.{Response, ok, http_exception, run_not_found, invalid_ticket}
use crucible.Api.Evaluation.{is_owned}

pub record Ticket : Type 0 where
  pub ticket : ℕ
  pub run_id : ℕ
  pub expires_at : ℕ

abbrev pub has_ticket : ℕ → Ticket → Bool
has_ticket ticket t = t.ticket == ticket

-- `redis.get(ticket_key)`
abbrev pub stored : (now ticket : ℕ) → List Ticket → Option Ticket
stored now ticket = find? (λ t. has_ticket ticket t && ltb now t.expires_at)

-- `setex` replaces a key and its expiry
abbrev pub setex : (now seconds ticket run_id : ℕ) → List Ticket → List Ticket
setex now seconds ticket run_id tickets =
    record { ticket = ticket; run_id = run_id; expires_at = now + seconds }
    ∷ delete (has_ticket ticket) tickets

unfoldable pub get_stream_ticket :
    {F : Type 0}
    → (run_id : ℕ) → User
    → (new_ticket now : ℕ) → World F
    → List Ticket
    → Response ℕ × List Ticket
get_stream_ticket run_id current_user new_ticket now w tickets =
    elim (find? (is_owned run_id current_user) w.runs) [
      | none ↦ (http_exception 404 run_not_found, tickets)
      | some run ↦ (ok new_ticket, setex now 30 new_ticket run_id tickets)
    ]

-- the first step of `stream_evaluation_run`; the ticket is consumed
unfoldable pub authorize : (run_id ticket now : ℕ) → List Ticket → Response (Unit {0}) × List Ticket
authorize run_id ticket now tickets = elim (stored now ticket tickets) [
  | none ↦ (http_exception 401 invalid_ticket, tickets)
  | some t ↦
      if t.run_id == run_id
      then (ok tt, delete (has_ticket ticket) tickets)
      else (http_exception 401 invalid_ticket, tickets)
]

-- What `event_generator` yields: the missed events, which are read before the subscription, and the
-- messages of the channel from the subscription until the client leaves.
unfoldable pub event_generator : (last_seq : ℕ) → (missed live : List String) → List String
event_generator last_seq missed live = if ltb 0 last_seq then missed ++ live else live
