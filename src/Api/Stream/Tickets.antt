-- ===== src/Api/Stream/Tickets.antt =====
-- What a stream ticket is good for: src/backend/api/routes/evaluation.py.
use crucible.Base.{
  ℕ, ◌+◌, ◌≡◌, refl, List, [], ◌∷◌, none, some, arith, ◌==◌, ==_refl, ltb, find?, if◌then◌else◌,
  Option-cases, inl, inr, Bool, Bool-cases, not, ◌&&◌,
}
use crucible.Db.Table.{delete}
use crucible.Db.Run.{EvaluationRun}
use crucible.Db.Models.{World, User}
use crucible.Api.Http.{ok, http_exception, invalid_ticket}
use crucible.Api.Auth.Sessions.{Fails}
use crucible.Api.Evaluation.{is_owned}
use crucible.Api.Stream.{Ticket, has_ticket, stored, setex, get_stream_ticket, authorize}

-- a deleted ticket is not found
stored-deleted :
    (now ticket : ℕ) (ts : List Ticket) → stored now ticket (delete (has_ticket ticket) ts) ≡ none
stored-deleted now ticket [] = refl
stored-deleted now ticket (t ∷ ts) = ground (arith, stored-deleted now ticket ts)

-- accepting a ticket consumes it
authorize-deletes :
    (run_id ticket now : ℕ) (ts : List Ticket)
    → (authorize run_id ticket now ts).0 ≡ ok tt
    → (authorize run_id ticket now ts).1 ≡ delete (has_ticket ticket) ts
unfolding authorize
authorize-deletes run_id ticket now ts h = elim (Option-cases (stored now ticket ts)) [
  | inl gone ↦ absurd (ground arith)
  | inr (t, e) ↦ ground arith
]

-- without a stored ticket there is no stream
authorize_missing :
    (run_id ticket now : ℕ) (ts : List Ticket)
    → stored now ticket ts ≡ none
    → (authorize run_id ticket now ts).0 ≡ http_exception 401 invalid_ticket
unfolding authorize
authorize_missing run_id ticket now ts e = rw (e, authorize) refl

-- A ticket opens one stream: after it was accepted, it is answered with status 401 at every time and
-- for every run.
pub authorize_once :
    (run_id ticket now run_id' later : ℕ) (ts : List Ticket)
    → (authorize run_id ticket now ts).0 ≡ ok tt
    → Fails 401 (authorize run_id' ticket later (authorize run_id ticket now ts).1).0
authorize_once run_id ticket now run_id' later ts h =
    rw
      (
        authorize-deletes run_id ticket now ts h,
        authorize_missing run_id' ticket later (delete (has_ticket ticket) ts)
            (stored-deleted later ticket ts),
      )
      refl

module _ {F : Type 0} (run_id : ℕ) (user : User) (ticket now : ℕ) (w : World F)
    (ts : List Ticket) where
  issued :
      {run : EvaluationRun F}
      → find? (is_owned run_id user) w.runs ≡ some run
      → get_stream_ticket run_id user ticket now w ts ≡ (ok ticket, setex now 30 ticket run_id ts)
  unfolding get_stream_ticket
  issued e = rw (e, get_stream_ticket) refl

  -- whether the ticket opens the stream of a run at a time
  abbrev opens : (later other : ℕ) → Bool
  opens later other = ltb later (now + 30) && run_id == other

  authorize_issued :
      (later other : ℕ)
      → authorize other ticket later (setex now 30 ticket run_id ts) ≡ (
          if opens later other
          then (ok tt, delete (has_ticket ticket) (setex now 30 ticket run_id ts))
          else (http_exception 401 invalid_ticket, setex now 30 ticket run_id ts))
  unfolding authorize
  authorize_issued later other = elim (Bool-cases (ltb later (now + 30))) [
    | inl fresh ↦ rw (authorize, ==_refl ticket, fresh) (ground arith)
    | inr expired ↦ rw (authorize, ==_refl ticket, expired, stored-deleted later ticket ts) refl
  ]

  authorize_again :
      (later other again run' : ℕ)
      → (authorize run' ticket again
          (authorize other ticket later (setex now 30 ticket run_id ts)).1).0
        ≡ (if not (opens later other) && opens again run'
            then ok tt
            else http_exception 401 invalid_ticket)
  authorize_again later other again run' = elim (Bool-cases (opens later other)) [
    | inl opened ↦
        rw (authorize_issued later other, opened)
          (authorize_missing run' ticket again _
            (stored-deleted again ticket (setex now 30 ticket run_id ts)))
    | inr closed ↦
        rw (authorize_issued later other, closed, authorize_issued again run') (ground arith)
  ]

  -- A user whose tenant owns the run is given a ticket that opens the stream of this run at any time
  -- before 30 seconds have passed; at a later time, or for another run, it is answered with status 401.
  -- Presented again, after the first request was answered, it is answered in the same way if the first
  -- request did not open the stream, and with status 401 if it did.
  pub get_stream_ticket-authorize :
      (run : EvaluationRun F)
      → find? (is_owned run_id user) w.runs ≡ some run
      → (later other again run' : ℕ)
      → let (r, ts') = get_stream_ticket run_id user ticket now w ts in
        let first = ltb later (now + 30) && run_id == other in
        let second = ltb again (now + 30) && run_id == run' in
        let refusal = http_exception 401 invalid_ticket in
        (r ≡ ok ticket)
        × ((authorize other ticket later ts').0 ≡ (if first then ok tt else refusal))
        × ((authorize run' ticket again (authorize other ticket later ts').1).0
            ≡ (if not first && second then ok tt else refusal))
  get_stream_ticket-authorize run e later other again run' =
      rw (issued e) (refl, answer, authorize_again later other again run')
    where
      answer :
          (authorize other ticket later (setex now 30 ticket run_id ts)).0
          ≡ (if opens later other then ok tt else http_exception 401 invalid_ticket)
      answer = rw (authorize_issued later other) (ground arith)
