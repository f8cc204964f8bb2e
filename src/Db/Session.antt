-- ===== src/Db/Session.antt =====
-- src/backend/db/session.py: `get_db`, around the handler of one request.
use crucible.Base.{◌≡◌, refl, Option, none, some, inl, inr}
use crucible.Db.Run.{Exn}
use crucible.Worker.Result.{Result, ok, raised, Result-cases}

-- what is stored, and what the session sees, with its own changes
pub record Session (W : Type 0) : Type 0 where
  pub stored : W
  pub seen : W

module _ {W : Type 0} where
  abbrev pub commit : (fault : Option Exn) → Session W → Result (Unit {0}) × Session W
  commit none s = (ok tt, record s { stored = s.seen })
  commit (some e) s = (raised e, s)

  abbrev pub rollback : Session W → Session W
  rollback s = record s { seen = s.stored }
  -- `fault` is what the commit behind the handler raises

module _ {W A : Type 0} where
  unfoldable pub get_db :
      (handler : Session W → Result A × Session W) → (fault : Option Exn) → W → Result A × Session W
  get_db handler fault w =
      let (result, s) = handler (record { stored = w; seen = w }) in
      let (committed, s') = commit fault s in
      elim result [
        | raised e ↦ (raised e, rollback s)
        | ok a ↦ elim committed [ raised e ↦ (raised e, rollback s') | ok _ ↦ (ok a, s') ]
      ]

  -- Behind a request nothing is left open: the session sees what is stored.
  get_db-seen :
      (handler : Session W → Result A × Session W) (fault : Option Exn) (w : W)
      → (let s = (get_db handler fault w).1 in s.seen ≡ s.stored)
  unfolding get_db
  get_db-seen handler fault w =
      let start : Session W = record { stored = w; seen = w } in
      elim (Result-cases (handler start).0) [
        | inr (e, raises) ↦ rw (raises, get_db) refl
        | inl (a, returns) ↦ committed fault a returns
      ]
    where
      committed :
          (f : Option Exn) (a : A)
          → (handler (record { stored = w; seen = w })).0 ≡ ok a
          → (let s = (get_db handler f w).1 in s.seen ≡ s.stored)
      committed none a e = rw (e, get_db) refl
      committed (some x) a e = rw (e, get_db) refl
