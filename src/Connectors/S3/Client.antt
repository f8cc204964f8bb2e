-- ===== src/Connectors/S3/Client.antt =====
-- src/backend/connectors/s3.py: the client that `S3BlobStore` opens when it is first needed and closes at the
-- end, the creation of the bucket, and presigned URLs.
use text.Mathlib.Text.{◌==◌ as str_eq}
use crucible.Base.{
  ℕ, suc, ◌+◌, ◌≡◌, String, List, [], ◌∷◌, Option, none, some, arith, if◌then◌else◌,
}
use crucible.Db.Run.{Exn}
use crucible.Worker.Result.{Result, ok, raised}

-- `_client`, with the numbers of clients that were opened and closed so far
pub record Store : Type 0 where
  pub client : Option ℕ
  pub opened : ℕ
  pub closed : ℕ

-- `get_client`, where no other call comes in between; `fault` is what the creation raises
unfoldable pub get_client : (fault : Option Exn) → Store → Result ℕ × Store
get_client fault s = elim s.client [
  | some c ↦ (ok c, s)
  | none ↦ elim fault [
    | some e ↦ (raised e, s)
    | none ↦ (ok s.opened, record s { client = some s.opened; opened = suc s.opened })
  ]
]

unfoldable pub close : Store → Store
close s = elim s.client [ none ↦ s | some _ ↦ record s { client = none; closed = suc s.closed } ]

-- one use of the store: a method that needs the client, or the end
pub data Use : Type 0 where
  needs : (fault : Option Exn) → Use
  ends : Use

unfoldable pub use_all : List Use → Store → Store
unfolding get_client close
use_all [] s = s
use_all (needs fault ∷ us) s = use_all us (get_client fault s).1
use_all (ends ∷ us) s = use_all us (close s)

abbrev pub held : Option ℕ → ℕ
held none = 0
held (some _) = 1

-- every client that was opened is the current one or closed
abbrev pub IsTight : Store → Type 0
IsTight s = s.opened ≡ s.closed + held s.client

get_client-IsTight : (fault : Option Exn) (s : Store) → IsTight s → IsTight (get_client fault s).1
unfolding get_client
get_client-IsTight fault s h = ground (arith, h)

close-IsTight : (s : Store) → IsTight s → IsTight (close s)
unfolding close
close-IsTight s h = ground (arith, h)

use_all-IsTight : (us : List Use) (s : Store) → IsTight s → IsTight (use_all us s)
unfolding use_all
use_all-IsTight [] s h = h
use_all-IsTight (needs fault ∷ us) s h =
    use_all-IsTight us (get_client fault s).1 (get_client-IsTight fault s h)
use_all-IsTight (ends ∷ us) s h = use_all-IsTight us (close s) (close-IsTight s h)

-- However the store is used, one call after the other, a final `close` leaves no client open.
pub close-use_all :
    (us : List Use) (s : Store)
    → IsTight s
    → (let end = close (use_all us s) in end.opened ≡ end.closed)
unfolding close
close-use_all us s h = ground (arith, use_all-IsTight us s h)

-- What `head_bucket` and `create_bucket` do: the bucket is there, or it is created, or that raises.
pub record Bucket : Type 0 where
  pub head : Option Exn
  pub create : Option Exn

-- `CreateBucketConfiguration`, where the region is not the default
abbrev pub location_constraint : (region : String) → Option String
location_constraint region = if str_eq region "us-east-1" then none else some region

-- whether the bucket was created, and with which constraint
unfoldable pub initialize_bucket : (region : String) → Bucket → Result (Option (Option String))
initialize_bucket region bucket = elim bucket.head [
  | none ↦ ok none
  | some _ ↦ elim bucket.create [
    | none ↦ ok (some (location_constraint region))
    | some e ↦ raised e
  ]
]
