-- ===== src/Connectors/S3.antt =====
-- src/backend/connectors/s3.py: `S3BlobStore`, on the objects of one bucket, and the prefix that
-- src/backend/worker/tasks.py and src/backend/worker/beat.py delete. `str` prints a UUID; a listing
-- comes in pages.
pub mod Traces
pub mod Keys
pub mod Client
use Prim.Native.String.{◌++◌ as str_append}
use text.Mathlib.Text.{◌==◌ as str_eq, starts_with}
use crucible.Base.{
  ℕ, String, Bool, List, [], ◌∷◌, ◌++◌, Option, none, some, map, any, find?, filter,
}
use crucible.Db.Table.{delete}
use crucible.Db.Run.{Exn}
use crucible.Worker.Result.{Result, ok, raised}

pub record Object : Type 0 where
  pub key : String
  pub body : String

-- an object with this key
abbrev pub is_at : String → Object → Bool
is_at key o = str_eq o.key key

module _ (str : ℕ → String) where
  -- f"tenants/{tenant_id}/runs/{run_id}/"
  abbrev pub prefix_of : (tenant_id run_id : ℕ) → String
  prefix_of tenant_id run_id =
      str_append "tenants/"
        (str_append (str tenant_id) (str_append "/runs/" (str_append (str run_id) "/")))

  -- f"tenants/{tenant_id}/runs/{run_id}/{trace_id}.json"
  abbrev pub key_of : (tenant_id run_id trace_id : ℕ) → String
  key_of tenant_id run_id trace_id =
      str_append (prefix_of tenant_id run_id) (str_append (str trace_id) ".json")

  -- `put_object` replaces the object
  unfoldable pub upload_trace :
      (tenant_id run_id trace_id : ℕ) (payload : String) → List Object → String × List Object
  upload_trace tenant_id run_id trace_id payload bucket =
      let key = key_of tenant_id run_id trace_id in
      (key, record { key = key; body = payload } ∷ delete (is_at key) bucket)

-- `get_object` raises where the key is missing
unfoldable pub download_trace : (missing : Exn) (storage_key : String) → List Object → Result String
download_trace missing storage_key bucket = elim (find? (is_at storage_key) bucket) [
  | none ↦ raised missing
  | some o ↦ ok o.body
]

-- `delete_objects`
abbrev pub delete_objects : (keys : List String) → List Object → List Object
delete_objects keys = delete (λ o. any (str_eq o.key) keys)

abbrev pub keys_with : (prefix : String) → List Object → List String
keys_with prefix bucket = map (λ o. o.key) (filter (λ o. starts_with o.key prefix) bucket)

-- the loop over the pages of `list_objects_v2`
unfoldable pub delete_pages : (pages : List (List String)) → List Object → List Object
delete_pages [] bucket = bucket
delete_pages (page ∷ pages) bucket = delete_pages pages (delete_objects page bucket)

-- `paginate` is how the service cuts a listing into pages
unfoldable pub delete_prefix :
    (paginate : List String → List (List String)) (prefix : String) → List Object → List Object
unfolding delete_pages
delete_prefix paginate prefix bucket = delete_pages (paginate (keys_with prefix bucket)) bucket
