-- ===== src/Worker/Cleanup/Keeps.antt =====
-- Which traces a clean-up leaves alone.
use Prim.Native.String.{◌++◌ as str_append}
use text.Mathlib.Text.{starts_with, ◌==◌ as str_eq}
use text.Mathlib.TextEquality.{starts_with_iff}
use text.Mathlib.TextLemmas.{append_cancel_left}
use mathlib.Core.List.{Memᴰ}
use crucible.Base.{
  ℕ, suc, zero, ◌≡◌, ◌≢◌, refl, sym, ◌∙◌, slash_inj, String, Bool, true, false, List, [], ◌∷◌,
  Option, none, some, arith, any, take, All,
}
use crucible.Db.Run.{Exn, EvaluationRun}
use crucible.Db.Models.{World}
use crucible.Connectors.S3.{
  Object, prefix_of, key_of, keys_with, delete_pages, delete_prefix, download_trace,
}
use crucible.Connectors.S3.Keys.{IsUuidText, flatten}
use crucible.Connectors.S3.Traces.{find?-delete_pages, keys_with_sound}
use crucible.Lifecycle.Unique.{IdsUnique}
use crucible.Worker.Beat.{orphan_runs}
use crucible.Worker.Cleanup.Orphans.{IsKept, orphans_apart}
use crucible.Worker.Cleanup.{delete_s3_traces, clean_runs, cleanup_orphaned_traces}

module _ (str : ℕ → String) where
  module _ (uuid : IsUuidText str) where
    -- the key of a trace starts with the prefix of its own run only
    same_run :
        (tenant_id run_id tenant_id' run_id' trace_id : ℕ)
        → starts_with (key_of str tenant_id run_id trace_id) (prefix_of str tenant_id' run_id')
          ≡ true
        → run_id' ≡ run_id
    same_run tenant_id run_id tenant_id' run_id' trace_id h =
        let (rest, e) = (starts_with_iff _ _).0 h in
        let file = str_append (str trace_id) ".json" in
        let flat =
          sym (flatten str tenant_id' run_id' rest) ∙ e ∙ flatten str tenant_id run_id file in
        let tenants = append_cancel_left "tenants/" _ _ flat in
        let behind =
          slash_inj (str tenant_id') (str tenant_id) _ _ (uuid.no_slash tenant_id')
            (uuid.no_slash tenant_id) tenants in
        let runs = append_cancel_left "runs/" _ _ behind.1 in
        let same =
          slash_inj (str run_id') (str run_id) rest file (uuid.no_slash run_id')
            (uuid.no_slash run_id) runs in
        uuid.injective run_id' run_id same.0

not_true : (b : Bool) → b ≢ true → b ≡ false
not_true true h = absurd (h refl)
not_true false h = refl

-- some pages of a listing list no more than all of them
any-take :
    (k : String) (n : ℕ) (pages : List (List String))
    → any (any (str_eq k)) (take n pages) ≡ true
    → any (any (str_eq k)) pages ≡ true
any-take k zero pages h = absurd (ground arith)
any-take k (suc n) [] h = h
any-take k (suc n) (page ∷ pages) h = ground (arith, any-take k n pages)

other_prefix :
    {F : Type 0} (str : ℕ → String)
    → IsUuidText str
    → (r : EvaluationRun F) (trace_id : ℕ) (os : List (EvaluationRun F)) → All (λ o. o.id ≢ r.id) os
    → All
        (λ o.
          starts_with (key_of str r.tenant_id r.id trace_id) (prefix_of str o.tenant_id o.id)
          ≡ false)
        os
other_prefix str uuid r trace_id [] h = tt
other_prefix str uuid r trace_id (o ∷ os) (h, hs) = (
  not_true _ (λ e. h (same_run str uuid r.tenant_id r.id o.tenant_id o.id trace_id e)),
  other_prefix str uuid r trace_id os hs,
)

module _ (str : ℕ → String) (paginate : List String → List (List String))
    (lists_all : (keys : List String) (k : String)
      → any (any (str_eq k)) (paginate keys) ≡ any (str_eq k) keys)
    (missing : Exn) where
  some_pages-keep :
      (prefix k : String) (pages : List (List String)) (bucket : List Object)
      → starts_with k prefix ≡ false
      → (any (any (str_eq k)) pages ≡ true
          → any (any (str_eq k)) (paginate (keys_with prefix bucket)) ≡ true)
      → download_trace missing k (delete_pages pages bucket) ≡ download_trace missing k bucket
  unfolding download_trace
  some_pages-keep prefix k pages bucket h within =
      let left = find?-delete_pages pages k bucket in
      let listed = lists_all (keys_with prefix bucket) k in
      let sound = keys_with_sound prefix k bucket in ground (arith, left, listed, sound, within, h)

  -- A deletion of the traces of a run, whether it ends or raises, leaves every object whose key does
  -- not start with the prefix of the run.
  pub delete_s3_traces-keeps :
      (pages_done : Option ℕ) (run_id tenant_id : ℕ) (k : String) (bucket : List Object)
      → starts_with k (prefix_of str tenant_id run_id) ≡ false
      → download_trace missing k (delete_s3_traces str paginate pages_done run_id tenant_id bucket)
        ≡ download_trace missing k bucket
  unfolding delete_s3_traces delete_prefix
  delete_s3_traces-keeps none run_id tenant_id k bucket h =
      let prefix = prefix_of str tenant_id run_id in
      some_pages-keep prefix k (paginate (keys_with prefix bucket)) bucket h (λ x. x)
  delete_s3_traces-keeps (some n) run_id tenant_id k bucket h =
      let prefix = prefix_of str tenant_id run_id in
      let pages = paginate (keys_with prefix bucket) in
      some_pages-keep prefix k (take n pages) bucket h (any-take k n pages)

  module _ {F : Type 0} (pages_done : (run_id : ℕ) → Option ℕ) where
    clean_runs-keeps :
        (runs : List (EvaluationRun F)) (k : String) (bucket : List Object)
        → All (λ o. starts_with k (prefix_of str o.tenant_id o.id) ≡ false) runs
        → download_trace missing k (clean_runs str paginate pages_done runs bucket)
          ≡ download_trace missing k bucket
    unfolding clean_runs
    clean_runs-keeps [] k bucket h = refl
    clean_runs-keeps (o ∷ runs) k bucket (h, hs) =
        clean_runs-keeps runs k
          (delete_s3_traces str paginate (pages_done o.id) o.id o.tenant_id bucket) hs
        ∙ delete_s3_traces-keeps (pages_done o.id) o.id o.tenant_id k bucket h

    -- In a table with unique keys, the clean-up leaves the traces of every run that did not fail and
    -- was not cancelled, that has a counted judgment, or that changed less than an hour ago, also
    -- where its deletions raise, if the texts of UUIDs are distinct and without a slash and the pages
    -- of a listing hold the listed keys.
    pub cleanup_orphaned_traces-keeps :
        IsUuidText str
        → (now : ℕ) (w : World F) (bucket : List Object) (r : EvaluationRun F) (trace_id : ℕ)
        → IdsUnique w.runs
        → Memᴰ r w.runs
        → IsKept now r
        → let key = key_of str r.tenant_id r.id trace_id in
          download_trace missing key (cleanup_orphaned_traces str paginate pages_done now w bucket)
          ≡ download_trace missing key bucket
    unfolding cleanup_orphaned_traces
    cleanup_orphaned_traces-keeps uuid now w bucket r trace_id unique row kept =
        clean_runs-keeps (orphan_runs now w) (key_of str r.tenant_id r.id trace_id) bucket (
          other_prefix str uuid r trace_id (orphan_runs now w)
            (orphans_apart now w r unique row kept))
