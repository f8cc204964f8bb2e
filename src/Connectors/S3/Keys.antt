-- ===== src/Connectors/S3/Keys.antt =====
-- The keys of traces: `upload_trace` of src/backend/connectors/s3.py.
use Prim.Native.String.{◌++◌ as str_append}
use text.Mathlib.TextLemmas.{
  append_assoc, append_cancel_left, append_cancel_right, nil-append, cons-append,
}
use crucible.Base.{
  ℕ, ◌≡◌, sym, ap, ◌∙◌, slash, has_slash, slash_inj, String, false, List, if◌then◌else◌,
  str_eq_refl, str_eq_false,
}
use crucible.Db.Run.{Exn}
use crucible.Worker.Result.{ok}
use crucible.Connectors.S3.{Object, prefix_of, key_of, upload_trace, download_trace}
use crucible.Connectors.S3.Traces.{download_trace-upload_trace}

-- the text of a UUID has no slash, and no two UUIDs have one text
pub record IsUuidText (str : ℕ → String) : Type 0 where
  pub no_slash : (i : ℕ) → has_slash (str i) ≡ false
  pub injective : (i j : ℕ) → str i ≡ str j → i ≡ j

module _ (str : ℕ → String) where
  pub flatten :
      (tenant_id run_id : ℕ) (z : String)
      → str_append (prefix_of str tenant_id run_id) z
        ≡ str_append "tenants/" (
            str_append (str tenant_id) (
              String.◌∷◌ slash (str_append "runs/" (str_append (str run_id) (String.◌∷◌ slash z)))))
  flatten tenant_id run_id z =
      let t = str tenant_id in
      let r = str run_id in
      let inner = str_append "/runs/" (str_append r "/") in
      let last = cons-append slash "" z ∙ ap (String.◌∷◌ slash) (nil-append z) in
      append_assoc "tenants/" (str_append t inner) z
      ∙ ap (str_append "tenants/") (
          append_assoc t inner z
          ∙ ap (str_append t) (
              append_assoc "/runs/" (str_append r "/") z
              ∙ ap (str_append "/runs/") (append_assoc r "/" z ∙ ap (str_append r) last)
              ∙ cons-append slash "runs/" (str_append r (String.◌∷◌ slash z))))

  -- two traces with one key are one trace of one run of one tenant
  module _ (uuid : IsUuidText str) where
    key_of_inj :
        (tenant_id run_id trace_id tenant_id' run_id' trace_id' : ℕ)
        → key_of str tenant_id run_id trace_id ≡ key_of str tenant_id' run_id' trace_id'
        → (tenant_id ≡ tenant_id') × (run_id ≡ run_id') × (trace_id ≡ trace_id')
    key_of_inj tenant_id run_id trace_id tenant_id' run_id' trace_id' h =
        let file = str_append (str trace_id) ".json" in
        let file' = str_append (str trace_id') ".json" in
        let flat = sym (flatten tenant_id run_id file) ∙ h ∙ flatten tenant_id' run_id' file' in
        let tenants =
          slash_inj (str tenant_id) (str tenant_id') _ _ (uuid.no_slash tenant_id)
            (uuid.no_slash tenant_id') (append_cancel_left "tenants/" _ _ flat) in
        let runs =
          slash_inj (str run_id) (str run_id') file file' (uuid.no_slash run_id)
            (uuid.no_slash run_id') (append_cancel_left "runs/" _ _ tenants.1) in
        (
          uuid.injective tenant_id tenant_id' tenants.0,
          uuid.injective run_id run_id' runs.0,
          uuid.injective trace_id trace_id' (append_cancel_right _ _ ".json" runs.1),
        )

    module _ (missing : Exn) (tenant_id run_id trace_id tenant_id' run_id' trace_id' : ℕ)
        (payload payload' : String) (bucket : List Object) where
      -- If the texts of UUIDs are distinct and without a slash, then of two traces that differ in
      -- their tenant, their run or their own identifier, uploaded one after the other, a download of
      -- each returned storage key gives the trace that was uploaded under it.
      pub download_trace-upload_trace_twice :
          ((tenant_id ≡ tenant_id') × (run_id ≡ run_id') × (trace_id ≡ trace_id') → ⊥)
          → let (key, once) = upload_trace str tenant_id run_id trace_id payload bucket in
            let (key', twice) = upload_trace str tenant_id' run_id' trace_id' payload' once in
            (download_trace missing key twice ≡ ok payload)
            × (download_trace missing key' twice ≡ ok payload')
      unfolding upload_trace
      download_trace-upload_trace_twice differ =
          let key = key_of str tenant_id run_id trace_id in
          let key' = key_of str tenant_id' run_id' trace_id' in
          let once = (upload_trace str tenant_id run_id trace_id payload bucket).1 in
          let second =
            download_trace-upload_trace str missing tenant_id' run_id' trace_id' payload' once in
          let first =
            download_trace-upload_trace str missing tenant_id run_id trace_id payload bucket in
          let apart =
            str_eq_false key key'
              (λ e. differ (key_of_inj tenant_id run_id trace_id tenant_id' run_id' trace_id' e)) in
          (
            second key
                ∙ ap (λ b. if b then ok payload' else download_trace missing key once) apart
                ∙ first key
                ∙ ap (λ b. if b then ok payload else download_trace missing key bucket)
                    (str_eq_refl key),
            second key'
                ∙ ap (λ b. if b then ok payload' else download_trace missing key' once)
                    (str_eq_refl key'),
          )
