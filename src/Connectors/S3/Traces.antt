-- ===== src/Connectors/S3/Traces.antt =====
-- What the store keeps and what a deletion leaves: src/backend/connectors/s3.py.
use text.Mathlib.Text.{◌==◌ as str_eq, starts_with}
use crucible.Base.{
  ℕ, ◌≡◌, ◌≢◌, refl, String, true, false, List, [], ◌∷◌, none, arith, any, find?, sym, ap, ◌∙◌,
  Bool-cases, inl, inr, str_eq_refl, str_eq_sound, str_eq_false, if◌then◌else◌,
}
use crucible.Db.Table.{delete}
use crucible.Db.Run.{Exn}
use crucible.Worker.Result.{ok, raised}
use crucible.Connectors.S3.{
  Object, is_at, key_of, upload_trace, download_trace, delete_objects, keys_with, delete_pages,
  delete_prefix,
}

-- an object under another key is not touched by a deletion
find?-delete :
    (key other : String) (os : List Object)
    → other ≢ key
    → find? (is_at other) (delete (is_at key) os) ≡ find? (is_at other) os
find?-delete key other [] h = refl
find?-delete key other (o ∷ os) h = elim (Bool-cases (is_at key o)) [
  | inl hit ↦
      let miss : is_at other o ≡ false =
        str_eq_false o.key other (λ e. h (sym e ∙ str_eq_sound o.key key hit)) in
      rw (hit, miss) (find?-delete key other os h)
  | inr miss ↦ elim (Bool-cases (is_at other o)) [
    | inl found ↦ rw (miss, found) refl
    | inr gone ↦ rw (miss, gone) (find?-delete key other os h)
  ]
]

module _ (str : ℕ → String) (missing : Exn) (tenant_id run_id trace_id : ℕ) (payload : String)
    (bucket : List Object) where
  -- After an upload, a download of its storage key gives the trace, and a download of another key
  -- gives what it gave before.
  pub download_trace-upload_trace :
      (k : String)
      → let (key, bucket') = upload_trace str tenant_id run_id trace_id payload bucket in
        download_trace missing k bucket'
        ≡ (if str_eq k key then ok payload else download_trace missing k bucket)
  unfolding upload_trace download_trace
  download_trace-upload_trace k =
      let key = key_of str tenant_id run_id trace_id in
      elim (Bool-cases (str_eq k key)) [
        | inl same ↦
            let hit : str_eq key k ≡ true =
              ap (str_eq key) (str_eq_sound k key same) ∙ str_eq_refl key in
            rw (download_trace, same, hit) refl
        | inr other ↦
            let apart : k ≢ key = λ e.
              let hit = ap (str_eq k) (sym e) ∙ str_eq_refl k in
              absurd (ground (arith, other, hit)) in
            rw
              (
                download_trace,
                other,
                str_eq_false key k (λ e. apart (sym e)),
                find?-delete key k bucket apart,
              )
              refl
      ]

-- a deletion of several objects, seen from one key
find?-delete_objects :
    (keys : List String) (k : String) (os : List Object)
    → find? (is_at k) (delete_objects keys os)
      ≡ (if any (str_eq k) keys then none else find? (is_at k) os)
find?-delete_objects keys k [] = ground arith
find?-delete_objects keys k (o ∷ os) =
    let later = find?-delete_objects keys k os in
    elim (Bool-cases (is_at k o)) [
      | inl hit ↦
          let named = ap (λ x. any (str_eq x) keys) (str_eq_sound o.key k hit) in
          ground (arith, named, later)
      | inr miss ↦ ground (arith, later)
    ]

pub find?-delete_pages :
    (pages : List (List String)) (k : String) (os : List Object)
    → find? (is_at k) (delete_pages pages os)
      ≡ (if any (any (str_eq k)) pages then none else find? (is_at k) os)
unfolding delete_pages
find?-delete_pages [] k os = refl
find?-delete_pages (page ∷ pages) k os =
    ground
      (arith, find?-delete_pages pages k (delete_objects page os), find?-delete_objects page k os)

pub keys_with_sound :
    (prefix k : String) (os : List Object)
    → any (str_eq k) (keys_with prefix os) ≡ true
    → starts_with k prefix ≡ true
keys_with_sound prefix k [] h = ground arith
keys_with_sound prefix k (o ∷ os) h = elim (Bool-cases (starts_with o.key prefix)) [
  | inl listed ↦ elim (Bool-cases (str_eq k o.key)) [
    | inl same ↦ rw (str_eq_sound k o.key same) listed
    | inr other ↦ keys_with_sound prefix k os (ground (arith, h, listed, other))
  ]
  | inr unlisted ↦ keys_with_sound prefix k os (ground (arith, h, unlisted))
]

keys_with_complete :
    (prefix k : String) (os : List Object)
    → any (str_eq k) (keys_with prefix os) ≡ false
    → starts_with k prefix ≡ true
    → find? (is_at k) os ≡ none
keys_with_complete prefix k [] h t = refl
keys_with_complete prefix k (o ∷ os) h t = elim (Bool-cases (is_at k o)) [
  | inl hit ↦
      let same = str_eq_sound o.key k hit in
      let listed = ap (λ x. starts_with x prefix) same in
      let itself = ap (str_eq k) same ∙ str_eq_refl k in absurd (ground (arith, listed, itself))
  | inr miss ↦ let later = keys_with_complete prefix k os in ground (arith, later)
]

module _ (paginate : List String → List (List String))
    (lists_all : (keys : List String) (k : String)
      → any (any (str_eq k)) (paginate keys) ≡ any (str_eq k) keys)
    (missing : Exn) (prefix : String) (bucket : List Object) where
  -- If the pages of a listing hold the listed keys, a deletion of a prefix removes the objects whose
  -- key starts with it, over any number of pages, and no other object.
  pub download_trace-delete_prefix :
      (k : String)
      → download_trace missing k (delete_prefix paginate prefix bucket)
        ≡ (if starts_with k prefix then raised missing else download_trace missing k bucket)
  unfolding download_trace delete_prefix
  download_trace-delete_prefix k =
      let pages = find?-delete_pages (paginate (keys_with prefix bucket)) k bucket in
      let listed = lists_all (keys_with prefix bucket) k in
      let sound = keys_with_sound prefix k bucket in
      let complete = keys_with_complete prefix k bucket in
      ground (arith, pages, listed, sound, complete)
