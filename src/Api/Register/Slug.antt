-- ===== src/Api/Register/Slug.antt =====
-- The loop for a slug ends, and a registration keeps slugs and addresses unique.
use Prim.Native.String.{◌++◌ as str_append, count as str_len}
use text.Mathlib.TextEquality.{eq_iff}
use text.Mathlib.TextLemmas.{append_cancel_left, length-append}
use crucible.Base.{
  ℕ, zero, suc, ◌≤◌, ◌<◌, ◌≡◌, refl, sym, ap, ◌∙◌, String, Bool, true, false, ◌&&◌, List, [], ◌∷◌,
  ◌++◌, none, some, arith, any, count, count-append, length, Bool-cases, Option-cases, inl, inr,
}
use crucible.Db.Table.{delete}
use crucible.Db.Models.{User}
use crucible.Api.Http.{Response, http_exception, email_registered}
use crucible.Api.Register.{
  Tenant, Accounts, UserRegister, Registrar, has_slug, has_email, slug_at, find_slug, register,
  base_slug_of, add_account,
}

-- no two tenants with one slug, no two users with one address
pub record AreUnique (a : Accounts) : Type 0 where
  pub slugs : (slug : String) → count (has_slug slug) a.tenants ≤ 1
  pub emails : (email : String) → count (has_email email) a.users ≤ 1

-- different numbers are printed differently
abbrev pub PrintsApart : (ℕ → String) → Type 0
PrintsApart show = (i j : ℕ) → show i ≡ show j → i ≡ j

module _ {A : Type 0} where
  length-delete-le : (p : A → Bool) (xs : List A) → length (delete p xs) ≤ length xs
  length-delete-le p [] = omega arith
  length-delete-le p (x ∷ xs) = ground (arith, length-delete-le p xs)

  length-delete-lt :
      (p : A → Bool) (xs : List A) → any p xs ≡ true → length (delete p xs) < length xs
  length-delete-lt p [] h = cc
  length-delete-lt p (x ∷ xs) h = ground (arith, length-delete-le p xs, length-delete-lt p xs)

  any-delete :
      (p q : A → Bool) (xs : List A)
      → ((x : A) → p x ≡ true → q x ≡ false)
      → any p xs ≡ true
      → any p (delete q xs) ≡ true
  any-delete p q [] h e = cc
  any-delete p q (x ∷ xs) h e = ground (arith, h x, any-delete p q xs h)

  count-any : (p : A → Bool) (xs : List A) → any p xs ≡ false → count p xs ≡ 0
  count-any p [] h = refl
  count-any p (x ∷ xs) h = ground (arith, count-any p xs)

module _ (env : Registrar) (apart : PrintsApart env.show) (base : String) where
  suffixed : (s t : String) → base ≡ str_append base (str_append "-" s) → ⊥
  suffixed s t e =
      omega (arith, ap str_len e, length-append base (str_append "-" s), length-append "-" s)

  slug_at-inj : (i j : ℕ) → slug_at env base i ≡ slug_at env base j → i ≡ j
  slug_at-inj zero zero e = refl
  slug_at-inj zero (suc j) e = absurd (suffixed (env.show (suc j)) "" e)
  slug_at-inj (suc i) zero e = absurd (suffixed (env.show (suc i)) "" (sym e))
  slug_at-inj (suc i) (suc j) e =
      apart (suc i) (suc j) (append_cancel_left "-" _ _ (append_cancel_left base _ _ e))

  -- the slugs of `fuel` rounds are taken
  abbrev all_taken : List Tenant → (fuel counter : ℕ) → Bool
  all_taken ts zero counter = true
  all_taken ts (suc fuel) counter =
      any (has_slug (slug_at env base counter)) ts && all_taken ts fuel (suc counter)

  all_taken-find_slug :
      (ts : List Tenant) (fuel counter : ℕ)
      → find_slug env base ts fuel counter ≡ none
      → all_taken ts fuel counter ≡ true
  unfolding find_slug
  all_taken-find_slug ts zero counter h = refl
  all_taken-find_slug ts (suc fuel) counter h =
      ground (arith, all_taken-find_slug ts fuel (suc counter))

  other :
      (counter i : ℕ)
      → i < counter
      → (t : Tenant) → has_slug (slug_at env base counter) t ≡ true
      → has_slug (slug_at env base i) t ≡ false
  other counter i lt t h = elim (Bool-cases (has_slug (slug_at env base i) t)) [
    | inl same ↦
        let e =
          sym ((eq_iff t.slug (slug_at env base i)).0 same)
          ∙ (eq_iff t.slug (slug_at env base counter)).0 h in
        absurd (omega (arith, slug_at-inj i counter e))
    | inr apart ↦ apart
  ]

  all_taken-delete :
      (ts : List Tenant) (fuel counter i : ℕ)
      → i < counter
      → all_taken ts fuel counter ≡ true
      → all_taken (delete (has_slug (slug_at env base i)) ts) fuel counter ≡ true
  all_taken-delete ts zero counter i lt h = refl
  all_taken-delete ts (suc fuel) counter i lt h =
      let here = slug_at env base counter in
      let kept =
        any-delete (has_slug here) (has_slug (slug_at env base i)) ts (other counter i lt)
          (ground arith) in
      ground (arith, kept, all_taken-delete ts fuel (suc counter) i (omega arith))

  -- rounds whose slugs are taken are taken by as many tenants
  all_taken-length :
      (ts : List Tenant) (fuel counter : ℕ) → all_taken ts fuel counter ≡ true → fuel ≤ length ts
  all_taken-length ts zero counter h = omega arith
  all_taken-length ts (suc fuel) counter h =
      let p = has_slug (slug_at env base counter) in
      omega (
        arith,
        length-delete-lt p ts (ground arith),
        all_taken-length (delete p ts) fuel (suc counter)
            (all_taken-delete ts fuel (suc counter) counter (omega arith) (ground arith)),
      )

  find_slug-fresh :
      (ts : List Tenant) (fuel counter : ℕ) {slug : String}
      → find_slug env base ts fuel counter ≡ some slug
      → any (has_slug slug) ts ≡ false
  unfolding find_slug
  find_slug-fresh ts zero counter h = cc
  find_slug-fresh ts (suc fuel) counter {slug} h =
      elim (Bool-cases (any (has_slug (slug_at env base counter)) ts)) [
        | inl taken ↦ find_slug-fresh ts fuel (suc counter) (ground arith)
        | inr free ↦ let e : slug_at env base counter ≡ slug = ground arith in rw (← e) free
      ]

  -- one round more than there are tenants finds a slug that none of them has
  pub find_slug-returns :
      (ts : List Tenant)
      → (slug : String) × (find_slug env base ts (suc (length ts)) 0 ≡ some slug)
        × (any (has_slug slug) ts ≡ false)
  find_slug-returns ts = elim (Option-cases (find_slug env base ts (suc (length ts)) 0)) [
    | inl cut ↦
        let taken = all_taken-find_slug ts (suc (length ts)) 0 cut in
        absurd (omega (arith, all_taken-length ts (suc (length ts)) 0 taken))
    | inr (slug, e) ↦ (slug, e, find_slug-fresh ts (suc (length ts)) 0 e)
  ]

module _ {A : Type 0} where
  -- a new item keeps a key unique, where no item has the new item's key
  count-snoc_le :
      (p : A → Bool) (xs : List A) (x : A)
      → count p xs ≤ 1
      → (p x ≡ true → any p xs ≡ false)
      → count p (xs ++ x ∷ []) ≤ 1
  count-snoc_le p xs x u fresh = elim (Bool-cases (p x)) [
    | inl hit ↦ ground (arith, count-append p xs (x ∷ []), count-any p xs (fresh hit))
    | inr miss ↦ ground (arith, count-append p xs (x ∷ []))
  ]

module _ (env : Registrar) (form : UserRegister) (tenant_id new_id : ℕ) (a : Accounts) where
  add_account-AreUnique :
      (slug : String)
      → AreUnique a
      → any (has_email (env.lower form.email)) a.users ≡ false
      → any (has_slug slug) a.tenants ≡ false
      → AreUnique (add_account env form tenant_id new_id slug a).1
  add_account-AreUnique slug u e s = record {
    slugs =
        λ k. count-snoc_le (has_slug k) a.tenants _ (u.slugs k) (λ h. rw (← (eq_iff slug k).0 h) s);
    emails = λ k.
        count-snoc_le (has_email k) a.users _ (u.emails k)
          (λ h. rw (← (eq_iff (env.lower form.email) k).0 h) e);
  }

  -- Where numbers are printed apart and the tables have no two equal slugs or addresses, `register`
  -- returns: its loop for a slug ends. The tables it leaves have no two equal slugs or addresses.
  pub register-returns :
      PrintsApart env.show
      → AreUnique a
      → (r : Response User × Accounts) × (register env form tenant_id new_id a ≡ some r)
        × AreUnique r.1
  unfolding register
  register-returns apart u = elim (Bool-cases (any (has_email (env.lower form.email)) a.users)) [
    | inl taken ↦ ((http_exception 400 email_registered, a), rw (taken, register) refl, u)
    | inr free ↦
        let (slug, e, s) =
          find_slug-returns env apart (base_slug_of env form.company_name) a.tenants in
        (
          add_account env form tenant_id new_id slug a,
          rw (free, register) (rw e refl),
          add_account-AreUnique slug u free s,
        )
  ]
