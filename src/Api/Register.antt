-- ===== src/Api/Register.antt =====
-- src/backend/api/routes/auth.py: `register`, one transaction that no other registration
-- interleaves with. `slugify` is the regular expression's replacement on the lowered name with
-- its `strip`, `show` prints a number, `hash` is the password hash, and `hex` the eight digits of a
-- fresh `uuid4`.
pub mod Slug
use Prim.Native.String.{◌++◌ as str_append}
use text.Mathlib.Text.{◌==◌ as str_eq}
use crucible.Base.{
  ℕ, zero, suc, String, Bool, true, false, List, [], ◌∷◌, ◌++◌, Option, none, some, any, length,
  if◌then◌else◌,
}
use crucible.Db.Models.{User, UserRole, admin}
use crucible.Api.Http.{Response, ok, http_exception, email_registered}

-- src/backend/db/models/tenant.py
pub record Tenant : Type 0 where
  pub id : ℕ
  pub name : String
  pub slug : String

-- the tables that the handler reads and writes
pub record Accounts : Type 0 where
  pub users : List User
  pub tenants : List Tenant

-- src/backend/schemas/user.py
pub record UserRegister : Type 0 where
  pub email : String
  pub password : String
  pub name : String
  pub company_name : String

pub record Registrar : Type 0 where
  pub lower : String → String
  pub slugify : String → String
  pub hex : String
  pub show : ℕ → String
  pub hash : String → String

abbrev pub has_slug : String → Tenant → Bool
has_slug slug t = str_eq t.slug slug

abbrev pub has_email : String → User → Bool
has_email email u = str_eq u.email email

module _ (env : Registrar) where
  open env use {lower, slugify, hex, show, hash}

  -- `base_slug`
  unfoldable pub base_slug_of : String → String
  base_slug_of company_name =
      let slug = slugify (lower company_name) in
      if str_eq slug "" then str_append "tenant-" hex else slug

  -- the slug that the loop tries in its round `counter`
  abbrev pub slug_at : (base : String) → (counter : ℕ) → String
  slug_at base zero = base
  slug_at base (suc k) = str_append base (str_append "-" (show (suc k)))

  -- `while True`, with a bound on its rounds
  unfoldable pub find_slug : (base : String) → List Tenant → (fuel counter : ℕ) → Option String
  find_slug base tenants zero counter = none
  find_slug base tenants (suc fuel) counter = elim (any (has_slug (slug_at base counter)) tenants) [
    | true ↦ find_slug base tenants fuel (suc counter)
    | false ↦ some (slug_at base counter)
  ]

  abbrev pub new_user : UserRegister → (tenant_id new_id : ℕ) → User
  new_user form tenant_id new_id = record {
    id = new_id;
    tenant_id = tenant_id;
    email = lower form.email;
    hashed_password = hash form.password;
    full_name = some form.name;
    role = admin;
    is_active = true;
  }

  -- the rows that are added behind the loop
  abbrev pub add_account :
      UserRegister → (tenant_id new_id : ℕ) → (slug : String) → Accounts → Response User × Accounts
  add_account form tenant_id new_id slug a =
      let user = new_user form tenant_id new_id in
      let tenant : Tenant = record { id = tenant_id; name = form.company_name; slug = slug } in
      (ok user, record { users = a.users ++ user ∷ []; tenants = a.tenants ++ tenant ∷ [] })

  -- `none` would be a loop that is cut off; there is one round more than there are tenants
  unfoldable pub register :
      UserRegister → (tenant_id new_id : ℕ) → Accounts → Option (Response User × Accounts)
  unfolding find_slug base_slug_of
  register form tenant_id new_id a =
      if any (has_email (lower form.email)) a.users
      then some (http_exception 400 email_registered, a)
      else elim (find_slug (base_slug_of form.company_name) a.tenants (suc (length a.tenants)) 0) [
        | none ↦ none
        | some slug ↦ some (add_account form tenant_id new_id slug a)
      ]
