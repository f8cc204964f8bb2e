-- ===== src/Api/AgentConfig.antt =====
-- src/backend/api/routes/agent_config.py. `encrypt` is `encrypt_credentials` of core/security.py,
-- which calls the library's cipher with a fresh nonce.
use crucible.Base.{
  ℕ, String, Bool, true, false, List, [], ◌∷◌, ◌++◌, Option, none, some, ◌==◌, ◌&&◌, find?,
  if◌then◌else◌,
}
use crucible.Db.Order.{page}
use crucible.Db.Models.{World, User, admin, member, AgentConfig, ConnectorType}
use crucible.Api.Http.{Response, ok, http_exception, not_enough_privileges, agent_config_not_found}

-- src/backend/schemas/agent_config.py
pub record AgentConfigCreate : Type 0 where
  pub name : String
  pub description : Option String
  pub connector_type : ConnectorType
  pub endpoint_url : Option String
  pub system_prompt : Option String
  pub tool_definitions : Option String
  pub auth_config_plaintext : Option String

-- `get_current_admin` of src/backend/api/deps.py
unfoldable pub get_current_admin : User → Response User
get_current_admin current_user = elim current_user.role [
  | admin ↦ ok current_user
  | member ↦ http_exception 403 not_enough_privileges
]

-- `deleted_at.is_(None)`
abbrev pub is_live : AgentConfig → Bool
is_live a = elim a.deleted_at [ none ↦ true | some _ ↦ false ]

module _ (encrypt : String → String) (is_blank : String → Bool) where
  -- `encrypt_credentials(plain) if plain else None`
  abbrev pub encrypted_auth : Option String → Option String
  encrypted_auth none = none
  encrypted_auth (some plain) = if is_blank plain then none else some (encrypt plain)

  abbrev pub new_config : AgentConfigCreate → User → (new_id now : ℕ) → AgentConfig
  new_config config_in current_user new_id now = record {
    id = new_id;
    tenant_id = current_user.tenant_id;
    created_by = some current_user.id;
    name = config_in.name;
    description = config_in.description;
    connector_type = config_in.connector_type;
    endpoint_url = config_in.endpoint_url;
    system_prompt = config_in.system_prompt;
    tool_definitions = config_in.tool_definitions;
    auth_config_encrypted = encrypted_auth config_in.auth_config_plaintext;
    deleted_at = none;
    created_at = now;
    updated_at = now;
  }

  -- the handler, behind its dependency `CurrentAdmin`
  unfoldable pub create_agent_config :
      {F : Type 0}
      → AgentConfigCreate
      → User
      → (new_id now : ℕ) → World F
      → Response AgentConfig × World F
  unfolding get_current_admin
  create_agent_config config_in user new_id now w = elim (get_current_admin user) [
    | http_exception c d ↦ (http_exception c d, w)
    | ok current_user ↦
        let config = new_config config_in current_user new_id now in
        (ok config, record w { agent_configs = w.agent_configs ++ config ∷ [] })
  ]

module _ {F : Type 0} where
  unfoldable pub list_agent_configs : User → (skip limit : ℕ) → World F → List AgentConfig
  list_agent_configs current_user skip limit w =
      page (λ a. a.created_at) (λ a. a.tenant_id == current_user.tenant_id && is_live a) skip limit
        w.agent_configs

  unfoldable pub get_agent_config : (config_id : ℕ) → User → World F → Response AgentConfig
  get_agent_config config_id current_user w =
      elim (find? (λ a. a.id == config_id && a.tenant_id == current_user.tenant_id && is_live a)
        w.agent_configs) [
          | none ↦ http_exception 404 agent_config_not_found
          | some agent_config ↦ ok agent_config
        ]
