-- ===== src/Db/Declared/Accounts.antt =====
-- src/backend/db/models: the tables of tenants, users and agent configurations.
use crucible.Base.{[], ◌∷◌, ◌++◌, none, some}
use crucible.Db.Schema.{
  string, unbounded_text, uuid, timestamptz, boolean, jsonb, enum, required, nullable, defaulted,
  primary_key, unique, foreign_key, cascade, set_null, Table,
}
use crucible.Db.Declared.Mixins.{mixed_in}

abbrev pub tenants : Table
tenants = record {
  name = "tenants";
  columns = (required "name" (string 255) ∷ required "slug" (string 100) ∷ []) ++ mixed_in;
  constraints = unique (some "uq_tenants_slug") ("slug" ∷ []) ∷ primary_key ("id" ∷ []) ∷ [];
  indexes = record { name = "ix_tenants_slug"; columns = ("slug" ∷ []) } ∷ [];
}

abbrev pub users : Table
users = record {
  name = "users";
  columns =
      (required "tenant_id" uuid
        ∷ required "email" (string 320)
        ∷ required "hashed_password" (string 255)
        ∷ nullable "full_name" (string 255)
        ∷ defaulted "role" (enum "user_role_enum" ("ADMIN" ∷ "MEMBER" ∷ [])) "member"
        ∷ defaulted "is_active" boolean "true"
        ∷ [])
      ++ mixed_in;
  constraints =
      unique (some "uq_users_tenant_email") ("tenant_id" ∷ "email" ∷ [])
      ∷ foreign_key none ("tenant_id" ∷ []) "tenants" cascade
      ∷ primary_key ("id" ∷ [])
      ∷ [];
  indexes =
      record { name = "ix_users_tenant_id"; columns = ("tenant_id" ∷ []) }
      ∷ record { name = "ix_users_email"; columns = ("email" ∷ []) }
      ∷ [];
}

abbrev pub agent_configs : Table
agent_configs = record {
  name = "agent_configs";
  columns =
      (required "tenant_id" uuid
        ∷ nullable "created_by" uuid
        ∷ required "name" (string 255)
        ∷ nullable "description" unbounded_text
        ∷ required "connector_type" (enum "connector_type_enum" ("REST_API" ∷ "SDK" ∷ "MCP" ∷ []))
        ∷ nullable "endpoint_url" (string 2048)
        ∷ nullable "system_prompt" unbounded_text
        ∷ nullable "tool_definitions" jsonb
        ∷ nullable "auth_config_encrypted" (string 2048)
        ∷ nullable "deleted_at" timestamptz
        ∷ [])
      ++ mixed_in;
  constraints =
      foreign_key none ("tenant_id" ∷ []) "tenants" cascade
      ∷ foreign_key none ("created_by" ∷ []) "users" set_null
      ∷ primary_key ("id" ∷ [])
      ∷ [];
  indexes =
      record { name = "ix_agent_configs_tenant_id"; columns = ("tenant_id" ∷ []) }
      ∷ record { name = "ix_agent_configs_created_by"; columns = ("created_by" ∷ []) }
      ∷ record { name = "ix_agent_configs_deleted_at"; columns = ("deleted_at" ∷ []) }
      ∷ [];
}
