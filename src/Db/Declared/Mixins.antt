-- ===== src/Db/Declared/Mixins.antt =====
-- src/backend/db/base.py: the columns of every table.
use crucible.Base.{List, [], ◌∷◌}
use crucible.Db.Schema.{uuid, timestamptz, Column, defaulted}

-- `TimestampMixin`
abbrev pub timestamps : List Column
timestamps =
    defaulted "created_at" timestamptz "now()" ∷ defaulted "updated_at" timestamptz "now()" ∷ []

-- `UUIDPrimaryKeyMixin`, with the columns of `TimestampMixin`
abbrev pub mixed_in : List Column
mixed_in = defaulted "id" uuid "gen_random_uuid()" ∷ timestamps
