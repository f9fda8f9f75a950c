-- ===== src/Spec/Keys/Tables.antt =====
-- Proofs about cpp/src/spec.h: the kinds that change a table, from an accepted body to its conflict keys.
use pg_laswell.Base.{ℕ, Bool, true, false, ◌≡◌, List}
use pg_laswell.Base.Result.{ok}
use pg_laswell.Canonical.Document.{Members}
use pg_laswell.Spec.Kinds.{IntentKind}
use pg_laswell.Spec.Keys.{ModuleKeys, edges}
use pg_laswell.Spec.Keys.Names.{Names, Reads}

-- The kinds of the core that name a table that is there, and do more than add a key to it.
unfoldable pub names_table : IntentKind → Bool
names_table IntentKind.add_column = true
names_table IntentKind.alter_column_type = true
names_table IntentKind.drop_column = true
names_table IntentKind.set_not_null = true
names_table IntentKind.drop_not_null = true
names_table IntentKind.drop_expression = true
names_table IntentKind.alter_column_default = true
names_table IntentKind.set_identity = true
names_table IntentKind.set_column_options = true
names_table IntentKind.set_table_options = true
names_table IntentKind.set_logged = true
names_table IntentKind.set_tablespace = true
names_table IntentKind.set_access_method = true
names_table IntentKind.set_replica_identity = true
names_table IntentKind.cluster_on = true
names_table IntentKind.drop_table = true
names_table IntentKind.create_table_as = true
names_table IntentKind.rename_table = true
names_table IntentKind.attach_partition = true
names_table IntentKind.detach_partition = true
names_table IntentKind.backfill = true
names_table IntentKind.set_row_security = true
names_table IntentKind.set_trigger_state = true
names_table IntentKind.drop_index = true
names_table IntentKind.drop_constraint = true
names_table IntentKind.drop_policy = true
names_table IntentKind.drop_rule = true
names_table IntentKind.drop_trigger = true
names_table IntentKind.alter_policy = true
names_table IntentKind.create_index = true
names_table IntentKind.add_check_constraint = true
names_table IntentKind.create_rule = true
names_table IntentKind.create_policy = true
names_table IntentKind.create_trigger = true
names_table IntentKind.add_foreign_key = true
names_table IntentKind.delete_rows = true
names_table IntentKind.insert_rows = true
names_table IntentKind.update_rows = true
names_table IntentKind.merge_rows = true
names_table IntentKind.copy_rows = true
names_table _ = false

-- What the parser of such a kind has seen to.
pub record Facts (m : ModuleKeys) (kind : IntentKind) (body : Members) : Type 0 where
  pub schema : (s : List ℕ) × Names body "schema" s
  pub table : (s : List ℕ) × Names body "table" s
  pub name : Reads body "name"
  pub edges_read : (s : List ℕ) → (ks : List (List ℕ)) × (edges m kind body s ≡ ok ks)
