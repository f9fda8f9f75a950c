-- ===== src/Spec/Keys/Kinds.antt =====
-- Proofs about cpp/src/spec.h: what an accepted body of a kind that names a table has, kind by kind.
use pg_laswell.Base.{ℕ, true, ◌≡◌, refl, List, []}
use pg_laswell.Base.Result.{ok}
use pg_laswell.Canonical.Document.{Members}
use pg_laswell.Spec.Checks.{Check, value_string}
use pg_laswell.Spec.Kinds.{IntentKind}
use pg_laswell.Spec.Keys.{ModuleKeys, object_key_for}
use pg_laswell.Spec.Keys.Tables.{names_table, Facts}
use pg_laswell.Spec.Keys.Columns.{
  add_column-Facts, alter_column_type-Facts, drop_column-Facts, set_not_null-Facts,
  drop_not_null-Facts, drop_expression-Facts, alter_column_default-Facts, set_identity-Facts,
  set_column_options-Facts, set_table_options-Facts, set_logged-Facts, set_tablespace-Facts,
}
use pg_laswell.Spec.Keys.Physical.{
  set_access_method-Facts, set_replica_identity-Facts, cluster_on-Facts, drop_table-Facts,
  create_table_as-Facts, rename_table-Facts, attach_partition-Facts, detach_partition-Facts,
  backfill-Facts, set_row_security-Facts, set_trigger_state-Facts,
}
use pg_laswell.Spec.Keys.Rows.{
  delete_rows-Facts, insert_rows-Facts, update_rows-Facts, merge_rows-Facts, copy_rows-Facts,
}
use pg_laswell.Spec.Keys.Named.{
  drop_index-Facts, drop_constraint-Facts, drop_policy-Facts, drop_rule-Facts, drop_trigger-Facts,
  alter_policy-Facts, create_index-Facts, add_check_constraint-Facts, create_rule-Facts,
  create_policy-Facts, create_trigger-Facts, add_foreign_key-Facts,
}
use pg_laswell.Spec.Document.Dispatch.{parse_body}

pub accepted-Facts :
    (pm : List ℕ → ℕ → Members → Check) (m : ModuleKeys) (kind : IntentKind) (n : ℕ)
    (body : Members)
    → names_table kind ≡ true
    → parse_body pm kind n body ≡ ok tt
    → Facts m kind body
unfolding names_table
accepted-Facts pm m IntentKind.add_column n body h p = add_column-Facts pm m n body p
accepted-Facts pm m IntentKind.backfill n body h p = backfill-Facts pm m n body p
accepted-Facts pm m IntentKind.create_index n body h p = create_index-Facts pm m n body p
accepted-Facts pm m IntentKind.drop_index n body h p = drop_index-Facts pm m n body p
accepted-Facts pm m IntentKind.set_not_null n body h p = set_not_null-Facts pm m n body p
accepted-Facts pm m IntentKind.add_foreign_key n body h p = add_foreign_key-Facts pm m n body p
accepted-Facts pm m IntentKind.add_check_constraint n body h p =
    add_check_constraint-Facts pm m n body p
accepted-Facts pm m IntentKind.drop_constraint n body h p = drop_constraint-Facts pm m n body p
accepted-Facts pm m IntentKind.alter_column_type n body h p = alter_column_type-Facts pm m n body p
accepted-Facts pm m IntentKind.drop_column n body h p = drop_column-Facts pm m n body p
accepted-Facts pm m IntentKind.replace_view n body h p = absurd (cc)
accepted-Facts pm m IntentKind.add_unique_constraint n body h p = absurd (cc)
accepted-Facts pm m IntentKind.add_primary_key n body h p = absurd (cc)
accepted-Facts pm m IntentKind.attach_partition n body h p = attach_partition-Facts pm m n body p
accepted-Facts pm m IntentKind.detach_partition n body h p = detach_partition-Facts pm m n body p
accepted-Facts pm m IntentKind.rename_table n body h p = rename_table-Facts pm m n body p
accepted-Facts pm m IntentKind.rename_column n body h p = absurd (cc)
accepted-Facts pm m IntentKind.rename_constraint n body h p = absurd (cc)
accepted-Facts pm m IntentKind.create_table n body h p = absurd (cc)
accepted-Facts pm m IntentKind.drop_table n body h p = drop_table-Facts pm m n body p
accepted-Facts pm m IntentKind.delete_rows n body h p = delete_rows-Facts pm m n body p
accepted-Facts pm m IntentKind.set_row_security n body h p = set_row_security-Facts pm m n body p
accepted-Facts pm m IntentKind.create_policy n body h p = create_policy-Facts pm m n body p
accepted-Facts pm m IntentKind.drop_policy n body h p = drop_policy-Facts pm m n body p
accepted-Facts pm m IntentKind.set_trigger_state n body h p = set_trigger_state-Facts pm m n body p
accepted-Facts pm m IntentKind.grant n body h p = absurd (cc)
accepted-Facts pm m IntentKind.revoke n body h p = absurd (cc)
accepted-Facts pm m IntentKind.create_schema n body h p = absurd (cc)
accepted-Facts pm m IntentKind.drop_schema n body h p = absurd (cc)
accepted-Facts pm m IntentKind.create_extension n body h p = absurd (cc)
accepted-Facts pm m IntentKind.drop_extension n body h p = absurd (cc)
accepted-Facts pm m IntentKind.create_type n body h p = absurd (cc)
accepted-Facts pm m IntentKind.drop_type n body h p = absurd (cc)
accepted-Facts pm m IntentKind.add_enum_value n body h p = absurd (cc)
accepted-Facts pm m IntentKind.create_function n body h p = absurd (cc)
accepted-Facts pm m IntentKind.drop_function n body h p = absurd (cc)
accepted-Facts pm m IntentKind.create_trigger n body h p = create_trigger-Facts pm m n body p
accepted-Facts pm m IntentKind.drop_trigger n body h p = drop_trigger-Facts pm m n body p
accepted-Facts pm m IntentKind.create_sequence n body h p = absurd (cc)
accepted-Facts pm m IntentKind.drop_sequence n body h p = absurd (cc)
accepted-Facts pm m IntentKind.drop_view n body h p = absurd (cc)
accepted-Facts pm m IntentKind.alter_column_default n body h p =
    alter_column_default-Facts pm m n body p
accepted-Facts pm m IntentKind.drop_not_null n body h p = drop_not_null-Facts pm m n body p
accepted-Facts pm m IntentKind.alter_sequence n body h p = absurd (cc)
accepted-Facts pm m IntentKind.alter_schema n body h p = absurd (cc)
accepted-Facts pm m IntentKind.alter_extension n body h p = absurd (cc)
accepted-Facts pm m IntentKind.alter_domain n body h p = absurd (cc)
accepted-Facts pm m IntentKind.alter_function n body h p = absurd (cc)
accepted-Facts pm m IntentKind.alter_view n body h p = absurd (cc)
accepted-Facts pm m IntentKind.alter_policy n body h p = alter_policy-Facts pm m n body p
accepted-Facts pm m IntentKind.set_comment n body h p = absurd (cc)
accepted-Facts pm m IntentKind.set_owner n body h p = absurd (cc)
accepted-Facts pm m IntentKind.set_identity n body h p = set_identity-Facts pm m n body p
accepted-Facts pm m IntentKind.drop_expression n body h p = drop_expression-Facts pm m n body p
accepted-Facts pm m IntentKind.set_column_options n body h p =
    set_column_options-Facts pm m n body p
accepted-Facts pm m IntentKind.set_table_options n body h p = set_table_options-Facts pm m n body p
accepted-Facts pm m IntentKind.set_logged n body h p = set_logged-Facts pm m n body p
accepted-Facts pm m IntentKind.set_tablespace n body h p = set_tablespace-Facts pm m n body p
accepted-Facts pm m IntentKind.set_access_method n body h p = set_access_method-Facts pm m n body p
accepted-Facts pm m IntentKind.set_replica_identity n body h p =
    set_replica_identity-Facts pm m n body p
accepted-Facts pm m IntentKind.cluster_on n body h p = cluster_on-Facts pm m n body p
accepted-Facts pm m IntentKind.create_materialized_view n body h p = absurd (cc)
accepted-Facts pm m IntentKind.create_statistics n body h p = absurd (cc)
accepted-Facts pm m IntentKind.drop_statistics n body h p = absurd (cc)
accepted-Facts pm m IntentKind.create_rule n body h p = create_rule-Facts pm m n body p
accepted-Facts pm m IntentKind.drop_rule n body h p = drop_rule-Facts pm m n body p
accepted-Facts pm m IntentKind.create_publication n body h p = absurd (cc)
accepted-Facts pm m IntentKind.alter_publication n body h p = absurd (cc)
accepted-Facts pm m IntentKind.drop_publication n body h p = absurd (cc)
accepted-Facts pm m IntentKind.create_subscription n body h p = absurd (cc)
accepted-Facts pm m IntentKind.alter_subscription n body h p = absurd (cc)
accepted-Facts pm m IntentKind.drop_subscription n body h p = absurd (cc)
accepted-Facts pm m IntentKind.create_object n body h p = absurd (cc)
accepted-Facts pm m IntentKind.drop_object n body h p = absurd (cc)
accepted-Facts pm m IntentKind.alter_object n body h p = absurd (cc)
accepted-Facts pm m IntentKind.add_exclusion_constraint n body h p = absurd (cc)
accepted-Facts pm m IntentKind.set_text_search_mapping n body h p = absurd (cc)
accepted-Facts pm m IntentKind.create_table_as n body h p = create_table_as-Facts pm m n body p
accepted-Facts pm m IntentKind.import_foreign_schema n body h p = absurd (cc)
accepted-Facts pm m IntentKind.security_label n body h p = absurd (cc)
accepted-Facts pm m IntentKind.alter_default_privileges n body h p = absurd (cc)
accepted-Facts pm m IntentKind.insert_rows n body h p = insert_rows-Facts pm m n body p
accepted-Facts pm m IntentKind.update_rows n body h p = update_rows-Facts pm m n body p
accepted-Facts pm m IntentKind.merge_rows n body h p = merge_rows-Facts pm m n body p
accepted-Facts pm m IntentKind.copy_rows n body h p = copy_rows-Facts pm m n body p
accepted-Facts pm m (IntentKind.of_module k) n body h p = absurd (cc)

-- Such a kind has no object's key.
pub no_object_key :
    (m : ModuleKeys) (kind : IntentKind) (body : Members) (s nm : List ℕ)
    → names_table kind ≡ true
    → value_string body "schema" [] ≡ ok s
    → value_string body "name" [] ≡ ok nm
    → object_key_for m kind body ≡ ok []
unfolding names_table object_key_for
no_object_key m IntentKind.add_column body s nm h e f = rw (e, f) refl
no_object_key m IntentKind.backfill body s nm h e f = rw (e, f) refl
no_object_key m IntentKind.create_index body s nm h e f = rw (e, f) refl
no_object_key m IntentKind.drop_index body s nm h e f = rw (e, f) refl
no_object_key m IntentKind.set_not_null body s nm h e f = rw (e, f) refl
no_object_key m IntentKind.add_foreign_key body s nm h e f = rw (e, f) refl
no_object_key m IntentKind.add_check_constraint body s nm h e f = rw (e, f) refl
no_object_key m IntentKind.drop_constraint body s nm h e f = rw (e, f) refl
no_object_key m IntentKind.alter_column_type body s nm h e f = rw (e, f) refl
no_object_key m IntentKind.drop_column body s nm h e f = rw (e, f) refl
no_object_key m IntentKind.replace_view body s nm h e f = absurd (cc)
no_object_key m IntentKind.add_unique_constraint body s nm h e f = absurd (cc)
no_object_key m IntentKind.add_primary_key body s nm h e f = absurd (cc)
no_object_key m IntentKind.attach_partition body s nm h e f = rw (e, f) refl
no_object_key m IntentKind.detach_partition body s nm h e f = rw (e, f) refl
no_object_key m IntentKind.rename_table body s nm h e f = rw (e, f) refl
no_object_key m IntentKind.rename_column body s nm h e f = absurd (cc)
no_object_key m IntentKind.rename_constraint body s nm h e f = absurd (cc)
no_object_key m IntentKind.create_table body s nm h e f = absurd (cc)
no_object_key m IntentKind.drop_table body s nm h e f = rw (e, f) refl
no_object_key m IntentKind.delete_rows body s nm h e f = rw (e, f) refl
no_object_key m IntentKind.set_row_security body s nm h e f = rw (e, f) refl
no_object_key m IntentKind.create_policy body s nm h e f = rw (e, f) refl
no_object_key m IntentKind.drop_policy body s nm h e f = rw (e, f) refl
no_object_key m IntentKind.set_trigger_state body s nm h e f = rw (e, f) refl
no_object_key m IntentKind.grant body s nm h e f = absurd (cc)
no_object_key m IntentKind.revoke body s nm h e f = absurd (cc)
no_object_key m IntentKind.create_schema body s nm h e f = absurd (cc)
no_object_key m IntentKind.drop_schema body s nm h e f = absurd (cc)
no_object_key m IntentKind.create_extension body s nm h e f = absurd (cc)
no_object_key m IntentKind.drop_extension body s nm h e f = absurd (cc)
no_object_key m IntentKind.create_type body s nm h e f = absurd (cc)
no_object_key m IntentKind.drop_type body s nm h e f = absurd (cc)
no_object_key m IntentKind.add_enum_value body s nm h e f = absurd (cc)
no_object_key m IntentKind.create_function body s nm h e f = absurd (cc)
no_object_key m IntentKind.drop_function body s nm h e f = absurd (cc)
no_object_key m IntentKind.create_trigger body s nm h e f = rw (e, f) refl
no_object_key m IntentKind.drop_trigger body s nm h e f = rw (e, f) refl
no_object_key m IntentKind.create_sequence body s nm h e f = absurd (cc)
no_object_key m IntentKind.drop_sequence body s nm h e f = absurd (cc)
no_object_key m IntentKind.drop_view body s nm h e f = absurd (cc)
no_object_key m IntentKind.alter_column_default body s nm h e f = rw (e, f) refl
no_object_key m IntentKind.drop_not_null body s nm h e f = rw (e, f) refl
no_object_key m IntentKind.alter_sequence body s nm h e f = absurd (cc)
no_object_key m IntentKind.alter_schema body s nm h e f = absurd (cc)
no_object_key m IntentKind.alter_extension body s nm h e f = absurd (cc)
no_object_key m IntentKind.alter_domain body s nm h e f = absurd (cc)
no_object_key m IntentKind.alter_function body s nm h e f = absurd (cc)
no_object_key m IntentKind.alter_view body s nm h e f = absurd (cc)
no_object_key m IntentKind.alter_policy body s nm h e f = rw (e, f) refl
no_object_key m IntentKind.set_comment body s nm h e f = absurd (cc)
no_object_key m IntentKind.set_owner body s nm h e f = absurd (cc)
no_object_key m IntentKind.set_identity body s nm h e f = rw (e, f) refl
no_object_key m IntentKind.drop_expression body s nm h e f = rw (e, f) refl
no_object_key m IntentKind.set_column_options body s nm h e f = rw (e, f) refl
no_object_key m IntentKind.set_table_options body s nm h e f = rw (e, f) refl
no_object_key m IntentKind.set_logged body s nm h e f = rw (e, f) refl
no_object_key m IntentKind.set_tablespace body s nm h e f = rw (e, f) refl
no_object_key m IntentKind.set_access_method body s nm h e f = rw (e, f) refl
no_object_key m IntentKind.set_replica_identity body s nm h e f = rw (e, f) refl
no_object_key m IntentKind.cluster_on body s nm h e f = rw (e, f) refl
no_object_key m IntentKind.create_materialized_view body s nm h e f = absurd (cc)
no_object_key m IntentKind.create_statistics body s nm h e f = absurd (cc)
no_object_key m IntentKind.drop_statistics body s nm h e f = absurd (cc)
no_object_key m IntentKind.create_rule body s nm h e f = rw (e, f) refl
no_object_key m IntentKind.drop_rule body s nm h e f = rw (e, f) refl
no_object_key m IntentKind.create_publication body s nm h e f = absurd (cc)
no_object_key m IntentKind.alter_publication body s nm h e f = absurd (cc)
no_object_key m IntentKind.drop_publication body s nm h e f = absurd (cc)
no_object_key m IntentKind.create_subscription body s nm h e f = absurd (cc)
no_object_key m IntentKind.alter_subscription body s nm h e f = absurd (cc)
no_object_key m IntentKind.drop_subscription body s nm h e f = absurd (cc)
no_object_key m IntentKind.create_object body s nm h e f = absurd (cc)
no_object_key m IntentKind.drop_object body s nm h e f = absurd (cc)
no_object_key m IntentKind.alter_object body s nm h e f = absurd (cc)
no_object_key m IntentKind.add_exclusion_constraint body s nm h e f = absurd (cc)
no_object_key m IntentKind.set_text_search_mapping body s nm h e f = absurd (cc)
no_object_key m IntentKind.create_table_as body s nm h e f = rw (e, f) refl
no_object_key m IntentKind.import_foreign_schema body s nm h e f = absurd (cc)
no_object_key m IntentKind.security_label body s nm h e f = absurd (cc)
no_object_key m IntentKind.alter_default_privileges body s nm h e f = absurd (cc)
no_object_key m IntentKind.insert_rows body s nm h e f = rw (e, f) refl
no_object_key m IntentKind.update_rows body s nm h e f = rw (e, f) refl
no_object_key m IntentKind.merge_rows body s nm h e f = rw (e, f) refl
no_object_key m IntentKind.copy_rows body s nm h e f = rw (e, f) refl
no_object_key m (IntentKind.of_module k) body s nm h e f = absurd (cc)
