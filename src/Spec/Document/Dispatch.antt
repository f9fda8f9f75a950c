-- ===== src/Spec/Document/Dispatch.antt =====
-- cpp/src/spec.h: the switch of `parse_spec` over the kinds of intents. The parser of the modules' kinds is a
-- parameter.
use pg_laswell.Base.{ℕ, true, false, none, some, List}
use pg_laswell.Canonical.Document.{Members}
use pg_laswell.Spec.Checks.{Check}
use pg_laswell.Spec.Kinds.{IntentKind}
use pg_laswell.Spec.Parse.Columns.{parse_add_column, parse_backfill, parse_create_index}
use pg_laswell.Spec.Parse.NewTable.{parse_create_table}
use pg_laswell.Spec.Parse.Rows.{
  parse_copy_rows, parse_delete_rows, parse_insert_rows, parse_merge_rows, parse_update_rows,
}
use pg_laswell.Spec.Parse.Tables.{
  parse_alter_column_default, parse_alter_column_type, parse_attach_partition, parse_cluster_on,
  parse_detach_partition, parse_drop_column, parse_drop_constraint, parse_drop_index,
  parse_drop_not_null, parse_drop_table, parse_rename, parse_set_access_method,
  parse_set_column_options, parse_set_identity, parse_set_logged, parse_set_not_null,
  parse_set_replica_identity, parse_set_table_options, parse_set_tablespace, parse_unique_like,
}
use pg_laswell.Spec.Parse.Constraints.{
  parse_add_check_constraint, parse_add_exclusion_constraint, parse_add_foreign_key,
  parse_set_text_search_mapping,
}
use pg_laswell.Spec.Parse.Objects.{
  parse_alter_extension, parse_alter_object, parse_alter_schema, parse_alter_sequence,
  parse_create_extension, parse_create_matview, parse_create_object, parse_create_rule,
  parse_create_sequence, parse_create_statistics, parse_create_table_as, parse_drop_extension,
  parse_drop_object, parse_drop_of_table, parse_import_foreign_schema, parse_named_object,
  parse_replace_view, parse_schema_like, parse_security_label,
}
use pg_laswell.Spec.Parse.Access.{
  parse_alter_default_privileges, parse_alter_policy, parse_create_policy, parse_grant_like,
  parse_set_comment, parse_set_owner, parse_set_row_security, parse_set_trigger_state,
}
use pg_laswell.Spec.Parse.Routines.{
  parse_add_enum_value, parse_alter_domain, parse_alter_function, parse_alter_view,
  parse_create_function, parse_create_trigger, parse_create_type, parse_drop_function,
  parse_publication, parse_replication_name, parse_subscription,
}

module _ (parse_module : List ℕ → ℕ → Members → Check) where
  unfoldable pub parse_body : IntentKind → ℕ → Members → Check
  unfolding parse_create_table parse_copy_rows parse_delete_rows parse_insert_rows parse_merge_rows
      parse_update_rows parse_add_check_constraint parse_add_column parse_add_enum_value
      parse_add_exclusion_constraint parse_add_foreign_key parse_alter_column_default
      parse_alter_column_type parse_alter_default_privileges parse_alter_domain
      parse_alter_extension parse_alter_function parse_alter_object parse_alter_policy
      parse_alter_schema parse_alter_sequence parse_alter_view parse_attach_partition parse_backfill
      parse_cluster_on parse_create_extension parse_create_function parse_create_index
      parse_create_matview parse_create_object parse_create_policy parse_create_rule
      parse_create_sequence parse_create_statistics parse_create_table_as parse_create_trigger
      parse_create_type parse_detach_partition parse_drop_column parse_drop_constraint
      parse_drop_extension parse_drop_function parse_drop_index parse_drop_not_null
      parse_drop_object parse_drop_of_table parse_drop_table parse_grant_like
      parse_import_foreign_schema parse_named_object parse_publication parse_rename
      parse_replace_view parse_replication_name parse_schema_like parse_security_label
      parse_set_access_method parse_set_column_options parse_set_comment parse_set_identity
      parse_set_logged parse_set_not_null parse_set_owner parse_set_replica_identity
      parse_set_row_security parse_set_table_options parse_set_tablespace
      parse_set_text_search_mapping parse_set_trigger_state parse_subscription parse_unique_like
  parse_body IntentKind.add_column n body = parse_add_column n body
  parse_body IntentKind.backfill n body = parse_backfill n body
  parse_body IntentKind.create_index n body = parse_create_index n body
  parse_body IntentKind.drop_index n body = parse_drop_index n body
  parse_body IntentKind.set_not_null n body = parse_set_not_null n body
  parse_body IntentKind.add_foreign_key n body = parse_add_foreign_key n body
  parse_body IntentKind.add_check_constraint n body = parse_add_check_constraint n body
  parse_body IntentKind.drop_constraint n body = parse_drop_constraint n body
  parse_body IntentKind.alter_column_type n body = parse_alter_column_type n body
  parse_body IntentKind.drop_column n body = parse_drop_column n body
  parse_body IntentKind.replace_view n body = parse_replace_view n body
  parse_body IntentKind.add_unique_constraint n body = parse_unique_like n body
  parse_body IntentKind.add_primary_key n body = parse_unique_like n body
  parse_body IntentKind.attach_partition n body = parse_attach_partition n body
  parse_body IntentKind.detach_partition n body = parse_detach_partition n body
  parse_body IntentKind.rename_table n body = parse_rename none n body
  parse_body IntentKind.rename_column n body = parse_rename (some "column") n body
  parse_body IntentKind.rename_constraint n body = parse_rename (some "name") n body
  parse_body IntentKind.create_table n body = parse_create_table n body
  parse_body IntentKind.drop_table n body = parse_drop_table n body
  parse_body IntentKind.delete_rows n body = parse_delete_rows n body
  parse_body IntentKind.insert_rows n body = parse_insert_rows n body
  parse_body IntentKind.update_rows n body = parse_update_rows n body
  parse_body IntentKind.merge_rows n body = parse_merge_rows n body
  parse_body IntentKind.copy_rows n body = parse_copy_rows n body
  parse_body IntentKind.set_row_security n body = parse_set_row_security n body
  parse_body IntentKind.create_policy n body = parse_create_policy n body
  parse_body IntentKind.drop_policy n body = parse_drop_of_table n body
  parse_body IntentKind.set_trigger_state n body = parse_set_trigger_state n body
  parse_body IntentKind.grant n body = parse_grant_like true n body
  parse_body IntentKind.revoke n body = parse_grant_like false n body
  parse_body IntentKind.create_schema n body = parse_schema_like true n body
  parse_body IntentKind.drop_schema n body = parse_schema_like false n body
  parse_body IntentKind.create_extension n body = parse_create_extension n body
  parse_body IntentKind.drop_extension n body = parse_drop_extension n body
  parse_body IntentKind.create_type n body = parse_create_type n body
  parse_body IntentKind.drop_type n body = parse_named_object n body
  parse_body IntentKind.add_enum_value n body = parse_add_enum_value n body
  parse_body IntentKind.create_function n body = parse_create_function n body
  parse_body IntentKind.drop_function n body = parse_drop_function n body
  parse_body IntentKind.create_trigger n body = parse_create_trigger n body
  parse_body IntentKind.drop_trigger n body = parse_drop_of_table n body
  parse_body IntentKind.create_sequence n body = parse_create_sequence n body
  parse_body IntentKind.drop_sequence n body = parse_named_object n body
  parse_body IntentKind.drop_view n body = parse_named_object n body
  parse_body IntentKind.alter_column_default n body = parse_alter_column_default n body
  parse_body IntentKind.drop_not_null n body = parse_drop_not_null n body
  parse_body IntentKind.alter_sequence n body = parse_alter_sequence n body
  parse_body IntentKind.alter_schema n body = parse_alter_schema n body
  parse_body IntentKind.alter_extension n body = parse_alter_extension n body
  parse_body IntentKind.alter_domain n body = parse_alter_domain n body
  parse_body IntentKind.alter_function n body = parse_alter_function n body
  parse_body IntentKind.alter_view n body = parse_alter_view n body
  parse_body IntentKind.alter_policy n body = parse_alter_policy n body
  parse_body IntentKind.set_comment n body = parse_set_comment n body
  parse_body IntentKind.set_owner n body = parse_set_owner n body
  parse_body IntentKind.set_identity n body = parse_set_identity n body
  parse_body IntentKind.drop_expression n body = parse_drop_not_null n body
  parse_body IntentKind.set_column_options n body = parse_set_column_options n body
  parse_body IntentKind.set_table_options n body = parse_set_table_options n body
  parse_body IntentKind.set_logged n body = parse_set_logged n body
  parse_body IntentKind.set_tablespace n body = parse_set_tablespace n body
  parse_body IntentKind.set_access_method n body = parse_set_access_method n body
  parse_body IntentKind.set_replica_identity n body = parse_set_replica_identity n body
  parse_body IntentKind.cluster_on n body = parse_cluster_on n body
  parse_body IntentKind.create_materialized_view n body = parse_create_matview n body
  parse_body IntentKind.create_statistics n body = parse_create_statistics n body
  parse_body IntentKind.drop_statistics n body = parse_named_object n body
  parse_body IntentKind.create_rule n body = parse_create_rule n body
  parse_body IntentKind.drop_rule n body = parse_drop_of_table n body
  parse_body IntentKind.create_publication n body = parse_publication true n body
  parse_body IntentKind.alter_publication n body = parse_publication false n body
  parse_body IntentKind.drop_publication n body = parse_replication_name n body
  parse_body IntentKind.create_subscription n body = parse_subscription true n body
  parse_body IntentKind.alter_subscription n body = parse_subscription false n body
  parse_body IntentKind.drop_subscription n body = parse_replication_name n body
  parse_body IntentKind.create_object n body = parse_create_object n body
  parse_body IntentKind.drop_object n body = parse_drop_object n body
  parse_body IntentKind.alter_object n body = parse_alter_object n body
  parse_body IntentKind.add_exclusion_constraint n body = parse_add_exclusion_constraint n body
  parse_body IntentKind.set_text_search_mapping n body = parse_set_text_search_mapping n body
  parse_body IntentKind.create_table_as n body = parse_create_table_as n body
  parse_body IntentKind.import_foreign_schema n body = parse_import_foreign_schema n body
  parse_body IntentKind.security_label n body = parse_security_label n body
  parse_body IntentKind.alter_default_privileges n body = parse_alter_default_privileges n body
  parse_body (IntentKind.of_module name) n body = parse_module name n body
