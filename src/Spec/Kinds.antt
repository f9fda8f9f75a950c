-- ===== src/Spec/Kinds.antt =====
-- cpp/src/spec.h: `IntentKind`, `intent_kinds`. A kind of an extension module is given by its name in the
-- module; which modules a build has, and how it reads their kinds, are parameters.
use pg_laswell.Base.{ℕ, String, Bool, Option, none, some, List, [], ◌∷◌, if◌then◌else◌}
use pg_laswell.Base.Bytes.{is_text}

pub data IntentKind : Type 0 where
  add_column backfill create_index drop_index set_not_null add_foreign_key : IntentKind
  add_check_constraint drop_constraint alter_column_type drop_column replace_view : IntentKind
  add_unique_constraint add_primary_key attach_partition detach_partition rename_table : IntentKind
  rename_column rename_constraint create_table drop_table delete_rows set_row_security : IntentKind
  create_policy drop_policy set_trigger_state grant revoke create_schema drop_schema : IntentKind
  create_extension drop_extension create_type drop_type add_enum_value create_function : IntentKind
  drop_function create_trigger drop_trigger create_sequence drop_sequence drop_view : IntentKind
  alter_column_default drop_not_null alter_sequence alter_schema alter_extension : IntentKind
  alter_domain alter_function alter_view alter_policy set_comment set_owner set_identity :
      IntentKind
  drop_expression set_column_options set_table_options set_logged set_tablespace : IntentKind
  set_access_method set_replica_identity cluster_on create_materialized_view : IntentKind
  create_statistics drop_statistics create_rule drop_rule create_publication : IntentKind
  alter_publication drop_publication create_subscription alter_subscription : IntentKind
  drop_subscription create_object drop_object alter_object add_exclusion_constraint : IntentKind
  set_text_search_mapping create_table_as import_foreign_schema security_label : IntentKind
  alter_default_privileges insert_rows update_rows merge_rows copy_rows : IntentKind
  -- the text of the kind
  of_module : List ℕ → IntentKind

-- The names of the kinds, in the order of the source.
unfoldable pub intent_kinds : List (String × IntentKind)
intent_kinds =
    ("add_column", add_column)
    ∷ ("backfill", backfill)
    ∷ ("create_index", create_index)
    ∷ ("drop_index", drop_index)
    ∷ ("set_not_null", set_not_null)
    ∷ ("add_foreign_key", add_foreign_key)
    ∷ ("add_check_constraint", add_check_constraint)
    ∷ ("drop_constraint", drop_constraint)
    ∷ ("alter_column_type", alter_column_type)
    ∷ ("drop_column", drop_column)
    ∷ ("replace_view", replace_view)
    ∷ ("add_unique_constraint", add_unique_constraint)
    ∷ ("add_primary_key", add_primary_key)
    ∷ ("attach_partition", attach_partition)
    ∷ ("detach_partition", detach_partition)
    ∷ ("rename_table", rename_table)
    ∷ ("rename_column", rename_column)
    ∷ ("rename_constraint", rename_constraint)
    ∷ ("create_table", create_table)
    ∷ ("drop_table", drop_table)
    ∷ ("delete_rows", delete_rows)
    ∷ ("set_row_security", set_row_security)
    ∷ ("create_policy", create_policy)
    ∷ ("drop_policy", drop_policy)
    ∷ ("set_trigger_state", set_trigger_state)
    ∷ ("grant", grant)
    ∷ ("revoke", revoke)
    ∷ ("create_schema", create_schema)
    ∷ ("drop_schema", drop_schema)
    ∷ ("create_extension", create_extension)
    ∷ ("drop_extension", drop_extension)
    ∷ ("create_type", create_type)
    ∷ ("drop_type", drop_type)
    ∷ ("add_enum_value", add_enum_value)
    ∷ ("create_function", create_function)
    ∷ ("drop_function", drop_function)
    ∷ ("create_trigger", create_trigger)
    ∷ ("drop_trigger", drop_trigger)
    ∷ ("create_sequence", create_sequence)
    ∷ ("drop_sequence", drop_sequence)
    ∷ ("drop_view", drop_view)
    ∷ ("alter_column_default", alter_column_default)
    ∷ ("drop_not_null", drop_not_null)
    ∷ ("alter_sequence", alter_sequence)
    ∷ ("alter_schema", alter_schema)
    ∷ ("alter_extension", alter_extension)
    ∷ ("alter_domain", alter_domain)
    ∷ ("alter_function", alter_function)
    ∷ ("alter_view", alter_view)
    ∷ ("alter_policy", alter_policy)
    ∷ ("set_comment", set_comment)
    ∷ ("set_owner", set_owner)
    ∷ ("set_identity", set_identity)
    ∷ ("drop_expression", drop_expression)
    ∷ ("set_column_options", set_column_options)
    ∷ ("set_table_options", set_table_options)
    ∷ ("set_logged", set_logged)
    ∷ ("set_tablespace", set_tablespace)
    ∷ ("set_access_method", set_access_method)
    ∷ ("set_replica_identity", set_replica_identity)
    ∷ ("cluster_on", cluster_on)
    ∷ ("create_materialized_view", create_materialized_view)
    ∷ ("create_statistics", create_statistics)
    ∷ ("drop_statistics", drop_statistics)
    ∷ ("create_rule", create_rule)
    ∷ ("drop_rule", drop_rule)
    ∷ ("create_publication", create_publication)
    ∷ ("alter_publication", alter_publication)
    ∷ ("drop_publication", drop_publication)
    ∷ ("create_subscription", create_subscription)
    ∷ ("alter_subscription", alter_subscription)
    ∷ ("drop_subscription", drop_subscription)
    ∷ ("create_object", create_object)
    ∷ ("drop_object", drop_object)
    ∷ ("alter_object", alter_object)
    ∷ ("add_exclusion_constraint", add_exclusion_constraint)
    ∷ ("set_text_search_mapping", set_text_search_mapping)
    ∷ ("create_table_as", create_table_as)
    ∷ ("import_foreign_schema", import_foreign_schema)
    ∷ ("security_label", security_label)
    ∷ ("alter_default_privileges", alter_default_privileges)
    ∷ ("insert_rows", insert_rows)
    ∷ ("update_rows", update_rows)
    ∷ ("merge_rows", merge_rows)
    ∷ ("copy_rows", copy_rows)
    ∷ []

-- `intent_kinds().find(name)`, of the kinds that no module declares.
find_in : List ℕ → List (String × IntentKind) → Option IntentKind
unfolding is_text
find_in name [] = none
find_in name ((k, kind) ∷ ks) = if is_text name k then some kind else find_in name ks

unfoldable pub find_kind : (List ℕ → Bool) → List ℕ → Option IntentKind
unfolding find_in intent_kinds
find_kind is_module_kind name =
    if is_module_kind name then some (of_module name) else find_in name intent_kinds
