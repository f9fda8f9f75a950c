-- ===== src/Spec/Keys/Physical.antt =====
-- Proofs about cpp/src/spec.h: what the parsers of whole tables and partitions have seen to.
use pg_laswell.Base.{ℕ, ◌≡◌, refl, List, [], ◌∷◌}
use pg_laswell.Base.Bytes.{is_text}
use pg_laswell.Base.Result.{ok}
use pg_laswell.Canonical.Document.{Members}
use pg_laswell.Spec.Checks.{Check}
use pg_laswell.Spec.Kinds.{IntentKind}
use pg_laswell.Spec.Keys.{ModuleKeys, dotted, add, edges, type_key, function_key, named_relation}
use pg_laswell.Spec.Keys.Names.{all_of-All, all_named-Names, Reads-named, Reads-absent}
use pg_laswell.Spec.Keys.Tables.{Facts}
use pg_laswell.Spec.Document.Signed.{among}
use pg_laswell.Spec.Document.Dispatch.{parse_body}

module _ (pm : List ℕ → ℕ → Members → Check) (m : ModuleKeys) (n : ℕ) (body : Members) where
  pub set_access_method-Facts :
      parse_body pm IntentKind.set_access_method n body ≡ ok tt
      → Facts m IntentKind.set_access_method body
  unfolding parse_body edges among is_text type_key function_key named_relation
  set_access_method-Facts h =
      let all = all_of-All _ h in
      let names = all_named-Names n body ("schema" ∷ "table" ∷ "method" ∷ []) all.1.0 in
      record {
        schema = names.0;
        table = names.1.0;
        name = Reads-absent n body ("kind" ∷ "schema" ∷ "table" ∷ "method" ∷ []) "name" all.0 refl;
        edges_read = λ s. ([], refl);
      }

  pub set_replica_identity-Facts :
      parse_body pm IntentKind.set_replica_identity n body ≡ ok tt
      → Facts m IntentKind.set_replica_identity body
  unfolding parse_body edges among is_text type_key function_key named_relation
  set_replica_identity-Facts h =
      let all = all_of-All _ h in
      let names = all_named-Names n body ("schema" ∷ "table" ∷ []) all.1.0 in
      record {
        schema = names.0;
        table = names.1.0;
        name =
            Reads-absent n body ("kind" ∷ "schema" ∷ "table" ∷ "identity" ∷ "index" ∷ []) "name"
              all.0 refl;
        edges_read = λ s. ([], refl);
      }

  pub cluster_on-Facts :
      parse_body pm IntentKind.cluster_on n body ≡ ok tt → Facts m IntentKind.cluster_on body
  unfolding parse_body edges among is_text type_key function_key named_relation
  cluster_on-Facts h =
      let all = all_of-All _ h in
      let names = all_named-Names n body ("schema" ∷ "table" ∷ []) all.1.0 in
      record {
        schema = names.0;
        table = names.1.0;
        name = Reads-absent n body ("kind" ∷ "schema" ∷ "table" ∷ "index" ∷ []) "name" all.0 refl;
        edges_read = λ s. ([], refl);
      }

  pub drop_table-Facts :
      parse_body pm IntentKind.drop_table n body ≡ ok tt → Facts m IntentKind.drop_table body
  unfolding parse_body edges among is_text type_key function_key named_relation
  drop_table-Facts h =
      let all = all_of-All _ h in
      let names = all_named-Names n body ("schema" ∷ "table" ∷ []) all.1.0 in
      record {
        schema = names.0;
        table = names.1.0;
        name = Reads-absent n body ("kind" ∷ "schema" ∷ "table" ∷ []) "name" all.0 refl;
        edges_read = λ s. ([], refl);
      }

  pub create_table_as-Facts :
      parse_body pm IntentKind.create_table_as n body ≡ ok tt
      → Facts m IntentKind.create_table_as body
  unfolding parse_body edges among is_text type_key function_key named_relation
  create_table_as-Facts h =
      let all = all_of-All _ h in
      let names = all_named-Names n body ("schema" ∷ "table" ∷ []) all.1.0 in
      record {
        schema = names.0;
        table = names.1.0;
        name =
            Reads-absent n body
              ("kind" ∷ "schema" ∷ "table" ∷ "definition" ∷ "comment" ∷ "with_data" ∷ "unlogged"
                ∷ [])
              "name" all.0 refl;
        edges_read = λ s. ([], refl);
      }

  pub rename_table-Facts :
      parse_body pm IntentKind.rename_table n body ≡ ok tt → Facts m IntentKind.rename_table body
  unfolding parse_body edges among is_text type_key function_key named_relation
  rename_table-Facts h =
      let all = all_of-All _ h in
      let names = all_named-Names n body ("schema" ∷ "table" ∷ "to" ∷ []) all.1.0 in
      record {
        schema = names.0;
        table = names.1.0;
        name = Reads-absent n body ("kind" ∷ "schema" ∷ "table" ∷ "to" ∷ []) "name" all.0 refl;
        edges_read =
            λ s. let (t, r) = Reads-named body "to" names.1.1.0 in (add (dotted s t), rw r refl);
      }

  pub attach_partition-Facts :
      parse_body pm IntentKind.attach_partition n body ≡ ok tt
      → Facts m IntentKind.attach_partition body
  unfolding parse_body edges among is_text type_key function_key named_relation
  attach_partition-Facts h =
      let all = all_of-All _ h in
      let names = all_named-Names n body ("schema" ∷ "table" ∷ "partition" ∷ []) all.1.0 in
      record {
        schema = names.0;
        table = names.1.0;
        name =
            Reads-absent n body
              ("kind" ∷ "schema" ∷ "table" ∷ "partition" ∷ "from" ∷ "to" ∷ "values" ∷ "default"
                ∷ [])
              "name" all.0 refl;
        edges_read = λ s.
            let (t, r) = Reads-named body "partition" names.1.1.0 in (add (dotted s t), rw r refl);
      }

  pub detach_partition-Facts :
      parse_body pm IntentKind.detach_partition n body ≡ ok tt
      → Facts m IntentKind.detach_partition body
  unfolding parse_body edges among is_text type_key function_key named_relation
  detach_partition-Facts h =
      let all = all_of-All _ h in
      let names = all_named-Names n body ("schema" ∷ "table" ∷ "partition" ∷ []) all.1.0 in
      record {
        schema = names.0;
        table = names.1.0;
        name =
            Reads-absent n body ("kind" ∷ "schema" ∷ "table" ∷ "partition" ∷ []) "name" all.0 refl;
        edges_read = λ s.
            let (t, r) = Reads-named body "partition" names.1.1.0 in (add (dotted s t), rw r refl);
      }

  pub backfill-Facts :
      parse_body pm IntentKind.backfill n body ≡ ok tt → Facts m IntentKind.backfill body
  unfolding parse_body edges among is_text type_key function_key named_relation
  backfill-Facts h =
      let all = all_of-All _ h in
      let names = all_named-Names n body ("schema" ∷ "table" ∷ "key" ∷ []) all.1.1.1.0 in
      record {
        schema = names.0;
        table = names.1.0;
        name =
            Reads-absent n body
              ("kind" ∷ "schema" ∷ "table" ∷ "key" ∷ "set" ∷ "from" ∷ "where" ∷ "verify_remaining"
                ∷ "assert_invariants" ∷ "preserve" ∷ "paced" ∷ [])
              "name" all.0 refl;
        edges_read = λ s. ([], refl);
      }

  pub set_row_security-Facts :
      parse_body pm IntentKind.set_row_security n body ≡ ok tt
      → Facts m IntentKind.set_row_security body
  unfolding parse_body edges among is_text type_key function_key named_relation
  set_row_security-Facts h =
      let all = all_of-All _ h in
      let names = all_named-Names n body ("schema" ∷ "table" ∷ []) all.1.0 in
      record {
        schema = names.0;
        table = names.1.0;
        name =
            Reads-absent n body ("kind" ∷ "schema" ∷ "table" ∷ "enabled" ∷ "force" ∷ []) "name"
              all.0 refl;
        edges_read = λ s. ([], refl);
      }

  pub set_trigger_state-Facts :
      parse_body pm IntentKind.set_trigger_state n body ≡ ok tt
      → Facts m IntentKind.set_trigger_state body
  unfolding parse_body edges among is_text type_key function_key named_relation
  set_trigger_state-Facts h =
      let all = all_of-All _ h in
      let names = all_named-Names n body ("schema" ∷ "table" ∷ "trigger" ∷ []) all.1.0 in
      record {
        schema = names.0;
        table = names.1.0;
        name =
            Reads-absent n body ("kind" ∷ "schema" ∷ "table" ∷ "trigger" ∷ "enabled" ∷ []) "name"
              all.0 refl;
        edges_read = λ s. ([], refl);
      }
