-- ===== src/Spec/Keys/Columns.antt =====
-- Proofs about cpp/src/spec.h: what the parsers of columns have seen to.
use pg_laswell.Base.{ℕ, ◌≡◌, refl, List, [], ◌∷◌}
use pg_laswell.Base.Bytes.{is_text}
use pg_laswell.Base.Result.{ok}
use pg_laswell.Canonical.Document.{Members}
use pg_laswell.Spec.Checks.{Check}
use pg_laswell.Spec.Kinds.{IntentKind}
use pg_laswell.Spec.Keys.{ModuleKeys, edges, type_key, function_key, named_relation}
use pg_laswell.Spec.Keys.Names.{
  all_of-All, given-IsTextAt, all_named-Names, Reads-text, Reads-absent,
}
use pg_laswell.Spec.Keys.Tables.{Facts}
use pg_laswell.Spec.Document.Signed.{among}
use pg_laswell.Spec.Document.Dispatch.{parse_body}

module _ (pm : List ℕ → ℕ → Members → Check) (m : ModuleKeys) (n : ℕ) (body : Members) where
  pub add_column-Facts :
      parse_body pm IntentKind.add_column n body ≡ ok tt → Facts m IntentKind.add_column body
  unfolding parse_body edges among is_text type_key function_key named_relation
  add_column-Facts h =
      let all = all_of-All _ h in
      let names = all_named-Names n body ("schema" ∷ "table" ∷ "column" ∷ []) all.1.0 in
      record {
        schema = names.0;
        table = names.1.0;
        name =
            Reads-absent n body
              ("kind" ∷ "schema" ∷ "table" ∷ "column" ∷ "type" ∷ "nullable" ∷ "default" ∷ "comment"
                ∷ "fill" ∷ "key" ∷ "after" ∷ "paced" ∷ [])
              "name" all.0 refl;
        edges_read = λ s.
            let (t, r) = Reads-text body "type" (given-IsTextAt n body "type" all.1.1.0) in
            (type_key t, rw r refl);
      }

  pub alter_column_type-Facts :
      parse_body pm IntentKind.alter_column_type n body ≡ ok tt
      → Facts m IntentKind.alter_column_type body
  unfolding parse_body edges among is_text type_key function_key named_relation
  alter_column_type-Facts h =
      let all = all_of-All _ h in
      let names = all_named-Names n body ("schema" ∷ "table" ∷ "column" ∷ []) all.1.0 in
      record {
        schema = names.0;
        table = names.1.0;
        name =
            Reads-absent n body ("kind" ∷ "schema" ∷ "table" ∷ "column" ∷ "type" ∷ "using" ∷ [])
              "name" all.0 refl;
        edges_read = λ s.
            let (t, r) = Reads-text body "type" (given-IsTextAt n body "type" all.1.1.0) in
            (type_key t, rw r refl);
      }

  pub drop_column-Facts :
      parse_body pm IntentKind.drop_column n body ≡ ok tt → Facts m IntentKind.drop_column body
  unfolding parse_body edges among is_text type_key function_key named_relation
  drop_column-Facts h =
      let all = all_of-All _ h in
      let names = all_named-Names n body ("schema" ∷ "table" ∷ "column" ∷ []) all.1.0 in
      record {
        schema = names.0;
        table = names.1.0;
        name = Reads-absent n body ("kind" ∷ "schema" ∷ "table" ∷ "column" ∷ []) "name" all.0 refl;
        edges_read = λ s. ([], refl);
      }

  pub set_not_null-Facts :
      parse_body pm IntentKind.set_not_null n body ≡ ok tt → Facts m IntentKind.set_not_null body
  unfolding parse_body edges among is_text type_key function_key named_relation
  set_not_null-Facts h =
      let all = all_of-All _ h in
      let names = all_named-Names n body ("schema" ∷ "table" ∷ "column" ∷ []) all.1.0 in
      record {
        schema = names.0;
        table = names.1.0;
        name =
            Reads-absent n body ("kind" ∷ "schema" ∷ "table" ∷ "column" ∷ "keep_check" ∷ []) "name"
              all.0 refl;
        edges_read = λ s. ([], refl);
      }

  pub drop_not_null-Facts :
      parse_body pm IntentKind.drop_not_null n body ≡ ok tt → Facts m IntentKind.drop_not_null body
  unfolding parse_body edges among is_text type_key function_key named_relation
  drop_not_null-Facts h =
      let all = all_of-All _ h in
      let names = all_named-Names n body ("schema" ∷ "table" ∷ "column" ∷ []) all.1.0 in
      record {
        schema = names.0;
        table = names.1.0;
        name = Reads-absent n body ("kind" ∷ "schema" ∷ "table" ∷ "column" ∷ []) "name" all.0 refl;
        edges_read = λ s. ([], refl);
      }

  pub drop_expression-Facts :
      parse_body pm IntentKind.drop_expression n body ≡ ok tt
      → Facts m IntentKind.drop_expression body
  unfolding parse_body edges among is_text type_key function_key named_relation
  drop_expression-Facts h =
      let all = all_of-All _ h in
      let names = all_named-Names n body ("schema" ∷ "table" ∷ "column" ∷ []) all.1.0 in
      record {
        schema = names.0;
        table = names.1.0;
        name = Reads-absent n body ("kind" ∷ "schema" ∷ "table" ∷ "column" ∷ []) "name" all.0 refl;
        edges_read = λ s. ([], refl);
      }

  pub alter_column_default-Facts :
      parse_body pm IntentKind.alter_column_default n body ≡ ok tt
      → Facts m IntentKind.alter_column_default body
  unfolding parse_body edges among is_text type_key function_key named_relation
  alter_column_default-Facts h =
      let all = all_of-All _ h in
      let names = all_named-Names n body ("schema" ∷ "table" ∷ "column" ∷ []) all.1.0 in
      record {
        schema = names.0;
        table = names.1.0;
        name =
            Reads-absent n body ("kind" ∷ "schema" ∷ "table" ∷ "column" ∷ "default" ∷ []) "name"
              all.0 refl;
        edges_read = λ s. ([], refl);
      }

  pub set_identity-Facts :
      parse_body pm IntentKind.set_identity n body ≡ ok tt → Facts m IntentKind.set_identity body
  unfolding parse_body edges among is_text type_key function_key named_relation
  set_identity-Facts h =
      let all = all_of-All _ h in
      let names = all_named-Names n body ("schema" ∷ "table" ∷ "column" ∷ []) all.1.0 in
      record {
        schema = names.0;
        table = names.1.0;
        name =
            Reads-absent n body ("kind" ∷ "schema" ∷ "table" ∷ "column" ∷ "identity" ∷ []) "name"
              all.0 refl;
        edges_read = λ s. ([], refl);
      }

  pub set_column_options-Facts :
      parse_body pm IntentKind.set_column_options n body ≡ ok tt
      → Facts m IntentKind.set_column_options body
  unfolding parse_body edges among is_text type_key function_key named_relation
  set_column_options-Facts h =
      let all = all_of-All _ h in
      let names = all_named-Names n body ("schema" ∷ "table" ∷ "column" ∷ []) all.1.0 in
      record {
        schema = names.0;
        table = names.1.0;
        name =
            Reads-absent n body
              ("kind" ∷ "schema" ∷ "table" ∷ "column" ∷ "statistics" ∷ "storage" ∷ "compression"
                ∷ [])
              "name" all.0 refl;
        edges_read = λ s. ([], refl);
      }

  pub set_table_options-Facts :
      parse_body pm IntentKind.set_table_options n body ≡ ok tt
      → Facts m IntentKind.set_table_options body
  unfolding parse_body edges among is_text type_key function_key named_relation
  set_table_options-Facts h =
      let all = all_of-All _ h in
      let names = all_named-Names n body ("schema" ∷ "table" ∷ []) all.1.0 in
      record {
        schema = names.0;
        table = names.1.0;
        name =
            Reads-absent n body ("kind" ∷ "schema" ∷ "table" ∷ "options" ∷ "reset" ∷ []) "name"
              all.0 refl;
        edges_read = λ s. ([], refl);
      }

  pub set_logged-Facts :
      parse_body pm IntentKind.set_logged n body ≡ ok tt → Facts m IntentKind.set_logged body
  unfolding parse_body edges among is_text type_key function_key named_relation
  set_logged-Facts h =
      let all = all_of-All _ h in
      let names = all_named-Names n body ("schema" ∷ "table" ∷ []) all.1.0 in
      record {
        schema = names.0;
        table = names.1.0;
        name = Reads-absent n body ("kind" ∷ "schema" ∷ "table" ∷ "logged" ∷ []) "name" all.0 refl;
        edges_read = λ s. ([], refl);
      }

  pub set_tablespace-Facts :
      parse_body pm IntentKind.set_tablespace n body ≡ ok tt
      → Facts m IntentKind.set_tablespace body
  unfolding parse_body edges among is_text type_key function_key named_relation
  set_tablespace-Facts h =
      let all = all_of-All _ h in
      let names = all_named-Names n body ("schema" ∷ "table" ∷ "tablespace" ∷ []) all.1.0 in
      record {
        schema = names.0;
        table = names.1.0;
        name =
            Reads-absent n body ("kind" ∷ "schema" ∷ "table" ∷ "tablespace" ∷ []) "name" all.0 refl;
        edges_read = λ s. ([], refl);
      }
