-- ===== src/Spec/Keys/Rows.antt =====
-- Proofs about cpp/src/spec.h: what the parsers of the kinds that write rows have seen to.
use pg_laswell.Base.{ℕ, ◌≡◌, refl, List, [], ◌∷◌}
use pg_laswell.Base.Bytes.{is_text}
use pg_laswell.Base.Result.{ok}
use pg_laswell.Canonical.Document.{Members}
use pg_laswell.Spec.Checks.{Check}
use pg_laswell.Spec.Kinds.{IntentKind}
use pg_laswell.Spec.Keys.{ModuleKeys, edges, type_key, function_key, named_relation}
use pg_laswell.Spec.Keys.Names.{all_of-All, all_named-Names, Reads-absent}
use pg_laswell.Spec.Keys.Tables.{Facts}
use pg_laswell.Spec.Document.Signed.{among}
use pg_laswell.Spec.Document.Dispatch.{parse_body}

module _ (pm : List ℕ → ℕ → Members → Check) (m : ModuleKeys) (n : ℕ) (body : Members) where
  pub delete_rows-Facts :
      parse_body pm IntentKind.delete_rows n body ≡ ok tt → Facts m IntentKind.delete_rows body
  unfolding parse_body edges among is_text type_key function_key named_relation
  delete_rows-Facts h =
      let all = all_of-All _ h in
      let names = all_named-Names n body ("schema" ∷ "table" ∷ []) all.1.0 in
      record {
        schema = names.0;
        table = names.1.0;
        name =
            Reads-absent n body
              ("kind" ∷ "schema" ∷ "table" ∷ "key" ∷ "where" ∷ "columns" ∷ "values" ∷ "select"
                ∷ "paced" ∷ "verify_remaining" ∷ "preserve" ∷ "assert_invariants" ∷ [])
              "name" all.0 refl;
        edges_read = λ s. ([], refl);
      }

  pub insert_rows-Facts :
      parse_body pm IntentKind.insert_rows n body ≡ ok tt → Facts m IntentKind.insert_rows body
  unfolding parse_body edges among is_text type_key function_key named_relation
  insert_rows-Facts h =
      let all = all_of-All _ h in
      let names = all_named-Names n body ("schema" ∷ "table" ∷ []) all.1.0 in
      record {
        schema = names.0;
        table = names.1.0;
        name =
            Reads-absent n body
              ("kind" ∷ "schema" ∷ "table" ∷ "key" ∷ "columns" ∷ "values" ∷ "select" ∷ "on_conflict"
                ∷ "conflict_target" ∷ "conflict_where" ∷ "update_columns" ∷ "overriding" ∷ "paced"
                ∷ "verify_remaining" ∷ "assert_invariants" ∷ [])
              "name" all.0 refl;
        edges_read = λ s. ([], refl);
      }

  pub update_rows-Facts :
      parse_body pm IntentKind.update_rows n body ≡ ok tt → Facts m IntentKind.update_rows body
  unfolding parse_body edges among is_text type_key function_key named_relation
  update_rows-Facts h =
      let all = all_of-All _ h in
      let names = all_named-Names n body ("schema" ∷ "table" ∷ []) all.1.0 in
      record {
        schema = names.0;
        table = names.1.0;
        name =
            Reads-absent n body
              ("kind" ∷ "schema" ∷ "table" ∷ "key" ∷ "columns" ∷ "values" ∷ "select" ∷ "paced"
                ∷ "verify_remaining" ∷ "preserve" ∷ "assert_invariants" ∷ [])
              "name" all.0 refl;
        edges_read = λ s. ([], refl);
      }

  pub merge_rows-Facts :
      parse_body pm IntentKind.merge_rows n body ≡ ok tt → Facts m IntentKind.merge_rows body
  unfolding parse_body edges among is_text type_key function_key named_relation
  merge_rows-Facts h =
      let all = all_of-All _ h in
      let names = all_named-Names n body ("schema" ∷ "table" ∷ []) all.1.0 in
      record {
        schema = names.0;
        table = names.1.0;
        name =
            Reads-absent n body
              ("kind" ∷ "schema" ∷ "table" ∷ "key" ∷ "columns" ∷ "values" ∷ "select"
                ∷ "when_matched" ∷ "update_columns" ∷ "when_not_matched"
                ∷ "when_not_matched_by_source" ∷ "paced" ∷ "verify_remaining" ∷ "preserve"
                ∷ "assert_invariants" ∷ [])
              "name" all.0 refl;
        edges_read = λ s. ([], refl);
      }

  pub copy_rows-Facts :
      parse_body pm IntentKind.copy_rows n body ≡ ok tt → Facts m IntentKind.copy_rows body
  unfolding parse_body edges among is_text type_key function_key named_relation
  copy_rows-Facts h =
      let all = all_of-All _ h in
      let names = all_named-Names n body ("schema" ∷ "table" ∷ []) all.1.1.0 in
      record {
        schema = names.0;
        table = names.1.0;
        name =
            Reads-absent n body
              ("kind" ∷ "schema" ∷ "table" ∷ "columns" ∷ "values" ∷ "verify_remaining"
                ∷ "assert_invariants" ∷ [])
              "name" all.1.0 refl;
        edges_read = λ s. ([], refl);
      }
