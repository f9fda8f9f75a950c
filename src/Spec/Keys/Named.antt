-- ===== src/Spec/Keys/Named.antt =====
-- Proofs about cpp/src/spec.h: what the parsers of a table's named objects have seen to.
use pg_laswell.Base.{ℕ, ◌≡◌, refl, List, [], ◌∷◌}
use pg_laswell.Base.Bytes.{is_text}
use pg_laswell.Base.Result.{ok}
use pg_laswell.Canonical.Document.{Members}
use pg_laswell.Spec.Checks.{Check}
use pg_laswell.Spec.Kinds.{IntentKind}
use pg_laswell.Spec.Keys.{ModuleKeys, dotted, add, edges, type_key, function_key, named_relation}
use pg_laswell.Spec.Keys.Names.{
  all_of-All, given-IsTextAt, all_named-Names, Reads-text, Reads-named,
}
use pg_laswell.Spec.Keys.Tables.{Facts}
use pg_laswell.Spec.Document.Signed.{among}
use pg_laswell.Spec.Document.Dispatch.{parse_body}

module _ (pm : List ℕ → ℕ → Members → Check) (m : ModuleKeys) (n : ℕ) (body : Members) where
  pub drop_index-Facts :
      parse_body pm IntentKind.drop_index n body ≡ ok tt → Facts m IntentKind.drop_index body
  unfolding parse_body edges among is_text type_key function_key named_relation
  drop_index-Facts h =
      let all = all_of-All _ h in
      let names = all_named-Names n body ("schema" ∷ "table" ∷ "name" ∷ []) all.1.0 in
      record {
        schema = names.0;
        table = names.1.0;
        name = Reads-named body "name" names.1.1.0;
        edges_read = λ s. ([], refl);
      }

  pub drop_constraint-Facts :
      parse_body pm IntentKind.drop_constraint n body ≡ ok tt
      → Facts m IntentKind.drop_constraint body
  unfolding parse_body edges among is_text type_key function_key named_relation
  drop_constraint-Facts h =
      let all = all_of-All _ h in
      let names = all_named-Names n body ("schema" ∷ "table" ∷ "name" ∷ []) all.1.0 in
      record {
        schema = names.0;
        table = names.1.0;
        name = Reads-named body "name" names.1.1.0;
        edges_read = λ s. ([], refl);
      }

  pub drop_policy-Facts :
      parse_body pm IntentKind.drop_policy n body ≡ ok tt → Facts m IntentKind.drop_policy body
  unfolding parse_body edges among is_text type_key function_key named_relation
  drop_policy-Facts h =
      let all = all_of-All _ h in
      let names = all_named-Names n body ("schema" ∷ "table" ∷ "name" ∷ []) all.1.0 in
      record {
        schema = names.0;
        table = names.1.0;
        name = Reads-named body "name" names.1.1.0;
        edges_read = λ s. ([], refl);
      }

  pub drop_rule-Facts :
      parse_body pm IntentKind.drop_rule n body ≡ ok tt → Facts m IntentKind.drop_rule body
  unfolding parse_body edges among is_text type_key function_key named_relation
  drop_rule-Facts h =
      let all = all_of-All _ h in
      let names = all_named-Names n body ("schema" ∷ "table" ∷ "name" ∷ []) all.1.0 in
      record {
        schema = names.0;
        table = names.1.0;
        name = Reads-named body "name" names.1.1.0;
        edges_read = λ s. ([], refl);
      }

  pub drop_trigger-Facts :
      parse_body pm IntentKind.drop_trigger n body ≡ ok tt → Facts m IntentKind.drop_trigger body
  unfolding parse_body edges among is_text type_key function_key named_relation
  drop_trigger-Facts h =
      let all = all_of-All _ h in
      let names = all_named-Names n body ("schema" ∷ "table" ∷ "name" ∷ []) all.1.0 in
      record {
        schema = names.0;
        table = names.1.0;
        name = Reads-named body "name" names.1.1.0;
        edges_read = λ s. ([], refl);
      }

  pub alter_policy-Facts :
      parse_body pm IntentKind.alter_policy n body ≡ ok tt → Facts m IntentKind.alter_policy body
  unfolding parse_body edges among is_text type_key function_key named_relation
  alter_policy-Facts h =
      let all = all_of-All _ h in
      let names = all_named-Names n body ("schema" ∷ "table" ∷ "name" ∷ []) all.1.0 in
      record {
        schema = names.0;
        table = names.1.0;
        name = Reads-named body "name" names.1.1.0;
        edges_read = λ s. ([], refl);
      }

  pub create_index-Facts :
      parse_body pm IntentKind.create_index n body ≡ ok tt → Facts m IntentKind.create_index body
  unfolding parse_body edges among is_text type_key function_key named_relation
  create_index-Facts h =
      let all = all_of-All _ h in
      let names = all_named-Names n body ("schema" ∷ "table" ∷ "name" ∷ []) all.1.0 in
      record {
        schema = names.0;
        table = names.1.0;
        name = Reads-named body "name" names.1.1.0;
        edges_read = λ s. ([], refl);
      }

  pub add_check_constraint-Facts :
      parse_body pm IntentKind.add_check_constraint n body ≡ ok tt
      → Facts m IntentKind.add_check_constraint body
  unfolding parse_body edges among is_text type_key function_key named_relation
  add_check_constraint-Facts h =
      let all = all_of-All _ h in
      let names = all_named-Names n body ("schema" ∷ "table" ∷ "name" ∷ []) all.1.1.0 in
      record {
        schema = names.0;
        table = names.1.0;
        name = Reads-named body "name" names.1.1.0;
        edges_read = λ s. ([], refl);
      }

  pub create_rule-Facts :
      parse_body pm IntentKind.create_rule n body ≡ ok tt → Facts m IntentKind.create_rule body
  unfolding parse_body edges among is_text type_key function_key named_relation
  create_rule-Facts h =
      let all = all_of-All _ h in
      let names = all_named-Names n body ("schema" ∷ "table" ∷ "name" ∷ []) all.1.1.0 in
      record {
        schema = names.0;
        table = names.1.0;
        name = Reads-named body "name" names.1.1.0;
        edges_read = λ s. ([], refl);
      }

  pub create_policy-Facts :
      parse_body pm IntentKind.create_policy n body ≡ ok tt → Facts m IntentKind.create_policy body
  unfolding parse_body edges among is_text type_key function_key named_relation
  create_policy-Facts h =
      let all = all_of-All _ h in
      let names = all_named-Names n body ("schema" ∷ "table" ∷ "name" ∷ []) all.1.1.0 in
      record {
        schema = names.0;
        table = names.1.0;
        name = Reads-named body "name" names.1.1.0;
        edges_read = λ s. ([], refl);
      }

  pub create_trigger-Facts :
      parse_body pm IntentKind.create_trigger n body ≡ ok tt
      → Facts m IntentKind.create_trigger body
  unfolding parse_body edges among is_text type_key function_key named_relation
  create_trigger-Facts h =
      let all = all_of-All _ h in
      let names = all_named-Names n body ("schema" ∷ "table" ∷ "name" ∷ []) all.1.1.0 in
      record {
        schema = names.0;
        table = names.1.0;
        name = Reads-named body "name" names.1.1.0;
        edges_read = λ s.
            let (t, r) =
              Reads-text body "function" (given-IsTextAt n body "function" all.1.1.1.0) in
            (function_key t, rw r refl);
      }

  pub add_foreign_key-Facts :
      parse_body pm IntentKind.add_foreign_key n body ≡ ok tt
      → Facts m IntentKind.add_foreign_key body
  unfolding parse_body edges among is_text type_key function_key named_relation
  add_foreign_key-Facts h =
      let all = all_of-All _ h in
      let names =
        all_named-Names n body
          ("schema" ∷ "table" ∷ "name" ∷ "references_schema" ∷ "references_table" ∷ []) all.1.1.0 in
      record {
        schema = names.0;
        table = names.1.0;
        name = Reads-named body "name" names.1.1.0;
        edges_read = λ s.
            let (rs, r) = Reads-named body "references_schema" names.1.1.1.0 in
            let (t, q) = Reads-named body "references_table" names.1.1.1.1.0 in
            (add (dotted rs t), rw (r, q) refl);
      }
