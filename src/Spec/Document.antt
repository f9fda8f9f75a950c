-- ===== src/Spec/Document.antt =====
-- cpp/src/spec.h: `parse_spec`, the signed projection and the digest. The parsers of the kinds of the
-- core are in `Parse`; that of an extension module's kind, and the hash, are parameters.
pub mod Dispatch
pub mod Signed
pub mod Formed
pub mod Columned
pub mod Rows
use pg_laswell.Base.{
  ℕ, zero, suc, ◌+◌, ◌-◌, ◌%◌, ◌^◌, Bool, true, false, not, String, Option, none, some, List, [],
  ◌∷◌, is_nil, ltb, nat_eq, if◌then◌else◌,
}
use pg_laswell.Base.Int.{ℤ, pos, negsuc}
use pg_laswell.Base.Bytes.{is_text, one_of, text}
use pg_laswell.Base.Result.{Result, ok, err, ◌>>=◌}
use pg_laswell.Canonical.Utf8.{Failure}
use pg_laswell.Canonical.Document.{
  Json, null, float, binary, boolean, integer, unsigned, string, array, object, Items, nil, cons,
  Members, end, field, canonicalize,
}
use pg_laswell.Trust.Entries.{same, to_hex}
use pg_laswell.Spec.Checks.{
  Check, SpecError, refused, type_error, missing_string, not_canonical, Place, the_document,
  the_target, intent, all_of, refuse_if, at_key, contains_key, is_array, is_object,
  is_number_integer, string_or, fails, holds, filled, or_missing, require_string,
  reject_unknown_keys, elements_of,
}
use pg_laswell.Spec.Kinds.{IntentKind, find_kind}
use pg_laswell.Spec.Checks.Integer.{get_int}
use pg_laswell.Spec.Document.Dispatch.{parse_body}

-- In the set's order.
abbrev pub signed_top_level_keys : List String
signed_top_level_keys =
    "depends_on" ∷ "description" ∷ "id" ∷ "intents" ∷ "laswell_spec_version" ∷ "rationale"
    ∷ "release" ∷ "target" ∷ []

-- The members of the document that the parser reads.
pub record Read : Type 0 where
  pub version : Option Json
  pub id : Option Json
  pub description : Option Json
  pub rationale : Option Json
  pub depends_on : Option Json
  pub release : Option Json
  pub target : Option Json
  pub intents : Option Json

unfoldable pub read : Members → Read
read doc = record {
  version = at_key doc "laswell_spec_version";
  id = at_key doc "id";
  description = at_key doc "description";
  rationale = at_key doc "rationale";
  depends_on = at_key doc "depends_on";
  release = at_key doc "release";
  target = at_key doc "target";
  intents = at_key doc "intents";
}

unfoldable pub is_one : ℤ → Bool
is_one (pos n) = nat_eq n 1
is_one (negsuc n) = false

unfoldable pub check_version : Option Json → Check
unfolding is_one get_int
check_version none = err (refused the_document "no integer laswell_spec_version")
check_version (some v) =
    if is_number_integer v
    then (get_int v >>= λ version.
        refuse_if (not (is_one version)) (refused the_document "version is not supported"))
    else err (refused the_document "no integer laswell_spec_version")

-- The loop over `depends_on`.
unfoldable pub dependencies : List ℕ → List Json → Result SpecError (List (List ℕ))
unfolding same
dependencies id [] = ok []
dependencies id (string (c ∷ cs) ∷ ds) =
    if same (c ∷ cs) id
    then err (refused the_document "depends on itself")
    else dependencies id ds >>= λ rest. ok ((c ∷ cs) ∷ rest)
dependencies id (v ∷ ds) =
    err (refused the_document "depends_on entries must be non-empty spec ids")

unfoldable pub parse_depends_on : List ℕ → Option Json → Result SpecError (List (List ℕ))
unfolding dependencies
parse_depends_on id d =
    if fails is_array d
    then err (refused the_document "depends_on must be an array of spec ids")
    else dependencies id (elements_of d)

-- `require_string` where the member is there.
abbrev pub text_if_there : Option Json → Place → String → Result SpecError (List ℕ)
text_if_there none at k = ok []
text_if_there (some v) at k = or_missing (filled (some v)) at k

pub record Target : Type 0 where
  pub connection : List ℕ
  pub database : List ℕ
  pub environment : List ℕ
  pub epoch : List ℕ
  pub min_server_version : ℤ

abbrev pub no_target : Target
no_target = record {
  connection = [];
  database = [];
  environment = [];
  epoch = [];
  min_server_version = pos 0;
}

abbrev pub server_version : Option Json → Result SpecError ℤ
server_version none = ok (pos 0)
server_version (some v) =
    if is_number_integer v
    then get_int v
    else err (refused the_target "min_server_version must be an integer")

unfoldable pub parse_target : Option Json → Result SpecError Target
unfolding get_int
parse_target none = ok no_target
parse_target (some (object t)) = do
  _ ←
      reject_unknown_keys t
        ("connection" ∷ "database" ∷ "environment" ∷ "epoch" ∷ "min_server_version" ∷ []) the_target
  connection ← text_if_there (at_key t "connection") the_target "connection"
  database ← string_or [] (at_key t "database")
  environment ← text_if_there (at_key t "environment") the_target "environment"
  epoch ← text_if_there (at_key t "epoch") the_target "epoch"
  version ← server_version (at_key t "min_server_version")
  ok (record {
    connection = connection;
    database = database;
    environment = environment;
    epoch = epoch;
    min_server_version = version;
  })
parse_target (some v) = err (refused the_document "target must be an object")

pub record Intent : Type 0 where
  pub kind : IntentKind
  pub kind_name : List ℕ
  pub ordinal : ℕ
  pub body : Members

-- What the extension modules of a build add, and how they read it.
pub record Modules : Type 0 where
  pub declares : List ℕ → Bool
  pub parses : List ℕ → ℕ → Members → Check

-- `find` of the kind's name, and the switch over the kinds.
unfoldable pub parse_kind :
    Modules → ℕ → List ℕ → Members → Option IntentKind → Result SpecError Intent
unfolding parse_body
parse_kind m n name body none = err (refused (intent n) "unknown intent kind")
parse_kind m n name body (some kind) = parse_body m.parses kind n body >>= λ _.
    ok (record { kind = kind; kind_name = name; ordinal = n; body = body })

unfoldable pub parse_intent : Modules → ℕ → Json → Result SpecError Intent
unfolding parse_kind find_kind
parse_intent m n (object body) = require_string body "kind" (intent n) >>= λ name.
    parse_kind m n name body (find_kind m.declares name)
parse_intent m n v = err (refused (intent n) "is not an object")

unfoldable pub parse_intents : Modules → ℕ → List Json → Result SpecError (List Intent)
unfolding parse_intent
parse_intents m n [] = ok []
parse_intents m n (v ∷ vs) = do
  i ← parse_intent m n v
  rest ← parse_intents m (suc n) vs
  ok (i ∷ rest)

abbrev pub intents_of : Modules → Option Json → Result SpecError (List Intent)
intents_of m (some (array (cons v vs))) = parse_intents m 0 (elements_of (some (array (cons v vs))))
intents_of m v = err (refused the_document "the spec has no intents")

-- What the parser makes of the members that it reads.
pub record Parts : Type 0 where
  pub id : List ℕ
  pub description : List ℕ
  pub rationale : List ℕ
  pub depends_on : List (List ℕ)
  pub release : List ℕ
  pub target : Target
  pub intents : List Intent

unfoldable pub parse_parts : Modules → Read → Result SpecError Parts
unfolding check_version parse_depends_on parse_target parse_intents
parse_parts m r = do
  _ ← check_version r.version
  id ← or_missing (filled r.id) the_document "id"
  description ← or_missing (filled r.description) the_document "description"
  rationale ← string_or [] r.rationale
  depends_on ← parse_depends_on id r.depends_on
  release ← text_if_there r.release the_document "release"
  target ← parse_target r.target
  intents ← intents_of m r.intents
  ok (record {
    id = id;
    description = description;
    rationale = rationale;
    depends_on = depends_on;
    release = release;
    target = target;
    intents = intents;
  })

abbrev pub signatures_of : Option Json → Result SpecError Json
signatures_of none = ok (array nil)
signatures_of (some (array xs)) = ok (array xs)
signatures_of (some v) = err (refused the_document "signatures must be an array")

-- The allowlisted keys that are there, and nothing else.
abbrev put_if : String → Option Json → Members → Members
put_if k none ms = ms
put_if k (some v) ms = field (text k) v ms

unfoldable pub project : List String → Members → Members
unfolding text
project [] doc = end
project (k ∷ ks) doc = put_if k (at_key doc k) (project ks doc)

-- `canonicalize`, whose failure is another exception than a refusal.
abbrev pub raised_as : Result Failure (List ℕ) → Result SpecError (List ℕ)
raised_as (err f) = err (not_canonical f)
raised_as (ok bytes) = ok bytes

abbrev pub canonical_of : Json → Result SpecError (List ℕ)
canonical_of v = raised_as (canonicalize v)

pub record Spec : Type 0 where
  pub document : Members
  pub signed_projection : Members
  pub canonical_bytes : List ℕ
  pub digest : List ℕ
  pub parts : Parts
  pub signatures : Json

abbrev pub spec_of : (List ℕ → List ℕ) → Members → Members → Parts → Json → List ℕ → Spec
spec_of sha256 doc signed parts signatures bytes = record {
  document = doc;
  signed_projection = signed;
  canonical_bytes = bytes;
  digest = to_hex (sha256 bytes);
  parts = parts;
  signatures = signatures;
}

module _ (m : Modules) (sha256 : List ℕ → List ℕ) where
  unfoldable pub parse_document : Members → Result SpecError Spec
  unfolding parse_parts read project
  parse_document doc = do
    _ ← reject_unknown_keys doc ("signatures" ∷ signed_top_level_keys) the_document
    parts ← parse_parts m (read doc)
    signatures ← signatures_of (at_key doc "signatures")
    bytes ← canonical_of (object (project signed_top_level_keys doc))
    ok (spec_of sha256 doc (project signed_top_level_keys doc) parts signatures bytes)

  unfoldable pub parse_spec : Json → Result SpecError Spec
  unfolding parse_document
  parse_spec (object doc) = parse_document doc
  parse_spec v = err (refused the_document "the spec is not a JSON object")
