-- ===== src/Repository/Parallel/Safety.antt =====
-- Proofs about cpp/src/repository.h, `parallel_subsets`: what members of a group share.
use pg_laswell.Base.{
  ℕ, zero, suc, true, false, ◌≡◌, ◌⊎◌, inl, inr, refl, ap, String, none, some, List, [], ◌∷◌, ◌++◌,
  length, arith, Option-cases, contains, All, contains-append, ==_iff,
}
use pg_laswell.Repository.Types.{RepoEntry, complete}
use pg_laswell.Repository.Parallel.{
  Verdict, other_database, no_overlap, refused, judge, grown, Gathered, put_in, gather, Group,
  Level, subsets, parallel_subsets, specs, no_groups, led_by, provably_different_databases,
  last_shared,
}

-- No relation is touched by both.
abbrev pub Disjoint : List String → List String → Type 0
Disjoint xs ys = (r : String) → contains xs r ≡ true → contains ys r ≡ false

last_shared-cons :
    (rels ys : List String) (y : String)
    → last_shared rels (y ∷ ys) ≡ none
    → (last_shared rels ys ≡ none) × (contains rels y ≡ false)
unfolding last_shared
last_shared-cons rels ys y h = ground arith

last_shared-none : (rels ys : List String) → last_shared rels ys ≡ none → Disjoint rels ys
last_shared-none rels [] h r m = refl
last_shared-none rels (y ∷ ys) h r m =
    let (later, off) = last_shared-cons rels ys y h in
    ground (arith, last_shared-none rels ys later r m, ==_iff y r)

-- Two specifications have evidence that they are independent: all that they touch is known, and
-- they touch nothing in common.
pub record Independent (a b : RepoEntry) : Type 0 where
  pub first_known : complete a.relations ≡ true
  pub second_known : complete b.relations ≡ true
  pub disjoint : Disjoint a.relations.relations b.relations.relations

-- The leader is provably on another database.
abbrev pub Elsewhere : RepoEntry → RepoEntry → Type 0
Elsewhere i k = provably_different_databases i k ≡ true

-- Each pair of a list is independent, unless one of the two is elsewhere.
abbrev pub Pairwise : RepoEntry → List RepoEntry → Type 0
Pairwise i [] = Unit
Pairwise i (a ∷ rest) =
    All (λ b. Elsewhere i a ⊎ Elsewhere i b ⊎ Independent a b) rest × Pairwise i rest

-- What a verdict rests on.
abbrev pub Grounds : RepoEntry → List String → RepoEntry → Verdict → Type 0
Grounds i rels k other_database = Elsewhere i k
Grounds i rels k no_overlap =
    (complete i.relations ≡ true)
    × (complete k.relations ≡ true)
    × Disjoint rels k.relations.relations
Grounds i rels k (refused why) = Unit

judge-Grounds :
    (i : RepoEntry) (rels : List String) (k : RepoEntry) → Grounds i rels k (judge i rels k)
judge-Grounds i rels k = by_verdict (judge i rels k) refl
  where
    by_verdict : (v : Verdict) → judge i rels k ≡ v → Grounds i rels k v
    by_verdict other_database h = unfold judge in ground arith
    by_verdict no_overlap h =
        unfold judge in
        (ground arith, ground arith, last_shared-none rels k.relations.relations (ground arith))
    by_verdict (refused why) h = tt

-- What whoever joins a group has over against the group's relations at that time.
abbrev Joins : RepoEntry → List String → RepoEntry → Type 0
Joins i rels b =
    Elsewhere i b
    ⊎ (complete i.relations ≡ true)
      × (complete b.relations ≡ true)
      × Disjoint rels b.relations.relations

Disjoint-left : (xs ys zs : List String) → Disjoint (xs ++ ys) zs → Disjoint xs zs
Disjoint-left xs ys zs h r m = h r (ground (arith, contains-append xs ys r))

Disjoint-right : (xs ys zs : List String) → Disjoint (xs ++ ys) zs → Disjoint ys zs
Disjoint-right xs ys zs h r m = h r (ground (arith, contains-append xs ys r))

Joins-grown :
    (i : RepoEntry) (v : Verdict) (rels : List String) (k b : RepoEntry)
    → Joins i (grown v rels k) b
    → Joins i rels b
Joins-grown i other_database rels k b j = j
Joins-grown i (refused why) rels k b j = j
Joins-grown i no_overlap rels k b (inl away) = inl away
Joins-grown i no_overlap rels k b (inr (p, q, d)) =
    inr (p, q, Disjoint-left rels k.relations.relations b.relations.relations d)

All-map {ℓ κ} :
    {A : Type 0} {P : A → Type ℓ} {Q : A → Type κ}
    → ((a : A) → P a → Q a)
    → (xs : List A) → All P xs
    → All Q xs
All-map f [] h = tt
All-map f (x ∷ xs) h = (f x h.0, All-map f xs h.1)

put_in-Joins :
    (i : RepoEntry) (rels : List String) (v : Verdict) (k : RepoEntry) (g : Gathered)
    → Grounds i rels k v
    → All (Joins i (grown v rels k)) g.joined
    → All (Joins i rels) (put_in v k g).joined
put_in-Joins i rels other_database k g h a = (inl h, a)
put_in-Joins i rels no_overlap k g h a =
    (inr h, All-map (Joins-grown i no_overlap rels k) g.joined a)
put_in-Joins i rels (refused why) k g h a = a

gather-Joins :
    (i : RepoEntry) (rels : List String) (ks : List RepoEntry)
    → All (Joins i rels) (gather i rels ks).joined
unfolding gather
gather-Joins i rels [] = tt
gather-Joins i rels (k ∷ ks) =
    let v = judge i rels k in
    put_in-Joins i rels v k (gather i (grown v rels k) ks) (judge-Grounds i rels k)
      (gather-Joins i (grown v rels k) ks)

pair_up :
    (i : RepoEntry) (rels : List String) (k b : RepoEntry)
    → complete k.relations ≡ true
    → Joins i (rels ++ k.relations.relations) b
    → Elsewhere i k ⊎ Elsewhere i b ⊎ Independent k b
pair_up i rels k b c (inl away) = inr (inl away)
pair_up i rels k b c (inr (p, q, d)) = inr (
    inr (record {
      first_known = c;
      second_known = q;
      disjoint = Disjoint-right rels k.relations.relations b.relations.relations d;
    }))

put_in-Pairwise :
    (i : RepoEntry) (rels : List String) (v : Verdict) (k : RepoEntry) (g : Gathered)
    → Grounds i rels k v
    → All (Joins i (grown v rels k)) g.joined
    → Pairwise i g.joined
    → Pairwise i (put_in v k g).joined
put_in-Pairwise i rels other_database k g h a p = (All-map (λ b _. inl h) g.joined a, p)
put_in-Pairwise i rels no_overlap k g h a p = (All-map (λ b. pair_up i rels k b h.1) g.joined a, p)
put_in-Pairwise i rels (refused why) k g h a p = p

gather-Pairwise :
    (i : RepoEntry) (rels : List String) (ks : List RepoEntry)
    → Pairwise i (gather i rels ks).joined
unfolding gather
gather-Pairwise i rels [] = tt
gather-Pairwise i rels (k ∷ ks) =
    let v = judge i rels k in
    put_in-Pairwise i rels v k (gather i (grown v rels k) ks) (judge-Grounds i rels k)
      (gather-Joins i (grown v rels k) ks) (gather-Pairwise i (grown v rels k) ks)

led_pair :
    (i b : RepoEntry)
    → Joins i i.relations.relations b
    → Elsewhere i i ⊎ Elsewhere i b ⊎ Independent i b
led_pair i b (inl away) = inr (inl away)
led_pair i b (inr (p, q, d)) =
    inr (inr (record { first_known = p; second_known = q; disjoint = d }))

abbrev pub IsSafe : Group → Type 0
IsSafe g = Pairwise g.leader (specs g)

subsets-IsSafe :
    (fuel : ℕ) (es : List RepoEntry) (l : Level) → subsets fuel es ≡ some l → All IsSafe l.groups
subsets-IsSafe zero [] l h = rw (← nothing l (unfold subsets in h)) tt
  where
    nothing : (l : Level) → some no_groups ≡ some l → no_groups ≡ l
    nothing l h = cc
subsets-IsSafe zero (i ∷ rest) l h = absurd (unfold subsets in ground arith)
subsets-IsSafe (suc fuel) [] l h = rw (← nothing l (unfold subsets in h)) tt
  where
    nothing : (l : Level) → some no_groups ≡ some l → no_groups ≡ l
    nothing l h = cc
subsets-IsSafe (suc fuel) (i ∷ rest) l h = elim (Option-cases (subsets fuel g.untaken)) [
  | inl e ↦ absurd (unfold subsets in ground arith)
  | inr (m, e) ↦
      let q : led_by i g m ≡ l = unfold subsets in ground arith in
      rw (← q) (
        (
          All-map (led_pair i) g.joined (gather-Joins i i.relations.relations rest),
          gather-Pairwise i i.relations.relations rest,
        ),
        subsets-IsSafe fuel g.untaken m e,
      )
]
  where
    g : Gathered
    g = gather i i.relations.relations rest

-- In every group of a level, of two specifications neither of which is provably on another
-- database than the group's leader, all the relations are known and none is touched by both.
pub parallel_subsets-IsSafe :
    (ready : List RepoEntry) (l : Level) → parallel_subsets ready ≡ some l → All IsSafe l.groups
unfolding parallel_subsets
parallel_subsets-IsSafe ready l h = subsets-IsSafe (length ready) ready l h

gather-Elsewhere :
    (i : RepoEntry) (rels : List String) (ks : List RepoEntry)
    → All (Elsewhere i) ks
    → gather i rels ks ≡ record { joined = ks; rels = rels; undecided = []; untaken = [] }
unfolding gather
gather-Elsewhere i rels [] h = refl
gather-Elsewhere i rels (k ∷ ks) h = rw (elsewhere_verdict, gather-Elsewhere i rels ks h.1) refl
  where
    elsewhere_verdict : judge i rels k ≡ other_database
    elsewhere_verdict = unfold judge in ground (arith, h.0)

subsets-nil : (fuel : ℕ) → subsets fuel [] ≡ some no_groups
unfolding subsets
subsets-nil zero = refl
subsets-nil (suc fuel) = refl

one_group :
    (fuel : ℕ) (i : RepoEntry) (ks : List RepoEntry) (g : Gathered)
    → gather i i.relations.relations ks ≡ g
    → g.untaken ≡ []
    → subsets (suc fuel) (i ∷ ks) ≡ some (led_by i g no_groups)
unfolding subsets
one_group fuel i ks g h n =
    ground (arith, subsets-nil fuel, ap (λ (x : Gathered). led_by i x no_groups) h)

-- The relations of a specification on another database than the leader's are never compared with
-- those of the other members: whoever is provably elsewhere joins the leader's group, also two
-- that are on one database with each other and touch one relation, or whose evidence is
-- incomplete, and nothing is reported as undecided.
pub Elsewhere-joins :
    (i : RepoEntry) (ks : List RepoEntry)
    → All (Elsewhere i) ks
    → parallel_subsets (i ∷ ks)
      ≡ some (
          led_by i
            (record { joined = ks; rels = i.relations.relations; undecided = []; untaken = [] })
            no_groups)
Elsewhere-joins i ks h =
    unfold parallel_subsets in
    one_group (length ks) i ks
      (record { joined = ks; rels = i.relations.relations; undecided = []; untaken = [] })
      (gather-Elsewhere i i.relations.relations ks h) refl
