-- ===== src/Deploy/Run/InOrder.antt =====
-- Proofs about cpp/src/deploy.h, `run`: its loops over the levels and their groups.
use pg_laswell.Base.{
  ℕ, ◌+◌, Bool, true, false, ◌||◌, ◌≡◌, inl, inr, refl, ap, String, List, [], ◌∷◌, ◌++◌, contains,
  keep, concat, All, arith, ==_refl, contains-append, concat-append, Bool-cases,
}
use mathlib.Core.List.{append_assoc, append-nil}
use pg_laswell.Base.Counting.{count, count-append, count_pos, contains-keep}
use pg_laswell.Repository.Types.{RepoEntry}
use pg_laswell.Repository.Order.{depends_of}
use pg_laswell.Repository.Order.Deps.{Met}
use pg_laswell.Deploy.Group.{
  is_ok, refused, repo_problem, config_problem, interrupted, Entry, World, Phase, open_loop,
  draining, ended, Group, Turn, open_with, run_group,
}
use pg_laswell.Deploy.Group.Attempts.{IsFailing}
use pg_laswell.Deploy.Group.Invariant.{In, run_group_keeps}
use pg_laswell.Deploy.Group.Outcome.{
  start_count, plan_count, end_count, AllSucceeded, Sound, Closing, Open, group_steps,
}
use pg_laswell.Deploy.Chain.{would_run}
use pg_laswell.Deploy.Run.{
  Progress, going, stops, waits, followed, closed, first_turns, later_turns, deploy_group,
  deploy_groups, deploy_levels,
}
use pg_laswell.Deploy.Run.Log.{DepsMet, DepsMet_later, succeeded_of_end, plan_count-wet}

-- Every dependency of a member of a level is applied, or stands in an earlier level.
abbrev pub OrderMet : List RepoEntry → List String → List (List (List String)) → Type 0
OrderMet es before [] = Unit
OrderMet es before (groups ∷ levels) =
    ((id d : String)
      → contains (concat groups) id ≡ true
      → contains (depends_of es id) d ≡ true
      → Met es before d)
    × OrderMet es (before ++ concat groups) levels

keep-append : (p : String → Bool) (xs ys : List String) → keep p (xs ++ ys) ≡ keep p xs ++ keep p ys
keep-append p [] ys = refl
keep-append p (x ∷ xs) ys = ground (arith, keep-append p xs ys)

contains_parts :
    (xss yss : List (List String)) (x : String)
    → contains (concat (xss ++ yss)) x ≡ (contains (concat xss) x || contains (concat yss) x)
contains_parts xss yss x = rw (concat-append xss yss) (contains-append (concat xss) (concat yss) x)

module _ (w : World) (dry_run : Bool) (es : List RepoEntry) where
  -- What makes a specification ready to start, which only matters outside a dry run.
  abbrev pub IsReady : String → List Entry → Type 0
  IsReady id l = dry_run ≡ false → DepsMet es id l

  -- The log between two groups, when `done` has been through it.
  pub record Between (done : List String) (l : List Entry) : Type 0 where
    pub even : (x : String) → end_count x l ≡ start_count x l
    pub accounts : (x : String) → plan_count x l + start_count x l ≡ count x done
    pub clean : AllSucceeded l
    pub sound : Sound w dry_run IsReady l

  -- The log when the deployment stopped, or waits for another turn.
  abbrev pub After : List String → Progress → Type 0
  After done (going tss l) = Between done l
  After done (stops r l) =
      IsFailing r × (((x : String) → end_count x l ≡ start_count x l) × Sound w dry_run IsReady l)
  After done (waits l) = Sound w dry_run IsReady l

module _ (w : World) (dry_run : Bool) (cap : ℕ) (es : List RepoEntry) where
  IsReady-at :
      (before done : List String) (l : List Entry) (id : String)
      → Between w dry_run es done l
      → ((d : String) → contains before d ≡ true → contains done d ≡ true)
      → ((d : String) → contains (depends_of es id) d ≡ true → Met es before d)
      → IsReady w dry_run es id l
  IsReady-at before done l id h covers met wet d k e f = elim (met d k e f) [
    | inl there ↦ inl there
    | inr earlier ↦ inr (
        succeeded_of_end d l h.clean (
          omega (
            arith,
            h.even d,
            h.accounts d,
            plan_count-wet w dry_run (IsReady w dry_run es) d l h.sound wet,
            count_pos d done (covers d earlier),
          )))
  ]

  closed-After :
      (done : List String) (T : String → ℕ) (g : Group) (p : Phase) (tss : List (List Turn))
      → ((x : String) → T x ≡ count x done)
      → In w dry_run cap
          (Open w dry_run cap (IsReady w dry_run es) T)
          (Closing w dry_run cap (IsReady w dry_run es) T)
          (group_steps w dry_run cap
            (IsReady w dry_run es)
            T
            (λ i e l h wet. DepsMet_later es i e l (h wet)))
          p
          g
      → After w dry_run es done (closed p tss g.log)
  closed-After done T g open_loop tss t h = h.closing.sound
  closed-After done T g (draining r) tss t h = h.1.sound
  closed-After done T g (ended is_ok) tss t (h, (r, v)) = record {
    even = λ x. ground (arith, h.closing.balance x, r);
    accounts = λ x. ground (arith, h.accounts x, v, t x);
    clean = h.clean;
    sound = h.closing.sound;
  }
  closed-After done T g (ended refused) tss t (h, r) =
      (tt, (λ x. ground (arith, h.balance x, r), h.sound))
  closed-After done T g (ended repo_problem) tss t (h, r) =
      (tt, (λ x. ground (arith, h.balance x, r), h.sound))
  closed-After done T g (ended config_problem) tss t (h, r) =
      (tt, (λ x. ground (arith, h.balance x, r), h.sound))
  closed-After done T g (ended interrupted) tss t (h, r) =
      (tt, (λ x. ground (arith, h.balance x, r), h.sound))

  followed-After :
      (done done' : List String) (p : Progress) (go : List (List Turn) → List Entry → Progress)
      → After w dry_run es done p
      → ((tss : List (List Turn)) (l : List Entry)
          → Between w dry_run es done l
          → After w dry_run es done' (go tss l))
      → After w dry_run es done' (followed p go)
  followed-After done done' (going tss l) go h k = k tss l h
  followed-After done done' (stops r l) go h k = h
  followed-After done done' (waits l) go h k = h

  deploy_group-After :
      (done ids : List String) (tss : List (List Turn)) (l : List Entry)
      → Between w dry_run es done l
      → All (λ id. IsReady w dry_run es id l) ids
      → After w dry_run es (done ++ ids) (deploy_group w dry_run cap es ids tss l)
  unfolding deploy_group
  deploy_group-After done [] tss l h k = rw (append-nil done) h
  deploy_group-After done (id ∷ ids) tss l h k =
      closed-After (done ++ id ∷ ids) T g g.phase (later_turns tss)
        (λ x. omega (arith, count-append x done (id ∷ ids)))
        (run_group_keeps w dry_run cap (Open w dry_run cap (IsReady w dry_run es) T)
          (Closing w dry_run cap (IsReady w dry_run es) T)
          (group_steps w dry_run cap (IsReady w dry_run es) T
            (λ i e l h wet. DepsMet_later es i e l (h wet)))
          (first_turns tss) (open_with (id ∷ ids) [] l) start)
    where
      T : String → ℕ
      T x = count x (id ∷ ids) + count x done

      g : Group
      g = run_group w dry_run cap (first_turns tss) (open_with (id ∷ ids) [] l)

      start : Open w dry_run cap (IsReady w dry_run es) T (id ∷ ids) [] l
      start = record {
        closing = record {
          balance = λ x. omega (arith, h.even x);
          ceiling = omega arith;
          sound = h.sound;
        };
        accounts = λ x. ap (λ n. count x (id ∷ ids) + n) (h.accounts x);
        clean = h.clean;
        ready = k;
      }

  All-kept :
      (P : String → Type 0) (ids : List String)
      → ((id : String) → contains ids id ≡ true → P id)
      → All P (keep (would_run es) ids)
  All-kept P [] h = tt
  All-kept P (id ∷ ids) h = elim (Bool-cases (would_run es id)) [
    | inl runs ↦
        rw runs (h id (ground (arith, ==_refl id)), All-kept P ids (λ x m. h x (ground arith)))
    | inr out ↦ rw out (All-kept P ids (λ x m. h x (ground arith)))
  ]

  deploy_groups-After :
      (before done : List String) (groups : List (List String)) (tss : List (List Turn))
      (l : List Entry)
      → ((d : String) → contains before d ≡ true → contains done d ≡ true)
      → ((id d : String)
          → contains (concat groups) id ≡ true
          → contains (depends_of es id) d ≡ true
          → Met es before d)
      → Between w dry_run es done l
      → After w dry_run es
          (done ++ keep (would_run es) (concat groups))
          (deploy_groups w dry_run cap es groups tss l)
  unfolding deploy_groups
  deploy_groups-After before done [] tss l covers met h = rw (append-nil done) h
  deploy_groups-After before done (ids ∷ groups) tss l covers met h =
      rw
        (
          keep-append (would_run es) ids (concat groups),
          ← append_assoc done (keep (would_run es) ids) (keep (would_run es) (concat groups)),
        )
        (followed-After (done ++ keep (would_run es) ids)
          ((done ++ keep (would_run es) ids) ++ keep (would_run es) (concat groups))
          (deploy_group w dry_run cap es (keep (would_run es) ids) tss l)
          (deploy_groups w dry_run cap es groups)
          (deploy_group-After done (keep (would_run es) ids) tss l h (
            All-kept (λ id. IsReady w dry_run es id l) ids
              (λ id m.
                IsReady-at before done l id h covers
                  (λ d. met id d (ground (arith, contains-append ids (concat groups) id))))))
          (λ tss' l' h'.
            deploy_groups-After before (done ++ keep (would_run es) ids) groups tss' l'
              (λ d m. ground (arith, covers d m, contains-append done (keep (would_run es) ids) d))
              (λ id d m. met id d (ground (arith, contains-append ids (concat groups) id))) h'))

  pub deploy_levels-After :
      (before done : List String) (levels : List (List (List String))) (tss : List (List Turn))
      (l : List Entry)
      → ((d : String) → contains before d ≡ true → contains done d ≡ true)
      → ((id : String) → contains (concat (concat levels)) id ≡ true → would_run es id ≡ true)
      → OrderMet es before levels
      → Between w dry_run es done l
      → After w dry_run es
          (done ++ keep (would_run es) (concat (concat levels)))
          (deploy_levels w dry_run cap es levels tss l)
  unfolding deploy_levels
  deploy_levels-After before done [] tss l covers runs met h = rw (append-nil done) h
  deploy_levels-After before done (groups ∷ levels) tss l covers runs met h =
      rw
        (
          concat-append groups (concat levels),
          keep-append (would_run es) (concat groups) (concat (concat levels)),
          ← append_assoc done (keep (would_run es) (concat groups))
              (keep (would_run es) (concat (concat levels))),
        )
        (followed-After (done ++ keep (would_run es) (concat groups))
          ((done ++ keep (would_run es) (concat groups))
            ++ keep (would_run es) (concat (concat levels)))
          (deploy_groups w dry_run cap es groups tss l) (deploy_levels w dry_run cap es levels)
          (deploy_groups-After before done groups tss l covers met.0 h)
          (λ tss' l' h'.
            deploy_levels-After (before ++ concat groups)
              (done ++ keep (would_run es) (concat groups)) levels tss' l'
              (λ d m. ground (
                arith,
                covers d,
                runs d,
                contains_parts groups (concat levels) d,
                contains-append before (concat groups) d,
                contains-append done (keep (would_run es) (concat groups)) d,
                contains-keep (would_run es) d (concat groups),
              ))
              (λ id m. runs id (ground (arith, contains_parts groups (concat levels) id))) met.1
              h'))
