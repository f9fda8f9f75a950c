-- ===== src/Repository/Drift/Keys.antt =====
-- Proofs about cpp/src/repository.h, the drift check of `scan`: its keys, an epoch and an id.
use Prim.Native.Char.{Char, code, nul}
use Prim.Native.String.{[] as done, ◌∷◌ as ◌then◌, ◌++◌ as append_text}
use text.Mathlib.TextLemmas.{nil-append, cons-append}
use pg_laswell.Base.{
  true, false, ◌≡◌, ◌≢◌, ◌⊎◌, inl, inr, refl, sym, ap, ap₂, ◌∙◌, String, List, [], ◌∷◌, ◌==◌,
  contains, arith, All, Bool-cases, ==_iff,
}
use pg_laswell.Repository.Types.{RepoEntry}
use pg_laswell.Repository.Drift.{disk_key, on_disk, epochs_claimed}

-- A text without the byte that separates the parts of a key.
abbrev pub NoSeparator : String → Type 0
NoSeparator done = Unit
NoSeparator (c then s) = (code c ≢ 31) × NoSeparator s

abbrev first_or : Char → String → Char
first_or c done = c
first_or c (d then s) = d

abbrev behind : String → String
behind done = done
behind (c then s) = s

split_at :
    (k : Char) (x y a b : String)
    → code k ≡ 31
    → NoSeparator x
    → NoSeparator y
    → append_text x (k then a) ≡ append_text y (k then b)
    → (x ≡ y) × (a ≡ b)
split_at k done done a b z h l e =
    (refl, ap behind (sym (nil-append (k then a)) ∙ e ∙ nil-append (k then b)))
split_at k done (d then y) a b z h l e =
    let q = sym (nil-append (k then a)) ∙ e ∙ cons-append d y (k then b) in
    absurd (l.0 (ap code (sym (ap (first_or d) q)) ∙ z))
split_at k (c then x) done a b z h l e =
    let q = sym (cons-append c x (k then a)) ∙ e ∙ nil-append (k then b) in
    absurd (h.0 (ap code (ap (first_or c) q) ∙ z))
split_at k (c then x) (d then y) a b z h l e =
    let q = sym (cons-append c x (k then a)) ∙ e ∙ cons-append d y (k then b) in
    let (p, r) = split_at k x y a b z h.1 l.1 (ap behind q) in
    (ap₂ (λ (u : Char) (v : String). u then v) (ap (first_or c) q) p, r)

abbrev separator : Char
separator = first_or nul "\u{1f}"

separated : (a : String) → append_text "\u{1f}" a ≡ separator then a
separated a = cons-append separator "" a ∙ ap (λ t. separator then t) (nil-append a)

-- A key tells its epoch and its id.
disk_key_inj :
    (epoch id e i : String)
    → NoSeparator epoch
    → NoSeparator e
    → disk_key epoch id ≡ disk_key e i
    → (epoch ≡ e) × (id ≡ i)
unfolding disk_key
disk_key_inj epoch id e i h k q =
    split_at separator epoch e id i refl h k
      (ap (append_text epoch) (sym (separated id)) ∙ q ∙ ap (append_text e) (separated i))

-- A file of the listing has the id, in the epoch.
abbrev pub HasFile : List RepoEntry → String → String → Type 0
HasFile [] epoch id = ⊥
HasFile (e ∷ es) epoch id =
    (((e.spec_id == "") ≡ false) × (e.epoch ≡ epoch) × (e.spec_id ≡ id)) ⊎ HasFile es epoch id

-- A file of the listing with an id is in the epoch.
abbrev pub Claims : List RepoEntry → String → Type 0
Claims [] epoch = ⊥
Claims (e ∷ es) epoch = (((e.spec_id == "") ≡ false) × (e.epoch ≡ epoch)) ⊎ Claims es epoch

abbrev pub Separable : RepoEntry → Type 0
Separable e = NoSeparator e.epoch

pub on_disk-HasFile :
    (es : List RepoEntry) (epoch id : String)
    → NoSeparator epoch
    → All Separable es
    → contains (on_disk es) (disk_key epoch id) ≡ true
    → HasFile es epoch id
unfolding on_disk
on_disk-HasFile [] epoch id n all h = absurd (ground arith)
on_disk-HasFile (e ∷ es) epoch id n all h = elim (Bool-cases (e.spec_id == "")) [
  | inl bare ↦ inr (on_disk-HasFile es epoch id n all.1 (rw bare at h))
  | inr named ↦ elim (Bool-cases (disk_key e.epoch e.spec_id == disk_key epoch id)) [
    | inl here ↦
        let q = (==_iff (disk_key e.epoch e.spec_id) (disk_key epoch id)).0 here in
        let (p, r) = disk_key_inj e.epoch e.spec_id epoch id all.0 n q in inl (named, p, r)
    | inr away ↦ inr (on_disk-HasFile es epoch id n all.1 (ground arith))
  ]
]

pub Claims-epochs_claimed :
    (es : List RepoEntry) (epoch : String)
    → Claims es epoch
    → contains (epochs_claimed es) epoch ≡ true
unfolding epochs_claimed
Claims-epochs_claimed [] epoch h = absurd h
Claims-epochs_claimed (e ∷ es) epoch (inl (named, q)) = ground (arith, ==_iff e.epoch epoch)
Claims-epochs_claimed (e ∷ es) epoch (inr h) = ground (arith, Claims-epochs_claimed es epoch h)
