-- ===== src/Archive/Sharing.antt =====
-- What a nucleus hash depends on: `nucleus_hash` of src/desmata/cell_archive.py.
use desmata.Prelude.{ℕ, true, ◌≡◌, refl, ap, ◌∙◌, List, [], ◌∷◌, arith}
use desmata.Prelude.Results.{Result, ok, err, invalid_cell, ◌>>=◌}
use desmata.Prelude.Texts.{Text, eq_text_refl}
use desmata.Wit.{among}
use desmata.Archive.Cell.{
  CellDir, declaration, listed_names, nucleus_names, existing, missing, nucleus_files,
}
use desmata.Archive.Manifest.{
  Manifest, nucleus, Ipfs, require_nucleus, entries, store_nucleus, nucleus_manifest,
}

-- Two directories hold the same under a name.
pub record Agree (d d' : CellDir) (n : Text) : Type 0 where
  pub exists : d.exists n ≡ d'.exists n
  pub read : d.read n ≡ d'.read n
  pub relative : d.relative n ≡ d'.relative n

-- Two directories hold the same nucleus: the same declaration, and the same under each of its names.
pub record SameNucleus (d d' : CellDir) : Type 0 where
  pub declared : d.exists declaration ≡ d'.exists declaration
  pub text : d.read_text declaration ≡ d'.read_text declaration
  pub files : (n : Text) → among n (nucleus_names d) ≡ true → Agree d d' n

module _ (d d' : CellDir) where
  abbrev AgreeOn : List Text → Type 0
  AgreeOn ns = (n : Text) → among n ns ≡ true → Agree d d' n

  first : (n : Text) (ns : List Text) → AgreeOn (n ∷ ns) → Agree d d' n
  unfolding among
  first n ns h = h n (rw (eq_text_refl n) refl)

  later : (n : Text) (ns : List Text) → AgreeOn (n ∷ ns) → AgreeOn ns
  unfolding among
  later n ns h m a = h m (ground arith)

  missing-agree : (ns : List Text) → AgreeOn ns → missing d ns ≡ missing d' ns
  unfolding missing
  missing-agree [] h = refl
  missing-agree (n ∷ ns) h = rw ((first n ns h).exists, missing-agree ns (later n ns h)) refl

  existing-agree : (ns : List Text) → AgreeOn ns → existing d ns ≡ existing d' ns
  unfolding existing
  existing-agree [] h = refl
  existing-agree (n ∷ ns) h = rw ((first n ns h).exists, existing-agree ns (later n ns h)) refl

  among-existing : (n : Text) (ns : List Text) → among n (existing d ns) ≡ true → among n ns ≡ true
  unfolding among existing
  among-existing n [] h = h
  among-existing n (m ∷ ns) h = ground (arith, among-existing n ns)

  among-nucleus_files :
      (n : Text) → among n (nucleus_files d) ≡ true → among n (nucleus_names d) ≡ true
  unfolding nucleus_files
  among-nucleus_files n a = among-existing n (nucleus_names d) a

  nucleus_names-same : SameNucleus d d' → nucleus_names d ≡ nucleus_names d'
  unfolding nucleus_names listed_names
  nucleus_names-same h = rw (h.declared, h.text) refl

  nucleus_files-same : SameNucleus d d' → nucleus_files d ≡ nucleus_files d'
  unfolding nucleus_files
  nucleus_files-same h =
      existing-agree (nucleus_names d) h.files ∙ ap (existing d') (nucleus_names-same h)

  require_nucleus-same : SameNucleus d d' → require_nucleus d ≡ require_nucleus d'
  unfolding require_nucleus
  require_nucleus-same h =
      ap (λ ns. elim ns [ [] ↦ ok tt | m ∷ ms ↦ err invalid_cell ])
        (missing-agree (nucleus_names d) h.files ∙ ap (missing d') (nucleus_names-same h))

module _ (I : Ipfs) where
  -- A CID is a function of what was stored.
  pub record Addresses : Type 0 where
    pub add_cid : (b : List ℕ) (r r' : I.Repo) → (I.add b r).0 ≡ (I.add b r').0
    pub put_cid : (m : Manifest) (r r' : I.Repo) → (I.dag_put m r).0 ≡ (I.dag_put m r').0

  -- A result, without the repository.
  abbrev pub result_of : {A : Type 0} → Result (A × I.Repo) → Result A
  result_of o = o >>= λ (a, r). ok a

  module _ (laws : Addresses) where
    ok-injective : {A : Type 0} {a b : A} → ◌≡◌ {A = Result A} (ok a) (ok b) → a ≡ b
    ok-injective p = cc

    bind_agree :
        {A : Type 0} {B : Type 0} (m : Result A) (f g : A → Result (B × I.Repo))
        → ((a : A) → result_of (f a) ≡ result_of (g a))
        → result_of (m >>= f) ≡ result_of (m >>= g)
    bind_agree (ok a) f g h = h a
    bind_agree (err e) f g h = refl

    -- A step that looks at the result, and returns a result that depends on nothing else.
    then_agree :
        {A : Type 0} {B : Type 0} (o o' : Result (A × I.Repo)) (f g : A → I.Repo → B × I.Repo)
        → result_of o ≡ result_of o'
        → ((a : A) (r r' : I.Repo) → (f a r).0 ≡ (g a r').0)
        → result_of (o >>= λ (a, r). ok (f a r)) ≡ result_of (o' >>= λ (a, r). ok (g a r))
    then_agree (ok (a, r)) (ok (b, r')) f g p h =
        ap ok (h a r r') ∙ ap (λ a. ok (g a r').0) (ok-injective p)
    then_agree (ok (a, r)) (err e) f g p h = cc
    then_agree (err e) (ok (b, r')) f g p h = cc
    then_agree (err e) (err e') f g p h = cc

    entries-agree :
        (d d' : CellDir) (ns : List Text) (r r' : I.Repo)
        → AgreeOn d d' ns
        → result_of (entries I d ns r) ≡ result_of (entries I d' ns r')
    unfolding entries
    entries-agree d d' [] r r' h = refl
    entries-agree d d' (n ∷ ns) r r' h =
        rw (← (first d d' n ns h).relative, ← (first d d' n ns h).read)
          (bind_agree (d.relative n) _ _ (λ name. bind_agree (d.read n) _ _ (λ b.
            then_agree (entries I d ns (I.add b r).1) (entries I d' ns (I.add b r').1) _ _
              (entries-agree d d' ns _ _ (later d d' n ns h))
              (λ es s s'. rw (laws.add_cid b r r') refl))))

    nucleus_entries-agree :
        (d d' : CellDir) (r r' : I.Repo)
        → SameNucleus d d'
        → result_of (entries I d (nucleus_files d) r)
          ≡ result_of (entries I d' (nucleus_files d') r')
    nucleus_entries-agree d d' r r' h =
        entries-agree d d' (nucleus_files d) r r' (λ n a. h.files n (among-nucleus_files d d' n a))
        ∙ ap (λ ns. result_of (entries I d' ns r')) (nucleus_files-same d d' h)

    store_nucleus-agree :
        (d d' : CellDir) (r r' : I.Repo)
        → SameNucleus d d'
        → result_of (store_nucleus I d r) ≡ result_of (store_nucleus I d' r')
    unfolding store_nucleus
    store_nucleus-agree d d' r r' h =
        then_agree (entries I d (nucleus_files d) r) (entries I d' (nucleus_files d') r') _ _
          (nucleus_entries-agree d d' r r' h) (λ es s s'. laws.put_cid (nucleus es) s s')

    -- The nucleus hash depends on the nucleus alone: two directories with the same nucleus, whatever
    -- else they hold, have the same nucleus hash in any two repositories whose CIDs are a function of
    -- what is stored, or are both refused.
    pub nucleus_manifest-same :
        (d d' : CellDir) (r r' : I.Repo)
        → SameNucleus d d'
        → result_of (nucleus_manifest I d r) ≡ result_of (nucleus_manifest I d' r')
    unfolding nucleus_manifest
    nucleus_manifest-same d d' r r' h = rw (require_nucleus-same d d' h) (
        bind_agree (require_nucleus d') (λ _. store_nucleus I d r) (λ _. store_nucleus I d' r')
          (λ _. store_nucleus-agree d d' r r' h))
