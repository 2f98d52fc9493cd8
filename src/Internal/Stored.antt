-- ===== src/Internal/Stored.antt =====
-- The folders under hashes hold what their names say.
use desmata.Prelude.{
  Bool, true, false, none, some, ◌++◌, ◌≡◌, refl, sym, ap, ◌∙◌, subst, Bool-cases, inl, inr, ◌⊎◌,
}
use desmata.Prelude.Results.{Result, ok, err, ok_eq}
use desmata.Prelude.Texts.{Text, eq_text, eq_text→eq}
use desmata.Content.{Hash, dirname}
use desmata.Content.RoundTrip.{dirname-injective}
use desmata.Disk.{FilePath, folder, Disk, there, below, mkdir}
use desmata.Disk.Paths.{below_refl, below-append, mkdir-folder}
use desmata.Disk.Elsewhere.{mkdir-else}
use desmata.Session.{changed, run_next, left}
use desmata.Internal.{
  Stops, link_tree, link_entry, create_hard_links, fill, id_dir, hash_dir, link_hash, hashed,
  address, internalize,
}
use desmata.Internal.Kept.{
  IsApart, IsKept, StayBelow, walked-ok, changed-ok, mkdir-IsKept, create_hard_links-IsKept,
  fill-IsKept,
}
use desmata.Internal.Folders.{is_file, folder_there, siblings, linked_same, fill-plain}

module _ (hash_path : FilePath → Disk → Result Hash) (by_id by_hash : FilePath) where
  -- A path with a hash exists, and the hash is that of what stands at and below the path.
  pub record IsContentHash : Type 0 where
    pub exists : (p : FilePath) (d : Disk) (h : Hash) → hash_path p d ≡ ok h → there (d p) ≡ true
    pub local :
        (p q : FilePath) (d e : Disk)
        → ((r : FilePath) → d (p ++ r) ≡ e (q ++ r))
        → hash_path p d ≡ hash_path q e

  -- Each folder under a hash holds what has this hash, or nothing is there.
  abbrev pub IsGood : Hash → Disk → Type 0
  IsGood h d =
      (hash_path (hash_dir by_hash h) d ≡ ok h)
      ⊎ ((q : FilePath) → below (hash_dir by_hash h) q ≡ true → d q ≡ none)

  abbrev pub IsStore : Disk → Type 0
  IsStore d = (h : Hash) → IsGood h d

  -- A call that raised has left a folder under the hash half-way: the folder was not there before, and
  -- the hash is that of what stands at the path.
  abbrev pub IsHalfWay : {A : Type 0} → Hash → FilePath → Disk → Result A × Disk → Type 0
  IsHalfWay k path d (ok a, e) = ⊥
  IsHalfWay k path d (err x, e) =
      (there (d (hash_dir by_hash k)) ≡ false) × (hash_path path e ≡ ok k)

  -- After a call, the folder under the hash is good, or the call raised and left it half-way.
  abbrev pub IsSound : {A : Type 0} → Hash → FilePath → Disk → Result A × Disk → Type 0
  IsSound k path d o = IsGood k (left o) ⊎ IsHalfWay k path d o

  kept-IsGood :
      (laws : IsContentHash) (h : Hash) (d e : Disk)
      → IsKept (hash_dir by_hash h) d e
      → IsGood h d
      → IsGood h e
  kept-IsGood laws h d e kept (inl same) = inl (
      laws.local (hash_dir by_hash h) (hash_dir by_hash h) e d
        (λ r. kept (hash_dir by_hash h ++ r) (below-append (hash_dir by_hash h) r))
      ∙ same)
  kept-IsGood laws h d e kept (inr fresh) = inr (λ q b. kept q b ∙ fresh q b)

  module _ (laws : IsContentHash) (stops : Stops) (stay : StayBelow stops) (path : FilePath)
      (apart : (h : Hash) → IsApart (hash_dir by_hash h) path) where
    copied-hash :
        (h : Hash) (d m e : Disk)
        → hash_path path d ≡ ok h
        → d path ≡ some folder
        → ((q : FilePath) → below (hash_dir by_hash h) q ≡ true → d q ≡ none)
        → mkdir (hash_dir by_hash h) d ≡ ok m
        → link_entry (m path) path (hash_dir by_hash h) m ≡ ok e
        → hash_path (hash_dir by_hash h) e ≡ ok h
    unfolding link_entry
    copied-hash h d m e hashes is_folder fresh made linked =
        let a = apart h in
        let b : IsApart path (hash_dir by_hash h) = record {
          not_above = a.not_below;
          not_below = a.not_above;
        } in
        let kept = mkdir-IsKept path (hash_dir by_hash h) b d m made in
        let here : m path ≡ some folder = kept path (below_refl path) ∙ is_folder in
        let same : link_tree path (hash_dir by_hash h) m ≡ e =
          ok_eq (rw (here, a.not_below) at linked) in
        laws.local (hash_dir by_hash h) path e d (λ r.
          ap (λ f. f (hash_dir by_hash h ++ r)) (sym same)
          ∙ linked_same path (hash_dir by_hash h) d m e r fresh
              (unfold hash_dir in mkdir-folder by_hash (dirname h) d m made) is_folder
              (λ q n. mkdir-else (hash_dir by_hash h) q d m made n) kept)
        ∙ hashes

    linked-IsGood :
        (h : Hash) (d e : Disk)
        → hash_path path d ≡ ok h
        → d path ≡ some folder
        → there (d (hash_dir by_hash h)) ≡ false
        → IsGood h d
        → create_hard_links stops path (hash_dir by_hash h) d ≡ (ok tt, e)
        → IsGood h e
    unfolding create_hard_links
    linked-IsGood h d e hashes is_folder absent (inl there_already) linked =
        absurd (both (laws.exists (hash_dir by_hash h) d h there_already) absent)
      where
        both : {b : Bool} → b ≡ true → b ≡ false → ⊥
        both p q = cc
    linked-IsGood h d e hashes is_folder absent (inr fresh) linked =
        let (m, made, rest) = changed-ok (mkdir (hash_dir by_hash h) d) _ d e linked in
        inl (
          copied-hash h d m e hashes is_folder fresh made (
            walked-ok (stops path (hash_dir by_hash h) m)
              (link_entry (m path) path (hash_dir by_hash h) m) m e rest))

    -- Linking into the folder of the dependency's own hash, by what comes of it.
    own_hash :
        (h : Hash) (d : Disk) (o : Result (Unit {0}) × Disk)
        → create_hard_links stops path (hash_dir by_hash h) d ≡ o
        → hash_path path d ≡ ok h
        → d path ≡ some folder
        → there (d (hash_dir by_hash h)) ≡ false
        → IsGood h d
        → IsSound h path d o
    own_hash h d (ok tt, e) same hashes is_folder absent good =
        inl (linked-IsGood h d e hashes is_folder absent good same)
    own_hash h d (err x, e) same hashes is_folder absent good =
        let a = apart h in
        let kept : IsKept path d e =
          subst (λ o. IsKept path d (left o)) same
            (create_hard_links-IsKept path (hash_dir by_hash h)
              (record { not_above = a.not_below; not_below = a.not_above }) stops stay path d) in
        inr
          (absent, laws.local path path e d (λ r. kept (path ++ r) (below-append path r)) ∙ hashes)

    linked-IsSound :
        (h k : Hash) (d : Disk)
        → hash_path path d ≡ ok h
        → d path ≡ some folder
        → there (d (hash_dir by_hash h)) ≡ false
        → IsStore d
        → IsSound k path d (create_hard_links stops path (hash_dir by_hash h) d)
    linked-IsSound h k d hashes is_folder absent store =
        elim (Bool-cases (eq_text (dirname k) (dirname h))) [
          | inr n ↦ inl (
              kept-IsGood laws k d _
                (create_hard_links-IsKept (hash_dir by_hash k) (hash_dir by_hash h)
                  (unfold hash_dir in siblings by_hash (dirname k) (dirname h) n) stops stay path d)
                (store k))
          | inl x ↦
              subst (λ j. IsSound j path d (create_hard_links stops path (hash_dir by_hash h) d))
                (sym (dirname-injective k h (eq_text→eq (dirname k) (dirname h) x)))
                (own_hash h d _ refl hashes is_folder absent (store h))
        ]

    link_hash-IsSound :
        (h k : Hash) (d : Disk)
        → hash_path path d ≡ ok h
        → d path ≡ some folder
        → IsStore d
        → IsSound k path d (link_hash stops hash_path by_id by_hash h path d)
    unfolding link_hash
    link_hash-IsSound h k d hashes is_folder store =
        elim (Bool-cases (there (d (hash_dir by_hash h)))) [
          | inl x ↦ rw x (inl (store k))
          | inr x ↦ rw x (linked-IsSound h k d hashes is_folder x store)
        ]

    IsSound-run_next :
        (h k : Hash) (d : Disk) (o : Result (Unit {0}) × Disk)
        → IsSound k path d o
        → IsSound k path d (run_next (λ linked e. (ok h, e)) o)
    IsSound-run_next h k d (ok tt, e) (inl g) = inl g
    IsSound-run_next h k d (ok tt, e) (inr n) = absurd n
    IsSound-run_next h k d (err x, e) s = s

    hashed-IsSound :
        (r : Result Hash) (d : Disk)
        → hash_path path d ≡ r
        → is_file (d path) ≡ false
        → IsStore d
        → (k : Hash) → IsSound k path d (hashed stops hash_path by_id by_hash r path d)
    hashed-IsSound (err x) d same plain store k = inl (store k)
    hashed-IsSound (ok h) d same plain store k =
        IsSound-run_next h k d (link_hash stops hash_path by_id by_hash h path d) (
          link_hash-IsSound h k d same (folder_there (d path) (laws.exists path d h same) plain)
            store)

    address-IsSound :
        (d : Disk)
        → is_file (d path) ≡ false
        → IsStore d
        → (k : Hash) → IsSound k path d (address stops hash_path by_id by_hash path d)
    unfolding address
    address-IsSound d plain store k = hashed-IsSound (hash_path path d) d refl plain store k

    -- A disk that has the same at the folder of a hash, in place of the first.
    IsSound-from :
        (k : Hash) (d f : Disk) (o : Result Hash × Disk)
        → f (hash_dir by_hash k) ≡ d (hash_dir by_hash k)
        → IsSound k path f o
        → IsSound k path d o
    IsSound-from k d f (r, e) same (inl g) = inl g
    IsSound-from k d f (ok h, e) same (inr n) = absurd n
    IsSound-from k d f (err x, e) same (inr (absent, hashes)) =
        inr (ap there (sym same) ∙ absent, hashes)

    -- What follows the filling of the folder of the id.
    filled-IsSound :
        (k : Hash) (d : Disk) (o : Result (Unit {0}) × Disk)
        → IsStore d
        → ((h : Hash) → IsKept (hash_dir by_hash h) d (left o))
        → ((f : Disk) → o ≡ (ok tt, f) → is_file (f path) ≡ false)
        → IsSound k path d (run_next (λ filled. address stops hash_path by_id by_hash path) o)
    filled-IsSound k d (err x, f) store kept plain = inl (kept-IsGood laws k d f (kept k) (store k))
    filled-IsSound k d (ok tt, f) store kept plain =
        IsSound-from k d f _ (kept k (hash_dir by_hash k) (below_refl (hash_dir by_hash k)))
          (address-IsSound f (plain f refl) (λ h. kept-IsGood laws h d f (kept h) (store h)) k)

    -- What follows the making of the folder of the id.
    made-IsSound :
        (k : Hash) (d : Disk) (r : Result Disk) (next : Disk → Result Hash × Disk)
        → mkdir path d ≡ r
        → IsStore d
        → ((e : Disk) → mkdir path d ≡ ok e → IsSound k path e (next e))
        → IsSound k path d (changed r next d)
    made-IsSound k d (err x) next same store h = inl (store k)
    made-IsSound k d (ok e) next same store h =
        IsSound-from k d e (next e)
          (mkdir-IsKept (hash_dir by_hash k) path (apart k) d e same (hash_dir by_hash k)
            (below_refl (hash_dir by_hash k)))
          (h e same)

  -- Internalizing a dependency, whether it is new or known, links or is copied, and wherever its walks
  -- fail half-way: from a store in which each folder under a hash holds content with this hash, or
  -- nothing, a call that returns leaves such a store. A call that raises spoils at most one folder,
  -- that of the hash of what then stands under the dependency's id, and only if the folder was not
  -- there. The folder of the id is apart from those under hashes, and no file.
  pub internalize-IsSound :
      (laws : IsContentHash) (stops : Stops) (stay : StayBelow stops) (safe : Bool) (dep_id : Text)
      (target : FilePath) (d : Disk)
      → ((h : Hash) → IsApart (hash_dir by_hash h) (id_dir by_id dep_id))
      → is_file (d (id_dir by_id dep_id)) ≡ false
      → IsStore d
      → (k : Hash)
      → IsSound k
          (id_dir by_id dep_id)
          d
          (internalize stops hash_path by_id by_hash safe dep_id target d)
  unfolding internalize
  internalize-IsSound laws stops stay safe dep_id target d apart plain store k =
      let path = id_dir by_id dep_id in
      elim (Bool-cases (there (d path))) [
        | inl x ↦ rw x (address-IsSound laws stops stay path apart d plain store k)
        | inr x ↦ rw x (
            made-IsSound laws stops stay path apart k d (mkdir path d) _ refl store (λ e made.
              filled-IsSound laws stops stay path apart k e (fill stops safe target path e)
                (λ h.
                  kept-IsGood laws h d e (mkdir-IsKept (hash_dir by_hash h) path (apart h) d e made)
                    (store h))
                (λ h. fill-IsKept (hash_dir by_hash h) path (apart h) stops stay safe target e)
                (λ f filled.
                  fill-plain stops safe target path e f
                    (unfold id_dir in mkdir-folder by_id dep_id d e made) filled)))
      ]
