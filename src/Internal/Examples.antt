-- ===== src/Internal/Examples.antt =====
-- Tests and instances for the store of dependencies.
use desmata.Prelude.{
  ℕ, true, Option, none, some, List, [], ◌∷◌, ◌++◌, ◌≡◌, refl, sym, ap, ◌∙◌, subst, inl, inr,
  Bool-cases, if◌then◌else◌, append-nil,
}
use desmata.Prelude.Results.{Error, Result, ok, err, os_error, some_eq, nothing_there}
use desmata.Prelude.Texts.{codes, eq_text}
use desmata.Content.{Hash, ipfs, dirname, backend_name}
use desmata.Disk.{
  FilePath, Entry, folder, file, Disk, there, put, below, rest_below, eq_path, make_below, mkdir,
}
use desmata.Disk.Paths.{below→append}
use desmata.Session.{left}
use desmata.Internal.{
  Stops, link_tree, link_entry, create_hard_links, fill, id_dir, hash_dir, link_hash, address,
  internalize,
}
use desmata.Internal.Kept.{IsApart, StayBelow}
use desmata.Internal.Stored.{IsContentHash, IsStore, IsSound, internalize-IsSound}

abbrev one_file : Option Entry → List ℕ
one_file none = []
one_file (some folder) = []
one_file (some (file content)) = content

abbrev digest_of : Option Entry → Option Entry → Result Hash
digest_of none entry = err os_error
digest_of (some there) entry = ok (record { backend = ipfs; digest = one_file entry })

-- A hash that reads one file of a folder.
abbrev plain_hash : FilePath → Disk → Result Hash
plain_hash p d = digest_of (d p) (d (p ++ codes "f" ∷ []))

known_there : (o entry : Option Entry) (h : Hash) → digest_of o entry ≡ ok h → there o ≡ true
known_there none entry h same = cc
known_there (some e) entry h same = refl

plain_hash-IsContentHash : IsContentHash plain_hash (codes "id" ∷ []) (codes "hash" ∷ [])
plain_hash-IsContentHash = record {
  exists = λ p d h same. known_there (d p) (d (p ++ codes "f" ∷ [])) h same;
  local = λ p q d e alike.
      rw (sym (ap d (append-nil p)) ∙ (alike [] ∙ ap e (append-nil q)), alike (codes "f" ∷ []))
        refl;
}

abbrev by_id : FilePath
by_id = codes "id" ∷ []

abbrev by_hash : FilePath
by_hash = codes "hash" ∷ []

-- A disk with a dependency.
abbrev disk : Disk
disk =
    put (codes "dep" ∷ codes "f" ∷ []) (file (codes "9"))
      (put (codes "dep" ∷ []) folder (λ q. none))

abbrev digest : Hash
digest = record { backend = ipfs; digest = codes "9" }

-- A file system on which no walk fails, and one on which the walk from the folder of `x` does, before
-- the first file.
abbrev unstopped : Stops
unstopped source path d = none

abbrev torn : Stops
torn source path d = if eq_path source (by_id ++ codes "x" ∷ []) then some (os_error, d) else none

torn-StayBelow : StayBelow torn
torn-StayBelow source path q d e x h n =
    elim (Bool-cases (eq_path source (by_id ++ codes "x" ∷ []))) [
      | inl y ↦ ap (λ (o : Error × Disk). o.1 q) (sym (some_eq (rw y at h)))
      | inr y ↦ absurd (nothing_there (rw y at h))
    ]

internalized :
    left
      (internalize unstopped plain_hash by_id by_hash true (codes "x") (codes "dep" ∷ []) disk)
      (by_hash ++ (dirname digest ∷ codes "f" ∷ []))
    ≡ some (file (codes "9"))
unfolding internalize address link_hash id_dir hash_dir fill create_hard_links link_entry link_tree
    mkdir make_below put below rest_below eq_path eq_text dirname backend_name
internalized = refl

-- A target that is missing leaves an empty folder under its id, and the next call takes this folder
-- for the dependency.
missing_then_known :
    internalize unstopped plain_hash by_id by_hash true (codes "x") (codes "gone" ∷ []) disk
    ≡ (err os_error, put (codes "id" ∷ codes "x" ∷ []) folder (put (codes "id" ∷ []) folder disk))
unfolding internalize id_dir fill mkdir make_below put eq_path eq_text
missing_then_known = refl

disk-IsStore : IsStore plain_hash by_id by_hash disk
unfolding put hash_dir eq_path eq_text
disk-IsStore h =
    inr
      (λ q b. subst (λ p. disk p ≡ none) (sym (below→append (by_hash ++ dirname h ∷ []) q b)) refl)

apart : (h : Hash) → IsApart (hash_dir by_hash h) (id_dir by_id (codes "x"))
unfolding hash_dir id_dir below eq_text
apart h = record { not_above = refl; not_below = refl }

abbrev torn_run : Result Hash × Disk
torn_run = internalize torn plain_hash by_id by_hash true (codes "x") (codes "dep" ∷ []) disk

internalize-IsSound_example :
    IsSound plain_hash by_id by_hash digest (id_dir by_id (codes "x")) disk torn_run
internalize-IsSound_example =
    internalize-IsSound plain_hash by_id by_hash plain_hash-IsContentHash torn torn-StayBelow true
      (codes "x") (codes "dep" ∷ []) disk apart (unfold id_dir put eq_path eq_text in refl)
      disk-IsStore digest

-- After a link that failed half-way the next call returns the hash, and the folder under it is empty.
torn_then_known :
    ((internalize unstopped plain_hash by_id by_hash true
        (codes "x")
        (codes "dep" ∷ [])
        (left torn_run)).0
      ≡ ok digest)
    × (left
          (internalize unstopped plain_hash by_id by_hash true
            (codes "x")
            (codes "dep" ∷ [])
            (left torn_run))
          (by_hash ++ (dirname digest ∷ codes "f" ∷ []))
        ≡ none)
unfolding internalize address link_hash id_dir hash_dir fill create_hard_links link_entry link_tree
    mkdir make_below put below rest_below eq_path eq_text dirname backend_name
torn_then_known = (refl, refl)
