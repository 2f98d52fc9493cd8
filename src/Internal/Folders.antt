-- ===== src/Internal/Folders.antt =====
-- Folders that are copied, linked and filled.
use desmata.Prelude.{
  ℕ, Bool, true, false, Option, none, some, List, [], ◌∷◌, ◌++◌, ◌≡◌, refl, sym, ap, ◌∙◌, subst,
  arith, Bool-cases, inl, inr, ◌⊎◌, append-nil,
}
use desmata.Prelude.Results.{ok, ok_eq, raised_returns}
use desmata.Prelude.Texts.{Text, eq_text, eq_text→eq, eq_text_refl}
use desmata.Disk.{
  FilePath, Entry, folder, file, Disk, there, below, mkdir, rest_below, name_of, copytree, put,
  eq_path,
}
use desmata.Disk.Paths.{
  below_refl, below-append, make_below-keeps, rest_below-append, below_longer, below-append_both,
}
use desmata.Disk.Elsewhere.{copy2-folder}
use desmata.Internal.{Stops, link_tree, link_entry, create_hard_links, copy_entry, fill}
use desmata.Internal.Kept.{IsApart, walked-ok, changed-ok}

-- An entry that is no file.
abbrev pub is_file : Option Entry → Bool
is_file none = false
is_file (some folder) = false
is_file (some (file content)) = true

pub folder_there : (o : Option Entry) → there o ≡ true → is_file o ≡ false → o ≡ some folder
folder_there none h k = cc
folder_there (some folder) h k = refl
folder_there (some (file c)) h k = cc

pub siblings :
    (base : FilePath) (a b : Text) → eq_text a b ≡ false → IsApart (base ++ a ∷ []) (base ++ b ∷ [])
unfolding below
siblings base a b n = record {
  not_above = below-append_both base (a ∷ []) (b ∷ []) ∙ rw n refl;
  not_below =
      below-append_both base (b ∷ []) (a ∷ []) ∙ rw (other_way (Bool-cases (eq_text b a))) refl;
}
  where
    other_way : (eq_text b a ≡ true) ⊎ (eq_text b a ≡ false) → eq_text b a ≡ false
    other_way (inl e) = cc (n, ap (λ t. eq_text t b) (sym (eq_text→eq b a e)), eq_text_refl b)
    other_way (inr e) = e

-- Linking a folder into a path that held nothing makes a copy of it.
pub linked_same :
    (source path : FilePath) (d m e : Disk) (r : FilePath)
    → ((q : FilePath) → below path q ≡ true → d q ≡ none)
    → m path ≡ some folder
    → d source ≡ some folder
    → ((q : FilePath) → below q path ≡ false → m q ≡ d q)
    → ((q : FilePath) → below source q ≡ true → m q ≡ d q)
    → link_tree source path m (path ++ r) ≡ d (source ++ r)
unfolding link_tree
linked_same source path d m e [] fresh made is_folder off kept =
    rw (below-append path [], append-nil path, made, append-nil source, is_folder) refl
linked_same source path d m e (x ∷ r) fresh made is_folder off kept =
    rw
      (
        below-append path (x ∷ r),
        rest_below-append path (x ∷ r),
        off (path ++ x ∷ r) (below_longer path r x),
        fresh (path ++ x ∷ r) (below-append path (x ∷ r)),
        kept (source ++ x ∷ r) (below-append source (x ∷ r)),
      )
      refl

not_itself : (p : FilePath) (n : Text) → eq_path (p ++ n ∷ []) p ≡ false
unfolding eq_path
not_itself [] n = refl
not_itself (x ∷ p) n = ground (arith, not_itself p n)

rest_of_self : (h : FilePath) → rest_below h h ≡ []
rest_of_self h = subst (λ q. rest_below h q ≡ []) (append-nil h) (rest_below-append h [])

put_deeper :
    (path : FilePath) (n : Text) (c : List ℕ) (d : Disk)
    → d path ≡ some folder
    → put (path ++ n ∷ []) (file c) d path ≡ some folder
unfolding put
put_deeper path n c d k = rw (not_itself path n) k

mkdir-keeps :
    (p q : FilePath) (d e : Disk) (v : Entry) → mkdir p d ≡ ok e → d q ≡ some v → e q ≡ some v
unfolding mkdir
mkdir-keeps p q d e v made k = make_below-keeps [] p q d e v made k

link_entry-folder :
    (o : Option Entry) (source path : FilePath) (d e : Disk)
    → link_entry o source path d ≡ ok e
    → d path ≡ some folder
    → e path ≡ some folder
unfolding link_entry
link_entry-folder none source path d e h k = absurd (raised_returns h)
link_entry-folder (some folder) source path d e h k = elim (Bool-cases (below source path)) [
  | inl x ↦ absurd (raised_returns (rw x at h))
  | inr x ↦
      ap (λ f. f path) (sym (ok_eq (rw x at h))) ∙ unfold link_tree in rw (below_refl path, k) refl
]
link_entry-folder (some (file c)) source path d e h k =
    elim (Bool-cases (there (d (path ++ name_of source ∷ [])))) [
      | inl x ↦ ap (λ f. f path) (sym (ok_eq (rw x at h))) ∙ k
      | inr x ↦ ap (λ f. f path) (sym (ok_eq (rw x at h))) ∙ put_deeper path (name_of source) c d k
    ]

create_hard_links-folder :
    (stops : Stops) (source path : FilePath) (d e : Disk)
    → create_hard_links stops source path d ≡ (ok tt, e)
    → d path ≡ some folder
    → e path ≡ some folder
unfolding create_hard_links
create_hard_links-folder stops source path d e h k =
    let (m, made, rest) = changed-ok (mkdir path d) _ d e h in
    link_entry-folder (m source) source path m e
      (walked-ok (stops source path m) (link_entry (m source) source path m) m e rest)
      (mkdir-keeps path path d m folder made k)

copy_entry-folder :
    (o : Option Entry) (source path : FilePath) (d e : Disk)
    → d source ≡ o
    → copy_entry o source path d ≡ ok e
    → d path ≡ some folder
    → e path ≡ some folder
unfolding copy_entry
copy_entry-folder none source path d e at h k = absurd (raised_returns h)
copy_entry-folder (some folder) source path d e at h k = elim (Bool-cases (below source path)) [
  | inl x ↦ absurd (raised_returns (rw x at h))
  | inr x ↦
      ap (λ f. f path) (sym (ok_eq (rw x at h)))
      ∙ unfold copytree in rw (below_refl path, rest_of_self path, append-nil source, at) refl
]
copy_entry-folder (some (file c)) source path d e at h k =
    copy2-folder source (path ++ name_of source ∷ []) path d e h k

-- What is put into a dependency's folder leaves it a folder.
pub fill-plain :
    (stops : Stops) (safe : Bool) (target path : FilePath) (d e : Disk)
    → d path ≡ some folder
    → fill stops safe target path d ≡ (ok tt, e)
    → is_file (e path) ≡ false
unfolding fill
fill-plain stops safe target path d e k h = elim (Bool-cases (there (d target))) [
  | inr x ↦ absurd (raised_returns (ap (λ y. y.0) (rw x at h)))
  | inl x ↦ elim (Bool-cases safe) [
    | inl s ↦ ap is_file (create_hard_links-folder stops target path d e (rw (x, s) at h) k)
    | inr s ↦ ap is_file (
        copy_entry-folder (d target) target path d e refl
          (walked-ok (stops target path d) (copy_entry (d target) target path d) d e
            (rw (x, s) at h))
          k)
  ]
]
