-- ===== src/Archive/Files.antt =====
-- Which files the nucleus and the membrane of a cell hold.
use desmata.Prelude.{
  ℕ, suc, Bool, true, false, ◌&&◌, ◌≡◌, refl, ◌∙◌, List, [], ◌∷◌, if◌then◌else◌, arith,
}
use desmata.Prelude.Texts.{Text, eq_text, eq_text→eq}
use desmata.Wit.{among}
use desmata.Archive.Cell.{
  CellDir, distinct, listed_names, nucleus_names, outside, le_text, insert, sorted, walk,
  membrane_files,
}

-- How often a name stands in a list.
unfoldable pub times : Text → List Text → ℕ
unfolding eq_text
times n [] = 0
times n (m ∷ ms) = if eq_text m n then suc (times n ms) else times n ms

pub among_same : (n m : Text) (ns : List Text) → eq_text m n ≡ true → among m ns ≡ among n ns
among_same n m ns h = rw (eq_text→eq m n h) refl

pub times-distinct :
    (n : Text) (seen ns : List Text)
    → times n (distinct seen ns) ≡ (if among n seen then 0 else if among n ns then 1 else 0)
unfolding times distinct among
times-distinct n seen [] = ground arith
times-distinct n seen (m ∷ ns) =
    ground (arith, times-distinct n seen ns, times-distinct n (m ∷ seen) ns, among_same n m seen)

-- The nucleus names every file once: each name that the core or the declaration lists, and no other.
times-nucleus_names :
    (d : CellDir) (n : Text)
    → times n (nucleus_names d) ≡ (if among n (listed_names d) then 1 else 0)
unfolding nucleus_names among
times-nucleus_names d n = times-distinct n [] (listed_names d)

times-insert :
    (n m : Text) (ns : List Text)
    → times n (insert m ns) ≡ (if eq_text m n then suc (times n ns) else times n ns)
unfolding times insert
times-insert n m [] = refl
times-insert n m (k ∷ ns) = ground (arith, times-insert n m ns)

pub times-sorted : (n : Text) (ns : List Text) → times n (sorted ns) ≡ times n ns
unfolding times sorted
times-sorted n [] = refl
times-sorted n (m ∷ ns) = rw (times-insert n m (sorted ns), times-sorted n ns) refl

pub times-outside :
    (n : Text) (nucleus ns : List Text)
    → times n (outside nucleus ns) ≡ (if among n nucleus then 0 else times n ns)
unfolding times outside
times-outside n nucleus [] = ground arith
times-outside n nucleus (m ∷ ns) =
    ground (arith, times-outside n nucleus ns, among_same n m nucleus)

-- The membrane holds a path as often as the walk finds it, if the nucleus does not name it, and
-- otherwise not at all.
times-membrane_files :
    (d : CellDir) (n : Text)
    → times n (membrane_files d)
      ≡ (if among n (nucleus_names d) then 0 else times n (walk [] d.tree))
unfolding membrane_files
times-membrane_files d n =
    times-sorted n (outside (nucleus_names d) (walk [] d.tree))
    ∙ times-outside n (nucleus_names d) (walk [] d.tree)

-- Each text is at most the one behind it.
unfoldable is_sorted : List Text → Bool
unfolding le_text
is_sorted [] = true
is_sorted (n ∷ []) = true
is_sorted (n ∷ m ∷ ns) = le_text n m && is_sorted (m ∷ ns)

pub le_text_total : (s t : Text) → le_text s t ≡ false → le_text t s ≡ true
unfolding le_text
le_text_total [] t h = cc
le_text_total (c ∷ s) [] h = refl
le_text_total (c ∷ s) (d ∷ t) h = ground (arith, le_text_total s t)

is_sorted-insert :
    (n : Text) (ns : List Text) → is_sorted ns ≡ true → is_sorted (insert n ns) ≡ true
unfolding is_sorted insert
is_sorted-insert n [] h = refl
is_sorted-insert n (m ∷ []) h = ground (arith, le_text_total n m)
is_sorted-insert n (m ∷ k ∷ ns) h =
    ground (arith, le_text_total n m, le_text_total n k, is_sorted-insert n (k ∷ ns))

is_sorted-sorted : (ns : List Text) → is_sorted (sorted ns) ≡ true
unfolding is_sorted sorted
is_sorted-sorted [] = refl
is_sorted-sorted (n ∷ ns) = is_sorted-insert n (sorted ns) (is_sorted-sorted ns)

-- The membrane's paths are in the order of their code points.
membrane_files-is_sorted : (d : CellDir) → is_sorted (membrane_files d) ≡ true
unfolding membrane_files
membrane_files-is_sorted d = is_sorted-sorted (outside (nucleus_names d) (walk [] d.tree))
