-- ===== src/Session/Traces.antt =====
-- What a session changes on the disk.
use desmata.Prelude.{
  ℕ, Bool, true, false, Option, none, some, List, [], ◌∷◌, ◌++◌, ◌≡◌, refl, sym, ap, ◌∙◌, subst,
  Bool-cases, inl, inr, append_assoc, append-nil,
}
use desmata.Prelude.Results.{Result, ok, err, ok_eq, raised_returns}
use desmata.Prelude.Texts.{Text}
use desmata.Disk.{
  FilePath, Entry, folder, file, Disk, relative, rooted, join_path, parent, there, put, below,
  eq_path, make_below, mkdir, copy2, target_at, write_at, copy_from, name_of,
}
use desmata.Disk.Paths.{
  eq_path→eq, put_apart, make_below-apart, make_below-keeps, IsWay, IsWay-kept, mkdir-append,
}
use desmata.Session.{Overlay, Scope, changed, run_next, left, make_subdirs, lay_over}

-- The inputs go into the home.
unfoldable pub all_inside : Overlay → Bool
all_inside [] = true
all_inside ((relative path, source) ∷ rest) = all_inside rest
all_inside ((rooted path, source) ∷ rest) = false

-- What holds before a call whose disk is changed, and after each change.
pub left-changed :
    {A : Type 0} (P : Disk → Type 0) (r : Result Disk) (next : Disk → Result A × Disk) (d : Disk)
    → P d
    → ((e : Disk) → r ≡ ok e → P (left (next e)))
    → P (left (changed r next d))
left-changed P (ok e) next d h k = k e refl
left-changed P (err x) next d h k = h

pub left-run_next :
    {A B : Type 0} (P : Disk → Type 0) (next : A → Scope B) (r : Result A × Disk)
    → P (left r)
    → ((a : A) (e : Disk) → r ≡ (ok a, e) → P (left (next a e)))
    → P (left (run_next next r))
left-run_next P next (ok a, e) h k = k a e refl
left-run_next P next (err x, e) h k = h

make_below-parent :
    (base p : FilePath) (d : Disk) → IsWay base p d → make_below base (parent p) d ≡ ok d
unfolding make_below parent
make_below-parent base [] d w = refl
make_below-parent base (x ∷ []) d w = refl
make_below-parent base (x ∷ y ∷ p) d (h, w) = rw h (make_below-parent (base ++ x ∷ []) (y ∷ p) d w)

pub mkdir-parent : (p : FilePath) (d : Disk) → IsWay [] p d → mkdir (parent p) d ≡ ok d
unfolding mkdir
mkdir-parent p d w = make_below-parent [] p d w

pub parent-append :
    (h : FilePath) (x : Text) (r : FilePath) → parent (h ++ x ∷ r) ≡ h ++ parent (x ∷ r)
unfolding parent
parent-append [] x r = refl
parent-append (y ∷ []) x r = refl
parent-append (y ∷ z ∷ h) x r = ap (λ t. y ∷ t) (parent-append (z ∷ h) x r)

-- From a disk on, only what stands below a home has changed, and the home's folders are there.
pub record Within (home : FilePath) (m d : Disk) : Type 0 where
  pub way : IsWay [] home d
  pub apart : (q : FilePath) → below home q ≡ false → d q ≡ m q

no_folder :
    (p : FilePath) (d : Disk) (o : Option Entry)
    → d p ≡ o
    → (o ≡ some folder → ⊥)
    → (q : FilePath) → d q ≡ some folder
    → eq_path p q ≡ false
no_folder p d o at other q h = elim (Bool-cases (eq_path p q)) [
  | inl x ↦ absurd (other (sym at ∙ ap d (eq_path→eq p q x) ∙ h))
  | inr x ↦ x
]

pub clash : ◌≡◌ {A = Bool} false true → ⊥
clash same = cc

module _ (home : FilePath) (m : Disk) where
  pub make_below-Within :
      (r : FilePath) (d e : Disk) → make_below home r d ≡ ok e → Within home m d → Within home m e
  make_below-Within r d e made w = record {
    way = IsWay-kept [] home d e (λ q h. make_below-keeps home r q d e folder made h) w.way;
    apart = λ q b. make_below-apart home r q d e made b ∙ w.apart q b;
  }

  pub mkdir-Within :
      (r : FilePath) (d e : Disk) → mkdir (home ++ r) d ≡ ok e → Within home m d → Within home m e
  mkdir-Within r d e made w = make_below-Within r d e (sym (mkdir-append home r d w.way) ∙ made) w

  pub parent-Within :
      (r : FilePath) (d e : Disk)
      → mkdir (parent (home ++ r)) d ≡ ok e
      → Within home m d
      → Within home m e
  parent-Within [] d e made w =
      subst (λ f. Within home m f)
        (ok_eq (
          sym (mkdir-parent home d w.way)
          ∙ subst (λ p. mkdir (parent p) d ≡ ok e) (append-nil home) made))
        w
  parent-Within (x ∷ r) d e made w =
      mkdir-Within (parent (x ∷ r)) d e
        (subst (λ p. mkdir p d ≡ ok e) (parent-append home x r) made) w

  put-Within :
      (r : FilePath) (c : List ℕ) (d : Disk)
      → ((q : FilePath) → d q ≡ some folder → eq_path (home ++ r) q ≡ false)
      → Within home m d
      → Within home m (put (home ++ r) (file c) d)
  put-Within r c d free w = record {
    way =
        IsWay-kept [] home d (put (home ++ r) (file c) d) (λ q h. unfold put in rw (free q h) h)
          w.way;
    apart = λ q b. put_apart home r q (file c) d b ∙ w.apart q b;
  }

  write_at-Within :
      (r : FilePath) (c : List ℕ) (d e : Disk) (o : Option Entry)
      → d (home ++ r) ≡ o
      → write_at o (home ++ r) c d ≡ ok e
      → Within home m d
      → Within home m e
  write_at-Within r c d e (some folder) at made w = absurd (raised_returns made)
  write_at-Within r c d e (some (file old)) at made w =
      subst (λ f. Within home m f) (ok_eq made)
        (put-Within r c d (no_folder (home ++ r) d (some (file old)) at (λ x. cc)) w)
  write_at-Within r c d e none at made w =
      subst (λ f. Within home m f) (ok_eq made)
        (put-Within r c d (no_folder (home ++ r) d none at (λ x. cc)) w)

  copy_from-Within :
      (source r : FilePath) (d e : Disk) (o : Option Entry)
      → copy_from o source (home ++ r) d ≡ ok e
      → Within home m d
      → Within home m e
  copy_from-Within source r d e none made w = absurd (raised_returns made)
  copy_from-Within source r d e (some folder) made w = absurd (raised_returns made)
  copy_from-Within source r d e (some (file c)) made w =
      elim (Bool-cases (eq_path source (home ++ r))) [
        | inl x ↦ absurd (raised_returns (rw x at made))
        | inr x ↦ write_at-Within r c d e (d (home ++ r)) refl (rw x at made) w
      ]

  target_at-Within :
      (source r : FilePath) (d e : Disk) (o : Option Entry)
      → copy_from (d source) source (target_at o source (home ++ r)) d ≡ ok e
      → Within home m d
      → Within home m e
  target_at-Within source r d e (some folder) made w =
      copy_from-Within source (r ++ name_of source ∷ []) d e (d source)
        (subst (λ p. copy_from (d source) source p d ≡ ok e)
          (append_assoc home r (name_of source ∷ [])) made)
        w
  target_at-Within source r d e (some (file c)) made w =
      copy_from-Within source r d e (d source) made w
  target_at-Within source r d e none made w = copy_from-Within source r d e (d source) made w

  pub copy2-Within :
      (source r : FilePath) (d e : Disk)
      → copy2 source (home ++ r) d ≡ ok e
      → Within home m d
      → Within home m e
  unfolding copy2
  copy2-Within source r d e made w = target_at-Within source r d e (d (home ++ r)) made w

  pub make_subdirs-Within :
      (subdirs : List FilePath) (d : Disk)
      → Within home m d
      → Within home m (left (make_subdirs home subdirs d))
  unfolding make_subdirs
  make_subdirs-Within [] d w = w
  make_subdirs-Within (subdir ∷ rest) d w =
      left-changed (Within home m) (mkdir (home ++ subdir) d) (make_subdirs home rest) d w
        (λ e made. make_subdirs-Within rest e (mkdir-Within subdir d e made w))

  pub lay_over-Within :
      (overlay : Overlay) (d : Disk)
      → all_inside overlay ≡ true
      → Within home m d
      → Within home m (left (lay_over home overlay d))
  unfolding lay_over all_inside join_path
  lay_over-Within [] d inside w = w
  lay_over-Within ((rooted path, source) ∷ rest) d inside w = absurd (clash inside)
  lay_over-Within ((relative path, source) ∷ rest) d inside w =
      elim (Bool-cases (there (d source))) [
        | inl x ↦ rw x (
            left-changed (Within home m) (mkdir (parent (home ++ path)) d) _ d w (λ e made.
              let v = parent-Within path d e made w in
              left-changed (Within home m) (copy2 source (home ++ path) e) _ e v (λ f copied.
                lay_over-Within rest f inside (copy2-Within source path e f copied v))))
        | inr x ↦ rw x w
      ]
