-- ===== src/Disk/Elsewhere.antt =====
-- What the calls of the file system leave as it was elsewhere.
use desmata.Prelude.{
  ℕ, true, false, Option, none, some, List, [], ◌∷◌, ◌++◌, ◌≡◌, refl, sym, ap, ◌∙◌, arith,
  Bool-cases, subst, inl, inr, append_assoc, ◌⊎◌,
}
use desmata.Prelude.Results.{ok, ok_eq, raised_returns, >>=-eq-ok}
use desmata.Prelude.Texts.{eq_text_right, eq_text_trans}
use desmata.Disk.{
  FilePath, Entry, folder, file, Disk, eq_path, below, put, ensure_at, make_below, mkdir, name_of,
  write_at, copy_from, target_at, copy2,
}
use desmata.Disk.Paths.{eq_path→eq, below-append, put_apart}

pub below_trans : (p q r : FilePath) → below p q ≡ true → below q r ≡ true → below p r ≡ true
unfolding below
below_trans [] q r h k = refl
below_trans (x ∷ p) [] r h k = cc
below_trans (x ∷ p) (y ∷ q) [] h k = cc
below_trans (x ∷ p) (y ∷ q) (z ∷ r) h k = ground (arith, below_trans p q r, eq_text_trans x y z)

-- Of two paths above a third one, one stands above the other.
pub below_either :
    (p q r : FilePath)
    → below p r ≡ true
    → below q r ≡ true
    → (below p q ≡ true) ⊎ (below q p ≡ true)
unfolding below
below_either [] q r h k = inl refl
below_either (x ∷ p) [] r h k = inr refl
below_either (x ∷ p) (y ∷ q) [] h k = cc
below_either (x ∷ p) (y ∷ q) (z ∷ r) h k =
    ground (arith, below_either p q r, eq_text_right x y z, eq_text_right y x z)

ensure_at-else :
    (p q : FilePath) (d e : Disk) (o : Option Entry)
    → ensure_at o p d ≡ ok e
    → eq_path p q ≡ false
    → e q ≡ d q
unfolding put
ensure_at-else p q d e none made n = subst (λ f. f q ≡ d q) (ok_eq made) (rw n refl)
ensure_at-else p q d e (some folder) made n = subst (λ f. f q ≡ d q) (ok_eq made) refl
ensure_at-else p q d e (some (file c)) made n = absurd (raised_returns made)

-- Making a path leaves what is not on the way to it.
make_below-else :
    (base rest q : FilePath) (d e : Disk)
    → make_below base rest d ≡ ok e
    → below q (base ++ rest) ≡ false
    → e q ≡ d q
unfolding make_below
make_below-else base [] q d e made n = ap (λ f. f q) (sym (ok_eq made))
make_below-else base (x ∷ rest) q d e made n =
    let (f, first, more) =
      >>=-eq-ok (ensure_at (d (base ++ x ∷ [])) (base ++ x ∷ []) d)
        (make_below (base ++ x ∷ []) rest) made in
    let off : eq_path (base ++ x ∷ []) q ≡ false =
      not_on (Bool-cases (eq_path (base ++ x ∷ []) q)) in
    make_below-else (base ++ x ∷ []) rest q f e more
      (subst (λ p. below q p ≡ false) (sym (append_assoc base (x ∷ []) rest)) n)
    ∙ ensure_at-else (base ++ x ∷ []) q d f _ first off
  where
    on_way : below (base ++ x ∷ []) (base ++ x ∷ rest) ≡ true
    on_way =
        subst (λ p. below (base ++ x ∷ []) p ≡ true) (append_assoc base (x ∷ []) rest)
          (below-append (base ++ x ∷ []) rest)

    not_on :
        (eq_path (base ++ x ∷ []) q ≡ true) ⊎ (eq_path (base ++ x ∷ []) q ≡ false)
        → eq_path (base ++ x ∷ []) q ≡ false
    not_on (inl e) =
        cc (n, ap (λ t. below t (base ++ x ∷ rest)) (eq_path→eq (base ++ x ∷ []) q e), on_way)
    not_on (inr e) = e

pub mkdir-else :
    (path q : FilePath) (d e : Disk) → mkdir path d ≡ ok e → below q path ≡ false → e q ≡ d q
unfolding mkdir
mkdir-else path q d e made n = make_below-else [] path q d e made n

write_at-else :
    (path r q : FilePath) (c : List ℕ) (d e : Disk) (o : Option Entry)
    → write_at o (path ++ r) c d ≡ ok e
    → below path q ≡ false
    → e q ≡ d q
write_at-else path r q c d e none made b =
    subst (λ f. f q ≡ d q) (ok_eq made) (put_apart path r q (file c) d b)
write_at-else path r q c d e (some folder) made b = absurd (raised_returns made)
write_at-else path r q c d e (some (file old)) made b =
    subst (λ f. f q ≡ d q) (ok_eq made) (put_apart path r q (file c) d b)

copy_from-else :
    (source path r q : FilePath) (d e : Disk) (o : Option Entry)
    → copy_from o source (path ++ r) d ≡ ok e
    → below path q ≡ false
    → e q ≡ d q
copy_from-else source path r q d e none made b = absurd (raised_returns made)
copy_from-else source path r q d e (some folder) made b = absurd (raised_returns made)
copy_from-else source path r q d e (some (file c)) made b =
    elim (Bool-cases (eq_path source (path ++ r))) [
      | inl x ↦ absurd (raised_returns (rw x at made))
      | inr x ↦ write_at-else path r q c d e (d (path ++ r)) (rw x at made) b
    ]

target-else :
    (source path r q : FilePath) (d e : Disk) (o : Option Entry)
    → copy_from (d source) source (target_at o source (path ++ r)) d ≡ ok e
    → below path q ≡ false
    → e q ≡ d q
target-else source path r q d e (some folder) made b =
    copy_from-else source path (r ++ name_of source ∷ []) q d e (d source)
      (subst (λ p. copy_from (d source) source p d ≡ ok e)
        (append_assoc path r (name_of source ∷ [])) made)
      b
target-else source path r q d e (some (file c)) made b =
    copy_from-else source path r q d e (d source) made b
target-else source path r q d e none made b = copy_from-else source path r q d e (d source) made b

-- Copying a file to a path below a folder leaves what is elsewhere.
pub copy2-else :
    (source path r q : FilePath) (d e : Disk)
    → copy2 source (path ++ r) d ≡ ok e
    → below path q ≡ false
    → e q ≡ d q
unfolding copy2
copy2-else source path r q d e made b = target-else source path r q d e (d (path ++ r)) made b

no_file_at :
    (p q : FilePath) (d : Disk) (o : Option Entry)
    → d p ≡ o
    → (o ≡ some folder → ⊥)
    → d q ≡ some folder
    → eq_path p q ≡ false
no_file_at p q d o at other h = elim (Bool-cases (eq_path p q)) [
  | inl x ↦ absurd (other (sym at ∙ (ap d (eq_path→eq p q x) ∙ h)))
  | inr x ↦ x
]

write_at-folder :
    (p q : FilePath) (c : List ℕ) (d e : Disk) (o : Option Entry)
    → d p ≡ o
    → write_at o p c d ≡ ok e
    → d q ≡ some folder
    → e q ≡ some folder
unfolding put
write_at-folder p q c d e none at made h =
    ap (λ f. f q) (sym (ok_eq made)) ∙ rw (no_file_at p q d none at (λ x. cc) h) h
write_at-folder p q c d e (some folder) at made h = absurd (raised_returns made)
write_at-folder p q c d e (some (file old)) at made h =
    ap (λ f. f q) (sym (ok_eq made)) ∙ rw (no_file_at p q d (some (file old)) at (λ x. cc) h) h

copy_from-folder :
    (source p q : FilePath) (d e : Disk) (o : Option Entry)
    → copy_from o source p d ≡ ok e
    → d q ≡ some folder
    → e q ≡ some folder
copy_from-folder source p q d e none made h = absurd (raised_returns made)
copy_from-folder source p q d e (some folder) made h = absurd (raised_returns made)
copy_from-folder source p q d e (some (file c)) made h = elim (Bool-cases (eq_path source p)) [
  | inl x ↦ absurd (raised_returns (rw x at made))
  | inr x ↦ write_at-folder p q c d e (d p) refl (rw x at made) h
]

-- Copying a file leaves the folders.
pub copy2-folder :
    (source p q : FilePath) (d e : Disk)
    → copy2 source p d ≡ ok e
    → d q ≡ some folder
    → e q ≡ some folder
unfolding copy2
copy2-folder source p q d e made h =
    copy_from-folder source (target_at (d p) source p) q d e (d source) made h
