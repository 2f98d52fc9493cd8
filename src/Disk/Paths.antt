-- ===== src/Disk/Paths.antt =====
-- Paths beneath a folder, and what making folders leaves as it was.
use desmata.Prelude.{
  true, false, Option, none, some, [], ◌∷◌, ◌++◌, ◌≡◌, refl, sym, ap, ◌∙◌, arith, Bool-cases, subst,
  inl, inr, append_assoc, append-nil,
}
use desmata.Prelude.Results.{ok, ok_eq, nothing_there, raised_returns, >>=-eq-ok}
use desmata.Prelude.Texts.{Text, eq_text→eq, eq_text_refl}
use desmata.Disk.{
  FilePath, Entry, folder, file, Disk, eq_path, below, put, ensure_at, make_below, mkdir,
  rest_below,
}

pub eq_path→eq : (p q : FilePath) → eq_path p q ≡ true → p ≡ q
unfolding eq_path
eq_path→eq [] [] h = refl
eq_path→eq [] (y ∷ q) h = cc
eq_path→eq (x ∷ p) [] h = cc
eq_path→eq (x ∷ p) (y ∷ q) h = ground (arith, eq_text→eq x y, eq_path→eq p q)

pub eq_path_refl : (p : FilePath) → eq_path p p ≡ true
unfolding eq_path
eq_path_refl [] = refl
eq_path_refl (x ∷ p) = ground (arith, eq_text_refl x, eq_path_refl p)

pub eq_path-append : (h p q : FilePath) → eq_path (h ++ p) (h ++ q) ≡ eq_path p q
unfolding eq_path
eq_path-append [] p q = refl
eq_path-append (x ∷ h) p q = rw (eq_text_refl x) (eq_path-append h p q)

pub below-append : (h q : FilePath) → below h (h ++ q) ≡ true
unfolding below
below-append [] q = refl
below-append (x ∷ h) q = rw (eq_text_refl x) (below-append h q)

pub below_refl : (h : FilePath) → below h h ≡ true
below_refl h = subst (λ q. below h q ≡ true) (append-nil h) (below-append h [])

pub rest_below-append : (h q : FilePath) → rest_below h (h ++ q) ≡ q
unfolding rest_below
rest_below-append [] q = refl
rest_below-append (x ∷ h) q = rest_below-append h q

-- What stands below a folder is the folder's path and a rest.
pub below→append : (h q : FilePath) → below h q ≡ true → q ≡ h ++ rest_below h q
unfolding below rest_below
below→append [] q b = refl
below→append (x ∷ h) [] b = cc
below→append (x ∷ h) (y ∷ q) b = ground (arith, eq_text→eq x y, below→append h q)

-- What is not below a folder is not below one beneath it.
pub below_more : (h r q : FilePath) → below h q ≡ false → below (h ++ r) q ≡ false
unfolding below
below_more [] r q b = cc
below_more (x ∷ h) r [] b = refl
below_more (x ∷ h) r (y ∷ q) b = ground (arith, below_more h r q)

-- What is not below a folder is no path beneath it.
pub elsewhere : (h r q : FilePath) → below h q ≡ false → eq_path (h ++ r) q ≡ false
elsewhere h r q b = elim (Bool-cases (eq_path (h ++ r) q)) [
  | inl e ↦ cc (b, ap (λ t. below h t) (eq_path→eq (h ++ r) q e), below-append h r)
  | inr e ↦ e
]

pub put_there : (p : FilePath) (v : Entry) (d : Disk) → put p v d p ≡ some v
unfolding put
put_there p v d = rw (eq_path_refl p) refl

pub put_apart :
    (h r q : FilePath) (v : Entry) (d : Disk) → below h q ≡ false → put (h ++ r) v d q ≡ d q
unfolding put
put_apart h r q v d b = rw (elsewhere h r q b) refl

-- Making a folder leaves every entry.
ensure_at-keeps :
    (p q : FilePath) (d e : Disk) (o : Option Entry) (v : Entry)
    → d p ≡ o
    → ensure_at o p d ≡ ok e
    → d q ≡ some v
    → e q ≡ some v
unfolding put
ensure_at-keeps p q d e none v at made h = elim (Bool-cases (eq_path p q)) [
  | inl x ↦ absurd (nothing_there (sym at ∙ ap d (eq_path→eq p q x) ∙ h))
  | inr x ↦ subst (λ f. f q ≡ some v) (ok_eq made) (rw x h)
]
ensure_at-keeps p q d e (some folder) v at made h = subst (λ f. f q ≡ some v) (ok_eq made) h
ensure_at-keeps p q d e (some (file c)) v at made h = absurd (raised_returns made)

ensure_at-makes :
    (p : FilePath) (d e : Disk) (o : Option Entry)
    → d p ≡ o
    → ensure_at o p d ≡ ok e
    → e p ≡ some folder
ensure_at-makes p d e none at made =
    subst (λ f. f p ≡ some folder) (ok_eq made) (put_there p folder d)
ensure_at-makes p d e (some folder) at made = subst (λ f. f p ≡ some folder) (ok_eq made) at
ensure_at-makes p d e (some (file c)) at made = absurd (raised_returns made)

ensure_at-apart :
    (h r q : FilePath) (d e : Disk) (o : Option Entry)
    → ensure_at o (h ++ r) d ≡ ok e
    → below h q ≡ false
    → e q ≡ d q
ensure_at-apart h r q d e none made b =
    subst (λ f. f q ≡ d q) (ok_eq made) (put_apart h r q folder d b)
ensure_at-apart h r q d e (some folder) made b = subst (λ f. f q ≡ d q) (ok_eq made) refl
ensure_at-apart h r q d e (some (file c)) made b = absurd (raised_returns made)

pub make_below-keeps :
    (base rest q : FilePath) (d e : Disk) (v : Entry)
    → make_below base rest d ≡ ok e
    → d q ≡ some v
    → e q ≡ some v
unfolding make_below
make_below-keeps base [] q d e v made h = subst (λ f. f q ≡ some v) (ok_eq made) h
make_below-keeps base (x ∷ rest) q d e v made h =
    let (f, first, more) =
      >>=-eq-ok (ensure_at (d (base ++ x ∷ [])) (base ++ x ∷ []) d)
        (make_below (base ++ x ∷ []) rest) made in
    make_below-keeps (base ++ x ∷ []) rest q f e v more
      (ensure_at-keeps (base ++ x ∷ []) q d f _ v refl first h)

-- What is not below the folder that is started from stays as it is.
pub make_below-apart :
    (base rest q : FilePath) (d e : Disk)
    → make_below base rest d ≡ ok e
    → below base q ≡ false
    → e q ≡ d q
unfolding make_below
make_below-apart base [] q d e made b = ap (λ f. f q) (sym (ok_eq made))
make_below-apart base (x ∷ rest) q d e made b =
    let (f, first, more) =
      >>=-eq-ok (ensure_at (d (base ++ x ∷ [])) (base ++ x ∷ []) d)
        (make_below (base ++ x ∷ []) rest) made in
    make_below-apart (base ++ x ∷ []) rest q f e more (below_more base (x ∷ []) q b)
    ∙ ensure_at-apart base (x ∷ []) q d f _ first b

-- All the folders on the way from a folder to a path beneath it are there.
abbrev pub IsWay : FilePath → FilePath → Disk → Type 0
IsWay base [] d = Unit
IsWay base (x ∷ rest) d = (d (base ++ x ∷ []) ≡ some folder) × IsWay (base ++ x ∷ []) rest d

pub make_below-IsWay :
    (base rest : FilePath) (d e : Disk) → make_below base rest d ≡ ok e → IsWay base rest e
unfolding make_below
make_below-IsWay base [] d e made = tt
make_below-IsWay base (x ∷ rest) d e made =
    let (f, first, more) =
      >>=-eq-ok (ensure_at (d (base ++ x ∷ [])) (base ++ x ∷ []) d)
        (make_below (base ++ x ∷ []) rest) made in
    (
      make_below-keeps (base ++ x ∷ []) rest (base ++ x ∷ []) f e folder more
          (ensure_at-makes (base ++ x ∷ []) d f _ refl first),
      make_below-IsWay (base ++ x ∷ []) rest f e more,
    )

-- A change that leaves the folders leaves a way.
pub IsWay-kept :
    (base rest : FilePath) (d e : Disk)
    → ((q : FilePath) → d q ≡ some folder → e q ≡ some folder)
    → IsWay base rest d
    → IsWay base rest e
IsWay-kept base [] d e k h = tt
IsWay-kept base (x ∷ rest) d e k (h, w) =
    (k (base ++ x ∷ []) h, IsWay-kept (base ++ x ∷ []) rest d e k w)

pub IsWay-append :
    (base p r : FilePath) (d : Disk)
    → IsWay base p d
    → IsWay (base ++ p) r d
    → IsWay base (p ++ r) d
IsWay-append base [] r d h k = subst (λ b. IsWay b r d) (append-nil base) k
IsWay-append base (x ∷ p) r d (h, w) k = (
  h,
  IsWay-append (base ++ x ∷ []) p r d w
      (subst (λ b. IsWay b r d) (sym (append_assoc base (x ∷ []) p)) k),
)

-- Where the folders on the way are there, the making of folders starts at the end of the way.
pub make_below-append :
    (base p r : FilePath) (d : Disk)
    → IsWay base p d
    → make_below base (p ++ r) d ≡ make_below (base ++ p) r d
unfolding make_below
make_below-append base [] r d w = rw (append-nil base) refl
make_below-append base (x ∷ p) r d (h, w) = rw h (
    make_below-append (base ++ x ∷ []) p r d w
    ∙ ap (λ b. make_below b r d) (append_assoc base (x ∷ []) p))

pub mkdir-append : (h r : FilePath) (d : Disk) → IsWay [] h d → mkdir (h ++ r) d ≡ make_below h r d
unfolding mkdir
mkdir-append h r d w = make_below-append [] h r d w

-- The last folder of a way.
pub last_folder :
    (base p : FilePath) (n : Text) (d : Disk)
    → IsWay base (p ++ n ∷ []) d
    → d ((base ++ p) ++ n ∷ []) ≡ some folder
last_folder base [] n d (h, w) =
    subst (λ b. d (b ++ n ∷ []) ≡ some folder) (sym (append-nil base)) h
last_folder base (x ∷ p) n d (h, w) =
    subst (λ b. d (b ++ n ∷ []) ≡ some folder) (append_assoc base (x ∷ []) p)
      (last_folder (base ++ x ∷ []) p n d w)

pub mkdir-folder :
    (p : FilePath) (n : Text) (d e : Disk)
    → mkdir (p ++ n ∷ []) d ≡ ok e
    → e (p ++ n ∷ []) ≡ some folder
unfolding mkdir
mkdir-folder p n d e made = last_folder [] p n e (make_below-IsWay [] (p ++ n ∷ []) d e made)

pub below_longer : (p r : FilePath) (x : Text) → below (p ++ x ∷ r) p ≡ false
unfolding below
below_longer [] r x = refl
below_longer (y ∷ p) r x = ground (arith, below_longer p r x)

pub below-append_both : (h p q : FilePath) → below (h ++ p) (h ++ q) ≡ below p q
unfolding below
below-append_both [] p q = refl
below-append_both (x ∷ h) p q = rw (eq_text_refl x) (below-append_both h p q)
