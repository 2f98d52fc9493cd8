-- ===== src/Session/Refusals.antt =====
-- What the making of a home raises.
use desmata.Prelude.{
  ℕ, Bool, true, false, ◌||◌, Option, none, some, List, [], ◌∷◌, ◌++◌, ◌≡◌, refl, sym, ap, ◌∙◌,
  Bool-cases, inl, inr, ◌⊎◌,
}
use desmata.Prelude.Results.{Result, ok, err, Error, cell_unavailable, os_error, ◌>>=◌}
use desmata.Disk.{
  FilePath, Entry, folder, file, Disk, relative, rooted, join_path, parent, there, below, eq_path,
  ensure_at, make_below, mkdir, copy2, copy_from, write_at, target_at,
}
use desmata.Disk.Paths.{eq_path→eq}
use desmata.Session.{Overlay, Scope, changed, run_next, outcome, make_subdirs, lay_over}
use desmata.Session.Traces.{all_inside, Within, parent-Within, copy2-Within}

-- The session declares the file as an input.
unfoldable pub declares : FilePath → Overlay → Bool
declares source [] = false
declares source ((relpath, other) ∷ rest) = eq_path other source || declares source rest

-- The errors that the making of a home raises.
abbrev pub IsRefusal : Error → Type 0
IsRefusal x = (x ≡ cell_unavailable) ⊎ (x ≡ os_error)

-- A call that raises one of them.
abbrev pub Refuses : {A : Type 0} → Result A × Disk → Type 0
Refuses u = (x : Error) × (outcome u ≡ err x) × IsRefusal x

err_eq : {x y : Error} → ◌≡◌ {A = Result Disk} (err x) (err y) → x ≡ y
err_eq same = cc

ok_raised : {d : Disk} {x : Error} → ◌≡◌ {A = Result Disk} (ok d) (err x) → ⊥
ok_raised same = cc

ensure_at-raises :
    (o : Option Entry) (p : FilePath) (d : Disk) (x : Error)
    → ensure_at o p d ≡ err x
    → x ≡ os_error
ensure_at-raises none p d x h = absurd (ok_raised h)
ensure_at-raises (some folder) p d x h = absurd (ok_raised h)
ensure_at-raises (some (file c)) p d x h = sym (err_eq h)

then_raises :
    (r : Result Disk) (next : Disk → Result Disk) (x : Error)
    → ((y : Error) → r ≡ err y → y ≡ os_error)
    → ((e : Disk) → next e ≡ err x → x ≡ os_error)
    → (r >>= next) ≡ err x
    → x ≡ os_error
then_raises (ok e) next x first second h = second e h
then_raises (err y) next x first second h = first x h

make_below-raises :
    (base rest : FilePath) (d : Disk) (x : Error) → make_below base rest d ≡ err x → x ≡ os_error
unfolding make_below
make_below-raises base [] d x h = absurd (ok_raised h)
make_below-raises base (n ∷ rest) d x h =
    then_raises (ensure_at (d (base ++ n ∷ [])) (base ++ n ∷ []) d)
      (make_below (base ++ n ∷ []) rest) x
      (ensure_at-raises (d (base ++ n ∷ [])) (base ++ n ∷ []) d)
      (λ e. make_below-raises (base ++ n ∷ []) rest e x) h

mkdir-raises : (p : FilePath) (d : Disk) (x : Error) → mkdir p d ≡ err x → x ≡ os_error
unfolding mkdir
mkdir-raises p d x h = make_below-raises [] p d x h

write_at-raises :
    (o : Option Entry) (p : FilePath) (c : List ℕ) (d : Disk) (x : Error)
    → write_at o p c d ≡ err x
    → x ≡ os_error
write_at-raises (some folder) p c d x h = sym (err_eq h)
write_at-raises (some (file old)) p c d x h = absurd (ok_raised h)
write_at-raises none p c d x h = absurd (ok_raised h)

copy_from-raises :
    (o : Option Entry) (source p : FilePath) (d : Disk) (x : Error)
    → copy_from o source p d ≡ err x
    → x ≡ os_error
copy_from-raises none source p d x h = sym (err_eq h)
copy_from-raises (some folder) source p d x h = sym (err_eq h)
copy_from-raises (some (file c)) source p d x h = elim (Bool-cases (eq_path source p)) [
  | inl e ↦ sym (err_eq (rw e at h))
  | inr e ↦ write_at-raises (d p) p c d x (rw e at h)
]

copy2-raises :
    (source p : FilePath) (d : Disk) (x : Error) → copy2 source p d ≡ err x → x ≡ os_error
unfolding copy2
copy2-raises source p d x h = copy_from-raises (d source) source (target_at (d p) source p) d x h

changed-Refuses :
    {A : Type 0} (r : Result Disk) (next : Disk → Result A × Disk) (d : Disk)
    → ((x : Error) → r ≡ err x → x ≡ os_error)
    → ((e : Disk) → r ≡ ok e → Refuses (next e))
    → Refuses (changed r next d)
changed-Refuses (ok e) next d first second = second e refl
changed-Refuses (err x) next d first second = (x, refl, inr (first x refl))

pub no_error : {A : Type 0} {a : A} {x : Error} → ◌≡◌ {A = Result A} (ok a) (err x) → ⊥
no_error h = cc

pub same_error : {A : Type 0} {x y : Error} → ◌≡◌ {A = Result A} (err y) (err x) → y ≡ x
same_error h = cc

pub run_next-Refuses :
    {A B : Type 0} (next : A → Scope B) (u : Result A × Disk)
    → Refuses u
    → Refuses (run_next next u)
run_next-Refuses next (ok a, e) (x, h, k) = absurd (no_error h)
run_next-Refuses next (err y, e) (x, h, k) = (x, ap err (same_error h), k)

module _ (home : FilePath) (m : Disk) (source : FilePath) (missing : m source ≡ none)
    (outside : below home source ≡ false) where
  pub lay_over-Refuses :
      (overlay : Overlay) (d : Disk)
      → all_inside overlay ≡ true
      → declares source overlay ≡ true
      → Within home m d
      → Refuses (lay_over home overlay d)
  unfolding lay_over all_inside declares join_path
  lay_over-Refuses [] d inside h w = cc
  lay_over-Refuses ((rooted path, other) ∷ rest) d inside h w = cc
  lay_over-Refuses ((relative path, other) ∷ rest) d inside h w =
      elim (Bool-cases (there (d other))) [
        | inr x ↦ rw x (cell_unavailable, refl, inl refl)
        | inl x ↦ elim (Bool-cases (eq_path other source)) [
          | inl e ↦ absurd (
              not_there (d other)
                (ap d (eq_path→eq other source e) ∙ (w.apart source outside ∙ missing)) x)
          | inr e ↦ rw x (
              changed-Refuses (mkdir (parent (home ++ path)) d) _ d (mkdir-raises _ d) (λ f made.
                let v = parent-Within home m path d f made w in
                changed-Refuses (copy2 other (home ++ path) f) _ f (copy2-raises other _ f)
                  (λ g copied.
                    lay_over-Refuses rest g inside (rw e at h)
                      (copy2-Within home m other path f g copied v))))
        ]
      ]
    where
      not_there : (o : Option Entry) → o ≡ none → there o ≡ true → ⊥
      not_there o h k = cc

pub subdirs_end :
    (home : FilePath) (subdirs : List FilePath) (d : Disk)
    → ((e : Disk) × (make_subdirs home subdirs d ≡ (ok tt, e)))
      ⊎ Refuses (make_subdirs home subdirs d)
unfolding make_subdirs
subdirs_end home [] d = inl (d, refl)
subdirs_end home (subdir ∷ rest) d =
    made_or_not (mkdir (home ++ subdir) d) refl (subdirs_end home rest)
  where
    made_or_not :
        (r : Result Disk)
        → mkdir (home ++ subdir) d ≡ r
        → ((e : Disk)
            → ((f : Disk) × (make_subdirs home rest e ≡ (ok tt, f)))
              ⊎ Refuses (make_subdirs home rest e))
        → ((e : Disk) × (changed r (make_subdirs home rest) d ≡ (ok tt, e)))
          ⊎ Refuses (changed r (make_subdirs home rest) d)
    made_or_not (ok e) h more = more e
    made_or_not (err x) h more = inr (x, refl, inr (mkdir-raises (home ++ subdir) d x h))
