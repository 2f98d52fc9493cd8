-- ===== src/Session/Seeded.antt =====
-- The homes of two sessions with the same declared inputs.
use desmata.Prelude.{
  ℕ, false, Option, none, some, List, [], ◌∷◌, ◌++◌, ◌≡◌, refl, ap, subst, Bool-cases, inl, inr,
  append_assoc, append-nil,
}
use desmata.Prelude.Results.{Result, ok, err, Error, ◌>>=◌}
use desmata.Disk.{
  FilePath, Entry, folder, file, Disk, parent, put, below, eq_path, ensure_at, make_below, mkdir,
  copy_from, write_at,
}
use desmata.Disk.Paths.{eq_path→eq, eq_path-append, below-append, mkdir-append}
use desmata.Session.Traces.{Within, mkdir-parent, parent-append}

-- Both calls return, with related disks, or both raise the same error.
pub data BothEnd (R : Disk → Disk → Type 0) : Result Disk → Result Disk → Type 0 where
  both_return : {a b : Disk} → R a b → BothEnd R (ok a) (ok b)
  both_raise : {x : Error} → BothEnd R (err x) (err x)

not_source : (h source r : FilePath) → below h source ≡ false → eq_path source (h ++ r) ≡ false
not_source h source r b = elim (Bool-cases (eq_path source (h ++ r))) [
  | inl e ↦ cc (b, ap (λ t. below h t) (eq_path→eq source (h ++ r) e), below-append h r)
  | inr e ↦ e
]

module _ (g h : FilePath) where
  -- What stands below the one folder stands below the other.
  abbrev pub IsSame : Disk → Disk → Type 0
  IsSame a b = (r : FilePath) → a (g ++ r) ≡ b (h ++ r)

  pub put-IsSame :
      (r : FilePath) (v : Entry) (a b : Disk)
      → IsSame a b
      → IsSame (put (g ++ r) v a) (put (h ++ r) v b)
  unfolding put
  put-IsSame r v a b s q = rw (eq_path-append g r q, eq_path-append h r q, s q) refl

  ensure_at-IsSame :
      (r : FilePath) (a b : Disk) (o : Option Entry)
      → IsSame a b
      → BothEnd IsSame (ensure_at o (g ++ r) a) (ensure_at o (h ++ r) b)
  ensure_at-IsSame r a b none s = both_return (put-IsSame r folder a b s)
  ensure_at-IsSame r a b (some folder) s = both_return s
  ensure_at-IsSame r a b (some (file c)) s = both_raise

  then-IsSame :
      (r t : Result Disk) (next other : Disk → Result Disk)
      → BothEnd IsSame r t
      → ((a b : Disk) → IsSame a b → BothEnd IsSame (next a) (other b))
      → BothEnd IsSame (r >>= next) (t >>= other)
  then-IsSame _ _ next other (both_return s) k = k _ _ s
  then-IsSame _ _ next other both_raise k = both_raise

  make_below-IsSame :
      (base r : FilePath) (a b : Disk)
      → IsSame a b
      → BothEnd IsSame (make_below (g ++ base) r a) (make_below (h ++ base) r b)
  unfolding make_below
  make_below-IsSame base [] a b s = both_return s
  make_below-IsSame base (x ∷ r) a b s =
      rw (append_assoc g base (x ∷ []), append_assoc h base (x ∷ []), s (base ++ x ∷ []))
        (then-IsSame (ensure_at (b (h ++ (base ++ x ∷ []))) (g ++ (base ++ x ∷ [])) a) _ _ _
          (ensure_at-IsSame (base ++ x ∷ []) a b (b (h ++ (base ++ x ∷ []))) s)
          (λ c d t. make_below-IsSame (base ++ x ∷ []) r c d t))

  module _ (m n : Disk) where
    pub mkdir-IsSame :
        (r : FilePath) (a b : Disk)
        → Within g m a
        → Within h n b
        → IsSame a b
        → BothEnd IsSame (mkdir (g ++ r) a) (mkdir (h ++ r) b)
    mkdir-IsSame r a b v w s =
        rw (mkdir-append g r a v.way, mkdir-append h r b w.way)
          (subst (λ p. BothEnd IsSame (make_below p r a) (make_below h r b)) (append-nil g)
            (subst (λ p. BothEnd IsSame (make_below (g ++ []) r a) (make_below p r b))
              (append-nil h) (make_below-IsSame [] r a b s)))

    pub parent-IsSame :
        (r : FilePath) (a b : Disk)
        → Within g m a
        → Within h n b
        → IsSame a b
        → BothEnd IsSame (mkdir (parent (g ++ r)) a) (mkdir (parent (h ++ r)) b)
    parent-IsSame [] a b v w s =
        rw (append-nil g, append-nil h, mkdir-parent g a v.way, mkdir-parent h b w.way)
          (both_return s)
    parent-IsSame (x ∷ r) a b v w s =
        rw (parent-append g x r, parent-append h x r) (mkdir-IsSame (parent (x ∷ r)) a b v w s)

  write_at-IsSame :
      (r : FilePath) (c : List ℕ) (o : Option Entry) (a b : Disk)
      → IsSame a b
      → BothEnd IsSame (write_at o (g ++ r) c a) (write_at o (h ++ r) c b)
  write_at-IsSame r c none a b s = both_return (put-IsSame r (file c) a b s)
  write_at-IsSame r c (some folder) a b s = both_raise
  write_at-IsSame r c (some (file old)) a b s = both_return (put-IsSame r (file c) a b s)

  pub copy_from-IsSame :
      (source r : FilePath) (o : Option Entry) (a b : Disk)
      → below g source ≡ false
      → below h source ≡ false
      → IsSame a b
      → BothEnd IsSame (copy_from o source (g ++ r) a) (copy_from o source (h ++ r) b)
  copy_from-IsSame source r none a b i j s = both_raise
  copy_from-IsSame source r (some folder) a b i j s = both_raise
  copy_from-IsSame source r (some (file c)) a b i j s =
      rw (not_source g source r i, not_source h source r j, s r)
        (write_at-IsSame r c (b (h ++ r)) a b s)
