-- ===== src/Session/Determined.antt =====
-- What a session's block finds in a fresh home.
use desmata.Prelude.{
  true, false, Option, none, some, List, [], ◌∷◌, ◌++◌, ◌≡◌, refl, sym, ◌∙◌, Bool-cases, inl, inr,
  append_assoc,
}
use desmata.Prelude.Results.{Result, ok}
use desmata.Disk.{
  FilePath, Entry, folder, file, Disk, relative, rooted, join_path, parent, there, below, mkdir,
  copy2, copy_from, target_at, name_of,
}
use desmata.Session.{Overlay, changed, left, outcome, make_subdirs, lay_over}
use desmata.Session.Traces.{all_inside, Within, mkdir-Within, parent-Within, copy2-Within, clash}
use desmata.Session.Seeded.{
  BothEnd, both_return, both_raise, IsSame, mkdir-IsSame, parent-IsSame, copy_from-IsSame,
}

module _ (g h : FilePath) where
  -- Two calls with the same outcome, and disks that are the same below the homes.
  pub record EndSame {A : Type 0} (u v : Result A × Disk) : Type 0 where
    pub outcomes : outcome u ≡ outcome v
    pub disks : IsSame g h (left u) (left v)

  changed-EndSame :
      {A : Type 0} (r t : Result Disk) (next other : Disk → Result A × Disk) (a b : Disk)
      → BothEnd (IsSame g h) r t
      → IsSame g h a b
      → ((c d : Disk) → r ≡ ok c → t ≡ ok d → IsSame g h c d → EndSame (next c) (other d))
      → EndSame (changed r next a) (changed t other b)
  changed-EndSame _ _ next other a b (both_return s) before k = k _ _ refl refl s
  changed-EndSame _ _ next other a b both_raise before k = record {
    outcomes = refl;
    disks = before;
  }

  target_at-IsSame :
      (source r : FilePath) (o p : Option Entry) (a b : Disk)
      → below g source ≡ false
      → below h source ≡ false
      → IsSame g h a b
      → BothEnd
          (IsSame g h)
          (copy_from o source (target_at p source (g ++ r)) a)
          (copy_from o source (target_at p source (h ++ r)) b)
  target_at-IsSame source r o none a b i j s = copy_from-IsSame g h source r o a b i j s
  target_at-IsSame source r o (some (file c)) a b i j s = copy_from-IsSame g h source r o a b i j s
  target_at-IsSame source r o (some folder) a b i j s =
      rw (append_assoc g r (name_of source ∷ []), append_assoc h r (name_of source ∷ []))
        (copy_from-IsSame g h source (r ++ name_of source ∷ []) o a b i j s)

  copy2-IsSame :
      (source r : FilePath) (a b : Disk)
      → a source ≡ b source
      → below g source ≡ false
      → below h source ≡ false
      → IsSame g h a b
      → BothEnd (IsSame g h) (copy2 source (g ++ r) a) (copy2 source (h ++ r) b)
  unfolding copy2
  copy2-IsSame source r a b e i j s =
      rw (e, s r) (target_at-IsSame source r (b source) (b (h ++ r)) a b i j s)

  module _ (m n : Disk) where
    pub make_subdirs-EndSame :
        (subdirs : List FilePath) (a b : Disk)
        → Within g m a
        → Within h n b
        → IsSame g h a b
        → EndSame (make_subdirs g subdirs a) (make_subdirs h subdirs b)
    unfolding make_subdirs
    make_subdirs-EndSame [] a b v w s = record { outcomes = refl; disks = s }
    make_subdirs-EndSame (subdir ∷ rest) a b v w s =
        changed-EndSame (mkdir (g ++ subdir) a) (mkdir (h ++ subdir) b) (make_subdirs g rest)
          (make_subdirs h rest) a b (mkdir-IsSame g h m n subdir a b v w s) s
          (λ c d made made_too t.
            make_subdirs-EndSame rest c d (mkdir-Within g m subdir a c made v)
              (mkdir-Within h n subdir b d made_too w) t)

    -- The declared inputs stand outside the homes, and are the same on both disks.
    abbrev pub IsGiven : Overlay → Type 0
    IsGiven [] = Unit
    IsGiven ((relpath, source) ∷ rest) =
        (m source ≡ n source) × (below g source ≡ false) × (below h source ≡ false) × IsGiven rest

    pub lay_over-EndSame :
        (overlay : Overlay) (a b : Disk)
        → all_inside overlay ≡ true
        → IsGiven overlay
        → Within g m a
        → Within h n b
        → IsSame g h a b
        → EndSame (lay_over g overlay a) (lay_over h overlay b)
    unfolding lay_over all_inside join_path
    lay_over-EndSame [] a b inside given v w s = record { outcomes = refl; disks = s }
    lay_over-EndSame ((rooted path, source) ∷ rest) a b inside given v w s = absurd (clash inside)
    lay_over-EndSame ((relative path, source) ∷ rest) a b inside (e, i, j, given) v w s =
        let at : a source ≡ b source = v.apart source i ∙ (e ∙ sym (w.apart source j)) in
        rw at (elim (Bool-cases (there (b source))) [
          | inr x ↦ rw x (record { outcomes = refl; disks = s })
          | inl x ↦ rw x (
              changed-EndSame (mkdir (parent (g ++ path)) a) (mkdir (parent (h ++ path)) b) _ _ a b
                (parent-IsSame g h m n path a b v w s) s
                (λ c d made made_too t.
                  let p = parent-Within g m path a c made v in
                  let q = parent-Within h n path b d made_too w in
                  let still : c source ≡ d source =
                    p.apart source i ∙ (e ∙ sym (q.apart source j)) in
                  changed-EndSame (copy2 source (g ++ path) c) (copy2 source (h ++ path) d) _ _ c d
                    (copy2-IsSame source path c d still i j t) t
                    (λ k l copied copied_too u.
                      lay_over-EndSame rest k l inside given
                        (copy2-Within g m source path c k copied p)
                        (copy2-Within h n source path d l copied_too q) u)))
        ])
