-- ===== src/Session/Scopes.antt =====
-- The home of a session that is removed at the end: what the whole session leaves.
use desmata.Prelude.{
  true, false, Option, none, some, [], ◌∷◌, ◌++◌, ◌≡◌, refl, sym, ◌∙◌, subst, Bool-cases, inl, inr,
  append-nil,
}
use desmata.Prelude.Results.{Result, ok, err, Error, nothing_there}
use desmata.Disk.{
  FilePath, Entry, folder, file, Disk, there, put, below, eq_path, rest_below, mkdir, copytree,
  copied_over,
}
use desmata.Disk.Paths.{
  eq_path→eq, put_there, put_apart, make_below-IsWay, IsWay-kept, IsWay-append, rest_below-append,
}
use desmata.Session.{
  HomePolicy, inherit_home, ephemeral, persistent, from_snapshot, cleanup, Context, sessions,
  new_home, temporary, seed, choose,
}
use desmata.Session.Traces.{Within}

rest_of_self : (h : FilePath) → rest_below h h ≡ []
rest_of_self h = subst (λ q. rest_below h q ≡ []) (append-nil h) (rest_below-append h [])

put_folder : (p q : FilePath) (d : Disk) → d q ≡ some folder → put p folder d q ≡ some folder
unfolding put
put_folder p q d h = elim (Bool-cases (eq_path p q)) [ inl x ↦ rw x refl | inr x ↦ rw x h ]

copied_folder : (o old : Option Entry) → o ≡ some folder → copied_over o old ≡ some folder
copied_folder o old e = rw e refl

other_entry :
    (p q : FilePath) (m : Disk)
    → eq_path p q ≡ false
    → put p folder m q ≡ some folder
    → m q ≡ some folder
unfolding put
other_entry p q m x h = rw x at h

-- A pair's parts, where it is what a call returns.
returned_home :
    {r t : FilePath} {d e : Disk} → ◌≡◌ {A = Result FilePath × Disk} (ok r, d) (ok t, e) → r ≡ t
returned_home same = cc

returned_disk :
    {r t : Result FilePath} {d e : Disk} → ◌≡◌ {A = Result FilePath × Disk} (r, d) (t, e) → d ≡ e
returned_disk same = cc

raises :
    {x : Error} {t : FilePath} {d e : Disk}
    → ◌≡◌ {A = Result FilePath × Disk} (err x, d) (ok t, e)
    → ⊥
raises same = cc

module _ (C : Context) (d m : Disk) (made : mkdir (sessions C) d ≡ ok m) where
  abbrev pub fresh_home : FilePath
  fresh_home = new_home C m

  pub temporary-home : temporary C d ≡ (ok fresh_home, put fresh_home folder m)
  unfolding temporary
  temporary-home = rw made refl

  pub temporary-Within : Within fresh_home m (put fresh_home folder m)
  unfolding new_home
  temporary-Within = record {
    way =
        IsWay-append [] (sessions C) (C.fresh_name m ∷ []) _
          (IsWay-kept [] (sessions C) m _ (λ q h. put_folder fresh_home q m h)
            (unfold mkdir in make_below-IsWay [] (sessions C) d m made))
          (put_there fresh_home folder m, tt);
    apart = λ q b.
        subst (λ p. put p folder m q ≡ m q) (append-nil fresh_home)
          (put_apart fresh_home [] q folder m b);
  }

  -- mkdtemp returns a folder that holds nothing.
  module _ (fresh : (q : FilePath) → below fresh_home q ≡ true → m q ≡ none) where
    at_itself :
        (source q : FilePath)
        → put fresh_home folder m source ≡ some folder
        → fresh_home ≡ q
        → put fresh_home folder m (source ++ rest_below fresh_home q) ≡ some folder
    at_itself source q is_folder x =
        subst (λ p. put fresh_home folder m (source ++ rest_below fresh_home p) ≡ some folder) x
          (rw (rest_of_self fresh_home, append-nil source) is_folder)

    copytree-folder :
        (source q : FilePath)
        → put fresh_home folder m source ≡ some folder
        → put fresh_home folder m q ≡ some folder
        → copytree source fresh_home (put fresh_home folder m) q ≡ some folder
    unfolding copytree
    copytree-folder source q is_folder h = elim (Bool-cases (below fresh_home q)) [
      | inr b ↦ rw b h
      | inl b ↦ elim (Bool-cases (eq_path fresh_home q)) [
        | inl x ↦
            rw b (copied_folder _ _ (at_itself source q is_folder (eq_path→eq fresh_home q x)))
        | inr x ↦ absurd (nothing_there (sym (fresh q b) ∙ other_entry fresh_home q m x h))
      ]
    ]

    copytree-Within :
        (source : FilePath)
        → put fresh_home folder m source ≡ some folder
        → Within fresh_home m (copytree source fresh_home (put fresh_home folder m))
    copytree-Within source is_folder = record {
      way =
          IsWay-kept [] fresh_home (put fresh_home folder m) _
            (λ q h. copytree-folder source q is_folder h) temporary-Within.way;
      apart = λ q b. unfold copytree in rw b (temporary-Within.apart q b);
    }

    seed-Within :
        (source : FilePath) (o : Option Entry) (home : FilePath) (s : Disk)
        → put fresh_home folder m source ≡ o
        → seed source fresh_home o (put fresh_home folder m) ≡ (ok home, s)
        → (home ≡ fresh_home) × Within fresh_home m s
    unfolding seed
    seed-Within source none home s at chosen = absurd (raises chosen)
    seed-Within source (some (file c)) home s at chosen = absurd (raises chosen)
    seed-Within source (some folder) home s at chosen =
        elim (Bool-cases (below source fresh_home)) [
          | inl b ↦ absurd (raises (rw b at chosen))
          | inr b ↦
              let same = rw b at chosen in
              (
                sym (returned_home same),
                subst (λ e. Within fresh_home m e) (returned_disk same) (copytree-Within source at),
              )
        ]

    pub choose-Within :
        (policy : HomePolicy) (home : FilePath) (s : Disk)
        → cleanup policy ≡ true
        → choose C policy d ≡ (ok home, s)
        → (home ≡ fresh_home) × Within fresh_home m s
    unfolding choose cleanup
    choose-Within (inherit_home overlay) home s c chosen = cc
    choose-Within (persistent name overlay) home s c chosen = cc
    choose-Within (ephemeral overlay) home s c chosen =
        let same = sym temporary-home ∙ chosen in
        (
          sym (returned_home same),
          subst (λ e. Within fresh_home m e) (returned_disk same) temporary-Within,
        )
    choose-Within (from_snapshot source overlay) home s c chosen =
        elim (Bool-cases (there (d source))) [
          | inl b ↦
              seed-Within source (put fresh_home folder m source) home s refl
                (rw (b, temporary-home) at chosen)
          | inr b ↦ absurd (raises (rw b at chosen))
        ]
