-- ===== src/Session/Missing.antt =====
-- A session whose declared input is missing.
use desmata.Prelude.{true, false, none, some, [], ◌≡◌, refl, ap, subst, inl, inr}
use desmata.Prelude.Results.{Result, ok, err, Error}
use desmata.Disk.{FilePath, folder, Disk, put, below, mkdir}
use desmata.Disk.Paths.{last_folder}
use desmata.Session.{
  Overlay, HomePolicy, ephemeral, Context, Scope, left, sessions, new_home, choose, make_subdirs,
  lay_over, home_subdirs, furnish, prepare, home_for, Session, session, policy_of,
}
use desmata.Session.Traces.{all_inside, Within, make_subdirs-Within}
use desmata.Session.Scopes.{temporary-home, temporary-Within}
use desmata.Session.Leaves.{furnish-Within}
use desmata.Session.Refusals.{
  declares, IsRefusal, Refuses, no_error, same_error, run_next-Refuses, subdirs_end,
  lay_over-Refuses,
}

furnish-Refuses :
    (home source : FilePath) (overlay : Overlay) (m d : Disk)
    → m source ≡ none
    → below home source ≡ false
    → all_inside overlay ≡ true
    → declares source overlay ≡ true
    → Within home m d
    → Refuses (furnish overlay home d)
unfolding furnish
furnish-Refuses home source overlay m d missing outside inside declared w =
    elim (subdirs_end home home_subdirs d) [
      | inl (e, same) ↦
          let v : Within home m e =
            subst (λ r. Within home m (left r)) same
              (make_subdirs-Within home m home_subdirs d w) in
          rw same (
            run_next-Refuses (λ laid f. (ok home, f)) (lay_over home overlay e)
              (lay_over-Refuses home m source missing outside overlay e inside declared v))
      | inr refused ↦ run_next-Refuses _ (make_subdirs home home_subdirs d) refused
    ]

module _ (C : Context) where
  pub prepared_temporary :
      (overlay : Overlay) (d m : Disk)
      → mkdir (sessions C) d ≡ ok m
      → prepare C (ephemeral overlay) d
        ≡ furnish overlay (new_home C m) (put (new_home C m) folder m)
  unfolding prepare choose
  prepared_temporary overlay d m made = rw (temporary-home C d m made) refl

  home_there : (m s : Disk) → Within (new_home C m) m s → s (new_home C m) ≡ some folder
  unfolding new_home
  home_there m s w = last_folder [] (sessions C) (C.fresh_name m) s w.way

  module _ {Handle A : Type 0} where
    stopped :
        (policy : HomePolicy) (u : Result FilePath × Disk) (d : Disk)
        → prepare C policy d ≡ u
        → Refuses u
        → (x : Error) × ((setup : FilePath → Scope Handle) (teardown : Handle → Scope (Unit {0}))
              (block : Session Handle → Scope A)
            → session setup teardown C (some policy) block d ≡ (err x, left u))
          × IsRefusal x
    unfolding session home_for policy_of
    stopped policy (ok home, e) d same (x, h, k) = absurd (no_error h)
    stopped policy (err y, e) d same (x, h, k) =
        (x, λ setup teardown block. rw same (ap (λ z. (err z, e)) (same_error h)), k)

    -- A session over a fresh home, one of whose declared inputs is not on the disk, whether it stands
    -- first among them or behind others: with whatever setup, block and teardown, it comes to the
    -- same error and leaves the same disk. The error is CellUnavailable or one of the file system,
    -- and the home that was made for the session is left on the disk.
    pub missing_input :
        (source : FilePath) (overlay : Overlay) (d m : Disk)
        → mkdir (sessions C) d ≡ ok m
        → m source ≡ none
        → below (new_home C m) source ≡ false
        → all_inside overlay ≡ true
        → declares source overlay ≡ true
        → (x : Error) × (s : Disk) × ((setup : FilePath → Scope Handle)
              (teardown : Handle → Scope (Unit {0})) (block : Session Handle → Scope A)
            → session setup teardown C (some (ephemeral overlay)) block d ≡ (err x, s))
          × IsRefusal x
          × (s (new_home C m) ≡ some folder)
    missing_input source overlay d m made missing outside inside declared =
        let home = new_home C m in
        let start = put home folder m in
        let w = temporary-Within C d m made in
        let refused =
          furnish-Refuses home source overlay m start missing outside inside declared w in
        let (x, raised, k) =
          stopped (ephemeral overlay) (furnish overlay home start) d
            (prepared_temporary overlay d m made) refused in
        let v = furnish-Within overlay home m start inside w in
        (x, left (furnish overlay home start), raised, k, home_there m _ v)
