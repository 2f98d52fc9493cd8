-- ===== src/Session/Hermetic.antt =====
-- Sessions over homes that are removed at the end.
use desmata.Prelude.{true, false, none, some, ◌≡◌, refl, sym, ap, ◌∙◌, subst, Bool-cases, inl, inr}
use desmata.Prelude.Results.{Result, ok}
use desmata.Disk.{FilePath, Disk, below, mkdir, rmtree}
use desmata.Session.{
  HomePolicy, overlay_of, cleanup, Context, Scope, left, outcome, sessions, new_home, prepare,
  clean, finish, home_for, Session, serve, session, policy_of,
}
use desmata.Session.Traces.{all_inside, Within}
use desmata.Session.Leaves.{Confined, serve-Confined, prepare-Within}

finish-left :
    {A : Type 0} (policy : HomePolicy) (home : FilePath) (u : Result A × Disk)
    → left (finish policy home u) ≡ clean policy home (left u)
unfolding finish
finish-left policy home (r, d) = refl

finish-outcome :
    {A : Type 0} (policy : HomePolicy) (home : FilePath) (u : Result A × Disk)
    → outcome (finish policy home u) ≡ outcome u
unfolding finish
finish-outcome policy home (r, d) = refl

-- Where a home is removed, and outside it nothing has changed, everything is as before.
removed-left :
    (policy : HomePolicy) (home q : FilePath) (m e : Disk)
    → cleanup policy ≡ true
    → (below home q ≡ true → m q ≡ none)
    → (below home q ≡ false → e q ≡ m q)
    → clean policy home e q ≡ m q
unfolding clean rmtree
removed-left policy home q m e removed inside outside =
    rw removed (elim (Bool-cases (below home q)) [
      | inl b ↦ rw b (sym (inside b))
      | inr b ↦ rw b (outside b)
    ])

module _ {Handle A : Type 0} (setup : FilePath → Scope Handle)
    (teardown : Handle → Scope (Unit {0})) (block : Session Handle → Scope A) (C : Context)
    (policy : HomePolicy) (d : Disk) where
  -- What follows a home that is ready.
  session_ready :
      (home : FilePath) (s : Disk)
      → prepare C policy d ≡ (ok home, s)
      → session setup teardown C (some policy) block d
        ≡ finish policy home (serve setup teardown policy block home s)
  unfolding session home_for policy_of
  session_ready home s ready = rw ready refl

  -- A session whose policy discards its home, whose inputs all go into the home, and whose setup,
  -- block and teardown change nothing outside the home: once the home is ready, the disk that the
  -- session leaves has at each path what it had when the folder of the sessions was made, and the
  -- session's outcome is that of setup, block and teardown, whether they return or raise.
  pub leaves_no_trace :
      (m s : Disk) (home : FilePath)
      → mkdir (sessions C) d ≡ ok m
      → ((q : FilePath) → below (new_home C m) q ≡ true → m q ≡ none)
      → cleanup policy ≡ true
      → all_inside (overlay_of policy) ≡ true
      → prepare C policy d ≡ (ok home, s)
      → Confined home (setup home)
      → ((handle : Handle) → Confined home (teardown handle))
      → ((live : Session Handle) → live.home ≡ home → Confined home (block live))
      → (outcome (session setup teardown C (some policy) block d)
          ≡ outcome (serve setup teardown policy block home s))
        × ((q : FilePath) → left (session setup teardown C (some policy) block d) q ≡ m q)
  leaves_no_trace m s home made fresh removed inside ready setup_in teardown_in block_in =
      let (at, w) = prepare-Within C policy d m s home made fresh removed inside ready in
      let v : Within home m s = subst (λ h. Within h m s) (sym at) w in
      let run = serve setup teardown policy block home s in
      (
        ap outcome (session_ready home s ready) ∙ finish-outcome policy home run,
        λ q.
            ap (λ u. left u q) (session_ready home s ready)
            ∙ (ap (λ e. e q) (finish-left policy home run)
                ∙ removed-left policy home q m (left run) removed
                    (λ b. fresh q (subst (λ h. below h q ≡ true) at b))
                    (λ b.
                      serve-Confined setup teardown block home setup_in teardown_in block_in policy
                        s q b
                      ∙ v.apart q b)),
      )
