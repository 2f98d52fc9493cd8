-- ===== src/Session/Leaves.antt =====
-- What is left on the disk after a session whose home is removed.
use desmata.Prelude.{true, false, none, ◌≡◌, refl, sym, ap, ◌∙◌, subst}
use desmata.Prelude.Results.{Result, ok, err, Error}
use desmata.Disk.{FilePath, Disk, below, mkdir}
use desmata.Session.{
  Overlay, HomePolicy, overlay_of, cleanup, Context, Scope, run_next, left, sessions, new_home,
  choose, make_subdirs, lay_over, home_subdirs, furnish, prepare, Session, then_finally, tear_down,
  serve,
}
use desmata.Session.Traces.{all_inside, Within, make_subdirs-Within, lay_over-Within, left-run_next}
use desmata.Session.Scopes.{choose-Within}

-- A sequence of two calls that returns: both returned.
pub run_next_returned :
    {A B : Type 0} (next : A → Scope B) (r : Result A × Disk) (b : B) (s : Disk)
    → run_next next r ≡ (ok b, s)
    → (a : A) × (e : Disk) × (r ≡ (ok a, e)) × (next a e ≡ (ok b, s))
run_next_returned next (ok a, e) b s same = (a, e, refl, same)
run_next_returned next (err x, e) b s same = absurd (raised next x e b s same)
  where
    raised :
        {A B : Type 0} (next : A → Scope B) (x : Error) (e : Disk) (b : B) (s : Disk)
        → run_next next (err x, e) ≡ (ok b, s)
        → ⊥
    raised next x e b s same = cc

-- A call leaves what is not below a home.
abbrev pub Confined : {A : Type 0} → FilePath → Scope A → Type 0
Confined home call = (d : Disk) (q : FilePath) → below home q ≡ false → left (call d) q ≡ d q

module _ {Handle A : Type 0} (setup : FilePath → Scope Handle)
    (teardown : Handle → Scope (Unit {0})) (block : Session Handle → Scope A) (home : FilePath)
    (setup_in : Confined home (setup home))
    (teardown_in : (h : Handle) → Confined home (teardown h))
    (block_in : (live : Session Handle) → live.home ≡ home → Confined home (block live)) where
  finally-left : (r : Result A) (u : Result (Unit {0}) × Disk) → left (then_finally r u) ≡ left u
  finally-left r (ok done, d) = refl
  finally-left r (err e, d) = refl

  tear_down-left :
      (handle : Handle) (u : Result A × Disk) (q : FilePath)
      → below home q ≡ false
      → left (tear_down setup teardown handle u) q ≡ left u q
  unfolding tear_down
  tear_down-left handle (r, d) q b =
      ap (λ e. e q) (finally-left r (teardown handle d)) ∙ teardown_in handle d q b

  served :
      (policy : HomePolicy) (d : Disk) (q : FilePath) (u : Result Handle × Disk)
      → below home q ≡ false
      → left u q ≡ d q
      → left
          (run_next
            (λ handle e. tear_down setup teardown handle (
              block
                (record { home = home; handle = handle; declared_inputs = overlay_of policy })
                e))
            u)
          q
        ≡ d q
  served policy d q (ok handle, e) b h = tear_down-left handle _ q b ∙ (block_in _ refl e q b ∙ h)
  served policy d q (err x, e) b h = h

  pub serve-Confined :
      (policy : HomePolicy) → Confined home (serve setup teardown policy block home)
  unfolding serve
  serve-Confined policy d q b = served policy d q (setup home d) b (setup_in d q b)

pub furnish-Within :
    (overlay : Overlay) (home : FilePath) (m d : Disk)
    → all_inside overlay ≡ true
    → Within home m d
    → Within home m (left (furnish overlay home d))
unfolding furnish
furnish-Within overlay home m d inside w =
    left-run_next (Within home m) _ (make_subdirs home home_subdirs d)
      (make_subdirs-Within home m home_subdirs d w)
      (λ made e same.
        let v : Within home m e =
          subst (λ r. Within home m (left r)) same (make_subdirs-Within home m home_subdirs d w) in
        left-run_next (Within home m) _ (lay_over home overlay e)
          (lay_over-Within home m overlay e inside v)
          (λ laid f laid_out.
            subst (λ r. Within home m (left r)) laid_out
              (lay_over-Within home m overlay e inside v)))

furnish-home :
    (overlay : Overlay) (home h : FilePath) (d s : Disk)
    → furnish overlay home d ≡ (ok h, s)
    → h ≡ home
unfolding furnish
furnish-home overlay home h d s same =
    let (made, e, first, more) = run_next_returned _ (make_subdirs home home_subdirs d) h s same in
    let (laid, f, second, last) = run_next_returned _ (lay_over home overlay e) h s more in
    sym (same_home home h f s last)
  where
    same_home :
        (a b : FilePath) (d e : Disk) → ◌≡◌ {A = Result FilePath × Disk} (ok a, d) (ok b, e) → a ≡ b
    same_home a b d e same = cc

module _ (C : Context) (policy : HomePolicy) (d m s : Disk) (home : FilePath)
    (made : mkdir (sessions C) d ≡ ok m)
    (fresh : (q : FilePath) → below (new_home C m) q ≡ true → m q ≡ none)
    (removed : cleanup policy ≡ true) (inside : all_inside (overlay_of policy) ≡ true)
    (ready : prepare C policy d ≡ (ok home, s)) where
  pub prepare-Within : (home ≡ new_home C m) × Within (new_home C m) m s
  unfolding prepare
  prepare-Within =
      let (h, e, chosen, furnished) =
        run_next_returned (furnish (overlay_of policy)) (choose C policy d) home s ready in
      let (same, w) = choose-Within C d m made fresh policy h e removed chosen in
      let w_home : Within h m e = subst (λ p. Within p m e) (sym same) w in
      let at : home ≡ new_home C m = furnish-home (overlay_of policy) h home e s furnished ∙ same in
      let v =
        subst (λ r. Within h m (left r)) furnished
          (furnish-Within (overlay_of policy) h m e inside w_home) in
      (at, subst (λ p. Within p m s) same v)
