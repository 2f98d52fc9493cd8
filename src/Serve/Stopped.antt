-- ===== src/Serve/Stopped.antt =====
-- When the daemon has ended, and when the wait for it ends.
use desmata.Prelude.{
  ℕ, zero, suc, ◌+◌, ◌*◌, ◌/◌, ◌≤◌, Bool, true, false, Option, none, some, ◌≡◌, refl, ap, sym, ◌∙◌,
  ◌⊎◌, inl, inr, ltb, Bool-cases, arith,
}
use desmata.Prelude.Results.{Error, Result, ok, err, daemon_failed, raised_returns}
use desmata.Serve.{
  Host, ended, Step, final, then_step, after_grace, stop_at, shutdown, spawn_daemon, answer,
  check_at, poll_ready, wait_ready, shut, running, caught, call_if, serve_forever,
}

-- What the operating system documents: a process that was waited for has ended, a sleep that returns
-- takes its time, and the clock does not run backwards.
pub record Documented (H : Host) : Type 0 where
  pub grace_ends : (w v : H.World) → H.wait_grace w ≡ (ok true, v) → ended (H.poll v) ≡ true
  pub reap_ends : (w v : H.World) → H.reap w ≡ (ok tt, v) → ended (H.poll v) ≡ true
  pub wait_ends : (w v : H.World) (code : ℕ) → H.wait w ≡ (ok code, v) → ended (H.poll v) ≡ true
  pub sleeps : (w v : H.World) → H.sleep w ≡ (ok tt, v) → H.now w + 100 ≤ H.now v
  pub goes_on : (w v : H.World) (b : Bool) → H.daemon_running w ≡ (b, v) → H.now w ≤ H.now v

-- No interrupt arrives while `shutdown` waits.
pub record Undisturbed (H : Host) : Type 0 where
  pub grace : (w : H.World) → (b : Bool) × (v : H.World) × (H.wait_grace w ≡ (ok b, v))
  pub reap : (w : H.World) → (v : H.World) × (H.reap w ≡ (ok tt, v))

-- No interrupt arrives while `wait_ready` sleeps.
abbrev pub SleepsThrough : Host → Type 0
SleepsThrough H = (w : H.World) → (v : H.World) × (H.sleep w ≡ (ok tt, v))

no_error :
    {A W : Type 0} {a : A} {x : Error} {w v : W} → ◌≡◌ {A = Result A × W} (ok a, w) (err x, v) → ⊥
no_error h = raised_returns (sym (ap (λ y. y.0) h))

module _ (H : Host) (D : Documented H) (U : Undisturbed H) where
  not_early : (w : H.World) (deadline : ℕ) → deadline ≤ H.now w → ltb (H.now w) deadline ≡ false
  not_early w deadline h = ground arith

  -- A step that returns, and after it the daemon has ended.
  abbrev Ends : Result (Unit {0}) × H.World → Type 0
  Ends o = (v : H.World) × (o ≡ (ok tt, v)) × (ended (H.poll v) ≡ true)

  after_grace-Ends :
      (w : H.World) (u : Result Bool × H.World) → H.wait_grace w ≡ u → Ends (after_grace H u)
  after_grace-Ends w (ok true, v) e = (v, refl, D.grace_ends w v e)
  after_grace-Ends w (ok false, v) e =
      let (x, r) = U.reap (H.kill v) in (x, r, D.reap_ends (H.kill v) x r)
  after_grace-Ends w (err x, v) e = let (b, y, r) = U.grace w in absurd (no_error (sym r ∙ e))

  stop_at-Ends : (w : H.World) (o : Option ℕ) → H.poll w ≡ o → Ends (stop_at H o w)
  stop_at-Ends w none e = after_grace-Ends (H.terminate w) (H.wait_grace (H.terminate w)) refl
  stop_at-Ends w (some code) e = (w, refl, ap ended e)

  shutdown-Ends : (w : H.World) → Ends (shutdown H w)
  unfolding shutdown
  shutdown-Ends w = stop_at-Ends w (H.poll w) refl

  -- The daemon has answered, or it has ended and that is reported.
  abbrev pub IsDecided : Result (Unit {0}) × H.World → Type 0
  IsDecided u =
      ((v w : H.World) × (H.daemon_running v ≡ (true, w)) × (u ≡ (ok tt, w)))
      ⊎ ((w : H.World) × (u ≡ (err daemon_failed, w)) × (ended (H.poll w) ≡ true))

  late_IsDecided :
      (w : H.World) → IsDecided (then_step H (λ stopped v. (err daemon_failed, v)) (shutdown H w))
  late_IsDecided w = let (v, s, e) = shutdown-Ends w in rw s (inr (v, refl, e))

  module _ (through : SleepsThrough H) where
    -- What a round that goes on sleeps to is decided.
    abbrev GoesOn : Step H (Unit {0}) → H.World → Type 0
    GoesOn again w =
        (v x : H.World) → H.now w ≤ H.now v → H.sleep v ≡ (ok tt, x) → IsDecided (again x)

    answer-IsDecided :
        (again : Step H (Unit {0})) (w : H.World) (u : Bool × H.World)
        → H.daemon_running w ≡ u
        → GoesOn again w
        → IsDecided (answer H again u)
    answer-IsDecided again w (true, v) e k = inl (w, v, e, refl)
    answer-IsDecided again w (false, v) e k =
        let (x, s) = through v in rw s (k v x (D.goes_on w v false e) s)

    check_at-IsDecided :
        (again : Step H (Unit {0})) (w : H.World) (o : Option ℕ)
        → H.poll w ≡ o
        → GoesOn again w
        → IsDecided (check_at H o again w)
    check_at-IsDecided again w none e k = answer-IsDecided again w (H.daemon_running w) refl k
    check_at-IsDecided again w (some code) e k = inr (w, refl, ap ended e)

    poll_ready-IsDecided :
        (f deadline : ℕ) (w : H.World)
        → deadline ≤ H.now w + 100 * f
        → IsDecided (poll_ready H (suc f) deadline w)
    unfolding poll_ready
    poll_ready-IsDecided zero deadline w l =
        rw (not_early w deadline (omega arith)) (late_IsDecided w)
    poll_ready-IsDecided (suc f) deadline w l = elim (Bool-cases (ltb (H.now w) deadline)) [
      | inr late ↦ rw late (late_IsDecided w)
      | inl early ↦ rw early (
          check_at-IsDecided (poll_ready H (suc f) deadline) w (H.poll w) refl
            (λ v x on slept. poll_ready-IsDecided f deadline x (omega (arith, D.sleeps v x slept))))
    ]

    -- Where no interrupt arrives while it sleeps or shuts the daemon down, waiting for the daemon ends:
    -- it returns when the daemon has answered, or it raises DaemonFailed, and then the daemon has
    -- ended.
    pub wait_ready_ends :
        (timeout : ℕ) (w : H.World)
        → ((v u : H.World) × (H.daemon_running v ≡ (true, u))
            × (wait_ready H timeout w ≡ (ok tt, u)))
          ⊎ ((u : H.World) × (wait_ready H timeout w ≡ (err daemon_failed, u))
              × (ended (H.poll u) ≡ true))
    unfolding wait_ready
    wait_ready_ends timeout w =
        poll_ready-IsDecided (suc (timeout / 100)) (H.now w + timeout) w (omega arith)

  shut_ends : {A : Type 0} (u : Result A × H.World) → ended (H.poll (final H (shut H u))) ≡ true
  shut_ends (r, w) = let (v, s, e) = shutdown-Ends w in rw s e

  waited :
      {A : Type 0} (u : Result A × H.World) (code : ℕ) (v : H.World)
      → then_step H (λ t. H.wait) u ≡ (ok code, v)
      → (w : H.World) × (H.wait w ≡ (ok code, v))
  waited (ok a, w) code v e = (w, e)
  waited (err x, w) code v e = absurd (raised x w code v e)
    where
      raised :
          (x : Error) (w : H.World) (code : ℕ) (v : H.World)
          → ◌≡◌ {A = Result ℕ × H.World} (err x, w) (ok code, v)
          → ⊥
      raised x w code v e = cc

  caught_ends :
      {A : Type 0} (u : Result A × H.World) (r : Result ℕ × H.World)
      → then_step H (λ t. H.wait) u ≡ r
      → ended (H.poll (final H (caught H r))) ≡ true
  unfolding caught
  caught_ends u (ok code, v) e =
      let (w, waited_for) = waited u code v e in D.wait_ends w v code waited_for
  caught_ends u (err x, w) e = let (v, s, h) = shutdown-Ends w in rw s h

  -- Once the daemon was started, it has ended when the scope of `running` is left, whatever the block
  -- does and whether the daemon ever answered, and when `serve_forever` returns or raises, also where
  -- an interrupt ends a sleep, a callback or the wait for the daemon, but for one that arrives while
  -- `shutdown` itself waits.
  pub daemon_ends :
      {A : Type 0} (block : Step H A) (on_ready : Option (Step H (Unit {0}))) (w v : H.World)
      → spawn_daemon H w ≡ (ok tt, v)
      → (ended (H.poll (final H (running H block w))) ≡ true)
        × (ended (H.poll (final H (serve_forever H on_ready w))) ≡ true)
  unfolding running serve_forever
  daemon_ends block on_ready w v started = rw started (
    shut_ends (then_step H (λ t. block) (wait_ready H 60000 v)),
    caught_ends (then_step H (λ t. call_if H on_ready) (wait_ready H 60000 v)) _ refl,
  )
