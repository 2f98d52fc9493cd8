-- ===== src/Serve.antt =====
-- src/desmata/serve.py: the daemon of a cell's ipfs. The operating system, `ipfs` and the clock are a
-- parameter: what they are asked for, and the world that is left. There is one daemon at a time.
mod Examples
pub mod Stopped
use desmata.Prelude.{
  ℕ, zero, suc, ◌+◌, ◌/◌, Bool, true, false, Option, none, some, ltb, if◌then◌else◌,
}
use desmata.Prelude.Results.{
  Error, value_error, index_error, keyboard_interrupt, Result, ok, err, daemon_failed, out_of_fuel,
}

-- The clock counts milliseconds.
pub record Host : Type 1 where
  pub World : Type 0
  -- time.monotonic, and time.sleep(0.1), which an interrupt may end
  pub now : World → ℕ
  pub sleep : World → Result (Unit {0}) × World
  -- (ipfs.repo / "config").exists, ipfs.init, and ipfs.spawn("daemon")
  pub has_config : World → Bool
  pub init : World → Result (Unit {0}) × World
  pub spawn : World → Result (Unit {0}) × World
  -- process.poll and ipfs.daemon_running
  pub poll : World → Option ℕ
  pub daemon_running : World → Bool × World
  -- process.terminate, process.wait(timeout=grace), which tells whether the process ended,
  -- process.kill, and process.wait after it; an interrupt may end either wait
  pub terminate : World → World
  pub wait_grace : World → Result Bool × World
  pub kill : World → World
  pub reap : World → Result (Unit {0}) × World
  -- process.wait, which an interrupt may end
  pub wait : World → Result ℕ × World

-- except KeyboardInterrupt
unfoldable pub is_interrupt : Error → Bool
is_interrupt keyboard_interrupt = true
is_interrupt raised = false

-- Whether there is an exit code.
abbrev pub ended : Option ℕ → Bool
ended none = false
ended (some code) = true

module _ (H : Host) where
  abbrev pub Step : Type 0 → Type 0
  Step A = H.World → Result A × H.World

  abbrev pub final : {A : Type 0} → Result A × H.World → H.World
  final (r, w) = w

  abbrev pub then_step : {A B : Type 0} → (A → Step B) → Result A × H.World → Result B × H.World
  then_step next (ok a, w) = next a w
  then_step next (err e, w) = (err e, w)

  abbrev pub after_grace : Result Bool × H.World → Result (Unit {0}) × H.World
  after_grace (ok true, w) = (ok tt, w)
  after_grace (ok false, w) = H.reap (H.kill w)
  after_grace (err e, w) = (err e, w)

  abbrev pub stop_at : Option ℕ → Step (Unit {0})
  stop_at none w = after_grace (H.wait_grace (H.terminate w))
  stop_at (some code) w = (ok tt, w)

  -- shutdown
  unfoldable pub shutdown : Step (Unit {0})
  shutdown w = stop_at (H.poll w) w

  -- spawn_daemon
  unfoldable pub spawn_daemon : Step (Unit {0})
  spawn_daemon w = if H.has_config w then H.spawn w else then_step (λ u v. H.spawn v) (H.init w)

  abbrev pub answer : Step (Unit {0}) → Bool × H.World → Result (Unit {0}) × H.World
  answer again (true, w) = (ok tt, w)
  answer again (false, w) = then_step (λ slept. again) (H.sleep w)

  abbrev pub check_at : Option ℕ → Step (Unit {0}) → Step (Unit {0})
  check_at (some code) again w = (err daemon_failed, w)
  check_at none again w = answer again (H.daemon_running w)

  -- The loop of wait_ready. Each round costs a unit of fuel.
  unfoldable pub poll_ready : ℕ → ℕ → Step (Unit {0})
  unfolding shutdown
  poll_ready zero deadline w = (err out_of_fuel, w)
  poll_ready (suc f) deadline w =
      if ltb (H.now w) deadline
      then check_at (H.poll w) (poll_ready f deadline) w
      else then_step (λ stopped v. (err daemon_failed, v)) (shutdown w)

  -- wait_ready. A round takes a tenth of a second at least.
  unfoldable pub wait_ready : ℕ → Step (Unit {0})
  unfolding poll_ready
  wait_ready timeout w = poll_ready (suc (suc (timeout / 100))) (H.now w + timeout) w

  -- finally: shutdown(process)
  abbrev pub shut : {A : Type 0} → Result A × H.World → Result A × H.World
  shut (r, w) = then_step (λ stopped v. (r, v)) (shutdown w)

  -- with running(ipfs) as process: block
  unfoldable pub running : {A : Type 0} → Step A → Step A
  unfolding spawn_daemon wait_ready shutdown
  running block w =
      then_step (λ u v. shut (then_step (λ t. block) (wait_ready 60000 v))) (spawn_daemon w)

  -- except KeyboardInterrupt, and except BaseException
  unfoldable pub caught : Result ℕ × H.World → Result ℕ × H.World
  unfolding is_interrupt shutdown
  caught (ok code, w) = (ok code, w)
  caught (err e, w) =
      then_step (λ stopped v. (if is_interrupt e then ok 0 else err e, v)) (shutdown w)

  abbrev pub call_if : Option (Step (Unit {0})) → Step (Unit {0})
  call_if none w = (ok tt, w)
  call_if (some on_ready) w = on_ready w

  -- serve_forever
  unfoldable pub serve_forever : Option (Step (Unit {0})) → Step ℕ
  unfolding spawn_daemon wait_ready caught
  serve_forever on_ready w =
      then_step
        (λ u v.
          caught (then_step (λ t. H.wait) (then_step (λ t. call_if on_ready) (wait_ready 60000 v))))
        (spawn_daemon w)
