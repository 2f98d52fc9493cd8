-- ===== src/Serve/Examples.antt =====
-- Tests and instances for the daemon.
use desmata.Prelude.{
  ℕ, ◌+◌, Bool, true, false, Option, none, some, ◌≡◌, refl, ap, sym, ◌⊎◌, leb, arith,
}
use desmata.Prelude.Results.{Result, ok, err, value_error, daemon_failed, keyboard_interrupt}
use desmata.Serve.{
  Host, ended, is_interrupt, Step, final, shutdown, spawn_daemon, poll_ready, wait_ready, running,
  caught, serve_forever,
}
use desmata.Serve.Stopped.{Documented, Undisturbed, wait_ready_ends, daemon_ends}

-- A machine: its clock, the daemon's exit code, and the time at which the daemon answers.
record Machine : Type 0 where
  clock : ℕ
  code : Option ℕ
  up_at : ℕ

abbrev after : ℕ → Machine → Machine
after t w = record w { clock = t + w.clock }

abbrev with_code : ℕ → Machine → Machine
with_code c w = record w { code = some c }

-- A daemon that does not heed SIGTERM, and a user who interrupts it.
abbrev stubborn : Host
stubborn = record {
  World = Machine;
  now = λ w. w.clock;
  sleep = λ w. (ok tt, after 100 w);
  has_config = λ w. true;
  init = λ w. (ok tt, w);
  spawn = λ w. (ok tt, record w { code = none });
  poll = λ w. w.code;
  daemon_running = λ w. (leb w.up_at w.clock, w);
  terminate = λ w. w;
  wait_grace = λ w. (ok false, after 15000 w);
  kill = λ w. w;
  reap = λ w. (ok tt, with_code 137 w);
  wait = λ w. (err keyboard_interrupt, w);
}

same_machine : {x b : Bool} {w v : Machine} → ◌≡◌ {A = Bool × Machine} (x, w) (b, v) → w ≡ v
same_machine e = cc

stubborn-Documented : Documented stubborn
stubborn-Documented = record {
  grace_ends = λ w v e. cc;
  reap_ends = λ w v e. ap (λ (y : Result (Unit {0}) × Machine). ended y.1.code) (sym e);
  wait_ends = λ w v code e. cc;
  sleeps = λ w v e. rw (← ap (λ (y : Result (Unit {0}) × Machine). y.1) e) (omega arith);
  goes_on = λ w v b e. rw (← same_machine e) (omega arith);
}

stubborn-Undisturbed : Undisturbed stubborn
stubborn-Undisturbed = record {
  grace = λ w. (false, after 15000 w, refl);
  reap = λ w. (with_code 137 w, refl);
}

abbrev soon : Machine
soon = record { clock = 5; code = none; up_at = 250 }

abbrev never : Machine
never = record { clock = 0; code = none; up_at = 100000 }

ready_soon :
    wait_ready stubborn 1000 soon ≡ (ok tt, record { clock = 305; code = none; up_at = 250 })
unfolding wait_ready poll_ready
ready_soon = refl

never_ready :
    wait_ready stubborn 1000 never
    ≡ (err daemon_failed, record { clock = 16000; code = some 137; up_at = 100000 })
unfolding wait_ready poll_ready shutdown
never_ready = refl

-- An interrupt ends the daemon, and the exit code is 0.
interrupted :
    serve_forever stubborn none soon
    ≡ (ok 0, record { clock = 15305; code = some 137; up_at = 250 })
unfolding serve_forever spawn_daemon wait_ready poll_ready caught is_interrupt shutdown
interrupted = refl

abbrev failing : Step stubborn ℕ
failing w = (err value_error, w)

wait_ready_ends_example :
    ((v u : Machine) × (stubborn.daemon_running v ≡ (true, u))
      × (wait_ready stubborn 1000 soon ≡ (ok tt, u)))
    ⊎ ((u : Machine) × (wait_ready stubborn 1000 soon ≡ (err daemon_failed, u))
        × (ended u.code ≡ true))
wait_ready_ends_example =
    wait_ready_ends stubborn stubborn-Documented stubborn-Undisturbed (λ w. (after 100 w, refl))
      1000 soon

daemon_ends_example :
    (ended (final stubborn (running stubborn failing soon)).code ≡ true)
    × (ended (final stubborn (serve_forever stubborn none soon)).code ≡ true)
daemon_ends_example =
    daemon_ends stubborn stubborn-Documented stubborn-Undisturbed failing none soon soon
      (unfold spawn_daemon in refl)
