-- ===== src/Server/Exit.antt =====
-- How the process ends (main.cpp, server_manager.cpp, server_shutdown.cpp).
use tiny_inference_engine.Base.{
  ℕ, zero, suc, ◌+◌, ◌%◌, ◌^◌, ◌<◌, ◌≤◌, ◌⊎◌, ◌==◌, ◌≡◌, refl, ap, subst, ◌∙◌, Bool, true, false,
  not, Option, none, some, List, [], ◌∷◌, inl, inr, length, if◌then◌else◌, arith, Bool-cases,
  Option-cases,
}
use tiny_inference_engine.Engine.{NullState, null_state}
use tiny_inference_engine.Rpc.Host.{Host}
use tiny_inference_engine.Server.Config.{ServerConfig}
use tiny_inference_engine.Server.Grpc.{
  GrpcServer, start, stop, destroy, new_server, any_joinable, launch,
}
use tiny_inference_engine.Server.Life.{stop-running, any_joinable-last}
use tiny_inference_engine.Server.Manager.{
  Signal, sigint, sigill, sigabrt, sigterm, number, received, Course, Stopping, comes_to_end,
  reaches_freed, waits_forever, goes_on, terminated, faulted, stuck, new_manager, start_all,
  main_loop, destroy_manager,
}
use tiny_inference_engine.Server.Main.{
  Process, undefined, stopping, ended_as, after_reset, serving, crashed, exited, Surroundings,
  served, serve_from, main,
}

-- How many servers the signals end: those that come between two tests of the flag end one server together,
-- and those that come after the last test of a server and before the reset are lost.
abbrev pub ended_servers : List (List Signal) → ℕ
ended_servers [] = 0
ended_servers ([] ∷ time) = ended_servers time
ended_servers ((s ∷ signals) ∷ []) = 1
ended_servers ((s ∷ signals) ∷ missed ∷ time) = suc (ended_servers time)

-- How server number `k` ends the process, if no other is to follow.
abbrev pub fate : ServerConfig → Surroundings → ℕ → Process
fate config w k =
    if not config.is_grpc_server_enabled
    then exited
    else if not (w.built k)
    then crashed
    else elim (w.stops k) [
      | comes_to_end ↦ exited
      | reaches_freed ↦ undefined
      | waits_forever ↦ stopping k
    ]

-- With the flag at 0 the loop waits for the first signal.
abbrev LoopEnds : List (List Signal) → Option (ℕ × ℕ × List (List Signal)) → Type 0
LoopEnds time none = ended_servers time ≡ 0
LoopEnds time (some (flag, tick, later)) =
    (ended_servers time ≡ suc (ended_servers (after_reset later))) × (length later < length time)

number-nonzero : (s : Signal) → (number s == 0) ≡ false
unfolding number
number-nonzero sigint = refl
number-nonzero sigill = refl
number-nonzero sigabrt = refl
number-nonzero sigterm = refl

received-nonzero :
    (signals : List Signal) (flag : ℕ) → (flag == 0) ≡ false → (received signals flag == 0) ≡ false
unfolding received
received-nonzero [] flag n = n
received-nonzero (s ∷ signals) flag n = received-nonzero signals (number s) (number-nonzero s)

LoopEnds-later :
    (time : List (List Signal)) (r : Option (ℕ × ℕ × List (List Signal)))
    → LoopEnds time r
    → LoopEnds ([] ∷ time) r
LoopEnds-later time none p = p
LoopEnds-later time (some (flag, tick, later)) p = (p.0, omega (arith, p.1))

main_loop-ends : (tick : ℕ) (time : List (List Signal)) → LoopEnds time (main_loop 0 tick time)
unfolding main_loop
main_loop-ends tick [] = refl
main_loop-ends tick ([] ∷ time) =
    LoopEnds-later time (main_loop 0 ((tick + 1) % 2 ^ 32) time)
      (main_loop-ends ((tick + 1) % 2 ^ 32) time)
main_loop-ends tick ((s ∷ signals) ∷ []) =
    rw (received-nonzero signals (number s) (number-nonzero s)) (refl, omega arith)
main_loop-ends tick ((s ∷ signals) ∷ missed ∷ time) =
    rw (received-nonzero signals (number s) (number-nonzero s)) (refl, omega arith)

started-joinable :
    (config : ServerConfig) (built : Bool) (h : Host NullState)
    → ((start config built new_server h).0.is_running ≡ built)
      × (any_joinable (start config built new_server h).0.threads ≡ true)
unfolding start launch new_server
started-joinable config built h = (refl, any_joinable-last _ _)

module _ (config : ServerConfig) (w : Surroundings) (k : ℕ) (h : Host NullState) where
  destroy-disabled :
      (f : Stopping)
      → config.is_grpc_server_enabled ≡ false
      → (h' : Host NullState) × (destroy_manager f (served config w k h) ≡ goes_on h')
  unfolding served destroy_manager new_manager start_all
  destroy-disabled f off = (w.activity k (record h { engine = null_state }), ground (arith, off))

  destroy-unbuilt :
      (f : Stopping)
      → config.is_grpc_server_enabled ≡ true
      → w.built k ≡ false
      → destroy_manager f (served config w k h) ≡ terminated
  unfolding served destroy_manager new_manager start_all destroy stop
  destroy-unbuilt f on unbuilt =
      let h0 : Host NullState = record h { engine = null_state } in
      ground (arith, on, unbuilt, started-joinable config (w.built k) h0)

  destroy-built :
      (f : Stopping)
      → config.is_grpc_server_enabled ≡ true
      → w.built k ≡ true
      → (h' : Host NullState) × (destroy_manager f (served config w k h)
          ≡ elim f [ comes_to_end ↦ goes_on h' | reaches_freed ↦ faulted | waits_forever ↦ stuck ])
  unfolding served destroy_manager new_manager start_all destroy
  destroy-built comes_to_end on built =
      let h0 : Host NullState = record h { engine = null_state } in
      let g : GrpcServer = (start config (w.built k) new_server h0).0 in
      let h1 : Host NullState = w.activity k (start config (w.built k) new_server h0).1 in
      (
        (stop g h1).1,
        ground (arith, on, built, started-joinable config (w.built k) h0, stop-running g h1),
      )
  destroy-built reaches_freed on built =
      let h0 : Host NullState = record h { engine = null_state } in
      (h, ground (arith, on, built, started-joinable config (w.built k) h0))
  destroy-built waits_forever on built =
      let h0 : Host NullState = record h { engine = null_state } in
      (h, ground (arith, on, built, started-joinable config (w.built k) h0))

Stopping-cases : (f : Stopping) → (f ≡ comes_to_end) ⊎ ((f ≡ reaches_freed) ⊎ (f ≡ waits_forever))
Stopping-cases comes_to_end = inl refl
Stopping-cases reaches_freed = inr (inl refl)
Stopping-cases waits_forever = inr (inr refl)

-- What the end of the last server is to the process.
abbrev of_course : ℕ → Course (Host NullState) → Process
of_course k (goes_on h) = exited
of_course k terminated = crashed
of_course k faulted = undefined
of_course k stuck = stopping k

ended_as-last :
    (k : ℕ) (again : Host NullState → Process) (restart : Bool) (c : Course (Host NullState))
    → restart ≡ false
    → ended_as restart k again c ≡ of_course k c
ended_as-last k again true c e = cc
ended_as-last k again false (goes_on h) e = refl
ended_as-last k again false terminated e = refl
ended_as-last k again false faulted e = refl
ended_as-last k again false stuck e = refl

ended_as-again :
    (k : ℕ) (again : Host NullState → Process) (restart : Bool) (c : Course (Host NullState))
    (h : Host NullState)
    → restart ≡ true
    → c ≡ goes_on h
    → ended_as restart k again c ≡ again h
ended_as-again k again true c h e d = rw d refl
ended_as-again k again false c h e d = cc

of_course-exited :
    (k : ℕ) (c : Course (Host NullState))
    → of_course k c ≡ exited
    → (h' : Host NullState) × (c ≡ goes_on h')
of_course-exited k (goes_on h') e = (h', refl)
of_course-exited k terminated e = cc
of_course-exited k faulted e = cc
of_course-exited k stuck e = cc

module _ (config : ServerConfig) (w : Surroundings) (k : ℕ) (h : Host NullState) where
  destroy-fate : of_course k (destroy_manager (w.stops k) (served config w k h)) ≡ fate config w k
  destroy-fate = elim (Bool-cases config.is_grpc_server_enabled) [
    | inr off ↦ let (h', d) = destroy-disabled config w k h (w.stops k) off in rw (d, off) refl
    | inl on ↦ elim (Bool-cases (w.built k)) [
      | inr unbuilt ↦ rw (destroy-unbuilt config w k h (w.stops k) on unbuilt, on, unbuilt) refl
      | inl built ↦
          let (h', d) = destroy-built config w k h (w.stops k) on built in
          elim (Stopping-cases (w.stops k)) [
            | inl ends ↦ rw (d, on, built, ends) refl
            | inr (inl freed) ↦ rw (d, on, built, freed) refl
            | inr (inr waits) ↦ rw (d, on, built, waits) refl
          ]
    ]
  ]

  destroy-exited :
      fate config w k ≡ exited
      → (h' : Host NullState) × (destroy_manager (w.stops k) (served config w k h) ≡ goes_on h')
  destroy-exited e =
      of_course-exited k (destroy_manager (w.stops k) (served config w k h)) (destroy-fate ∙ e)

after_reset-shorter : (later : List (List Signal)) → length (after_reset later) ≤ length later
after_reset-shorter [] = omega arith
after_reset-shorter (signals ∷ later) = omega arith

suc-nonzero : (n : ℕ) → (suc n == 0) ≡ false
suc-nonzero n = ground arith

-- One server: it serves until the first signal, and is then destroyed.
serve_once :
    (fuel : ℕ) (config : ServerConfig) (w : Surroundings) (k : ℕ) (h : Host NullState)
    (time : List (List Signal))
    → config.restart_server ≡ false
    → serve_from (suc fuel) config w k 0 h time
      ≡ (if ended_servers time == 0 then serving k else fate config w k)
unfolding serve_from
serve_once fuel config w k h time no_restart = elim (Option-cases (main_loop 0 0 time)) [
  | inl e ↦ rw (serve_from, e, subst (LoopEnds time) e (main_loop-ends 0 time)) refl
  | inr ((flag, tick, later), e) ↦
      let ends : LoopEnds time (some (flag, tick, later)) =
        subst (LoopEnds time) e (main_loop-ends 0 time) in
      rw (serve_from, e, ends.0, suc-nonzero (ended_servers (after_reset later)))
        (ended_as-last k _ config.restart_server (destroy_manager (w.stops k) (served config w k h))
            no_restart
          ∙ destroy-fate config w k h)
]

-- A process that is not to restart its server serves until signals come before one of the tests of the
-- flag. It then returns 0 if no gRPC server is enabled; it ends by `std::terminate` in the server's
-- destructor if `BuildAndStart` failed; else it returns 0, has no defined effect or waits without end, as
-- `stop` beside the server's threads comes to its end, makes an access to a freed object or does not end.
pub main-once :
    (config : ServerConfig) (w : Surroundings) (h : Host NullState) (time : List (List Signal))
    → config.restart_server ≡ false
    → main config w h time ≡ (if ended_servers time == 0 then serving 0 else fate config w 0)
unfolding main
main-once config w h time no_restart = serve_once (length time) config w 0 h time no_restart

serve_again :
    (fuel : ℕ) (config : ServerConfig) (w : Surroundings) (k : ℕ) (h : Host NullState)
    (time : List (List Signal))
    → config.restart_server ≡ true
    → ((j : ℕ) → fate config w j ≡ exited)
    → length time < fuel
    → serve_from fuel config w k 0 h time ≡ serving (k + ended_servers time)
unfolding serve_from
serve_again zero config w k h time restart ok lt = elim lt [ ]
serve_again (suc fuel) config w k h time restart ok lt = elim (Option-cases (main_loop 0 0 time)) [
  | inl e ↦
      let quiet : ended_servers time ≡ 0 = subst (LoopEnds time) e (main_loop-ends 0 time) in
      rw (serve_from, e, quiet) (ap serving (omega arith))
  | inr ((flag, tick, later), e) ↦
      let ends : LoopEnds time (some (flag, tick, later)) =
        subst (LoopEnds time) e (main_loop-ends 0 time) in
      let (h', d) = destroy-exited config w k h (ok k) in
      rw (serve_from, e, ends.0)
        (ended_as-again k _ config.restart_server
            (destroy_manager (w.stops k) (served config w k h)) h' restart d
          ∙ (serve_again fuel config w (suc k) h' (after_reset later) restart ok
                (omega (arith, ends.1, after_reset-shorter later))
              ∙ ap serving (omega arith)))
]

-- A process that is to restart its server never returns, provided that every server can be destroyed: that no
-- gRPC server is enabled, or each is built and each `stop` comes to its end beside the server's threads.
-- Signals that come between two tests of the flag end one server together and start the next; signals
-- that come after a server's last test and before the flag is reset are lost.
pub main-restart :
    (config : ServerConfig) (w : Surroundings) (h : Host NullState) (time : List (List Signal))
    → config.restart_server ≡ true
    → ((j : ℕ) → fate config w j ≡ exited)
    → main config w h time ≡ serving (ended_servers time)
unfolding main
main-restart config w h time restart ok =
    serve_again (suc (length time)) config w 0 h time restart ok (omega arith)
    ∙ ap serving (omega arith)
