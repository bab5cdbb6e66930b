-- ===== src/Server/Enrollment.antt =====
-- The threads of `grpc_server::start` (grpc_server.cpp), one after the other: each creates its RPCs and
-- enters its loop.
use tiny_inference_engine.Base.{
  ℕ, zero, suc, ◌+◌, ◌*◌, ◌%◌, ◌^◌, ◌<◌, ◌≤◌, ◌≡◌, inl, inr, refl, sym, ◌∙◌, ap, subst, false, some,
  List, [], ◌∷◌, ◌++◌, map, arith, length, replicate, ◌==◌, ==_iff, ==_refl, ltb, lt→ltb, le→ltb,
  if◌then◌else◌, Bool-cases,
}
use tiny_inference_engine.Base.Int.{rounds}
use tiny_inference_engine.Base.Table.{find, find-assign}
use tiny_inference_engine.Engine.{EngineInterface}
use tiny_inference_engine.Messages.{Kind, default_request}
use tiny_inference_engine.Rpc.Host.{Rpc, Event, process, new_rpc, create_rpc}
use tiny_inference_engine.Rpc.Execute.{spawn, store, setup_request, execute_create, run}
use tiny_inference_engine.Rpc.Invariant.{Inv}
use tiny_inference_engine.Rpc.Safety.{Deliverable}
use tiny_inference_engine.Rpc.Threads.{
  Next, enroll, waiting, allocating, inserting, setting_up, starting, World, put, resume, turn,
  schedule,
}
use tiny_inference_engine.Rpc.Interleaving.{on_rpc-found}
use tiny_inference_engine.Rpc.Uninterrupted.{accesses, more, stop}
use tiny_inference_engine.Rpc.Scheduled.{schedule-append, schedule-run, waiting-Confined_lem}
use tiny_inference_engine.Server.Config.{ServerConfig}
use tiny_inference_engine.Server.Grpc.{common_kinds, registrations, register, add_queues}
use tiny_inference_engine.Server.Startup.{started, started-register, start-listening}
use tiny_inference_engine.Server.Concurrent.{beginning, first_activity}

module _ {S : Type 0} (engine : EngineInterface S) (e : Event) where
  -- The creation of one RPC.
  enrolls :
      (q : ℕ) (w : World S) (k : Kind) (n : Next)
      → w.activity q ≡ allocating k q n
      → (w' : World S) × (accesses engine q e 4 w ≡ some w')
        × (w'.host ≡ spawn k q w.host)
        × ((p : ℕ) → w'.activity p ≡ (if p == q then resume q n else w.activity p))
  unfolding turn spawn create_rpc execute_create store setup_request
  enrolls q w k n a =
      let id = w.host.next_id in
      let new = new_rpc k q in
      let w1 =
        put q (inserting id k q n) w (record w.host { next_id = (w.host.next_id + 1) % 2 ^ 64 }) in
      let w2 = put q (setting_up id n) w1 (store id new w1.host) in
      let f3 : Rpc → World S = λ r. put q (starting id n) w2 (setup_request id r w2.host) in
      let w3 = f3 new in
      let f4 : Rpc → World S =
        λ r. put q (resume q n) w3 (store id (record r { state = process }) w3.host) in
      let found : find id w2.host.rpcs ≡ some new = rw (find-assign, ==_refl id) refl in
      (
        f4 new,
        more engine q e 3 w w1 (rw a refl) (
            more engine q e 2 w1 w2 (rw ==_refl refl) (
              more engine q e 1 w2 w3 (rw ==_refl (on_rpc-found id w2 f3 found)) (
                more engine q e 0 w3 (f4 new) (rw ==_refl (on_rpc-found id w3 f4 found))
                  (stop engine q e (f4 new))))),
        refl,
        λ p. elim (Bool-cases (p == q)) [ inl same ↦ rw same refl | inr differs ↦ rw differs refl ],
      )

  -- The creation of the RPCs of a thread.
  enrolls-all :
      (ks : List Kind) (q : ℕ) (w : World S)
      → w.activity q ≡ resume q (enroll ks)
      → (turns : List (ℕ × Event)) × (w' : World S) × (schedule engine turns w ≡ some w')
        × (w'.host ≡ register (map (λ k. (k, q)) ks) w.host)
        × ((p : ℕ) → w'.activity p ≡ (if p == q then waiting else w.activity p))
  unfolding register schedule
  enrolls-all [] q w a = (
    [],
    w,
    refl,
    refl,
    λ p. elim (Bool-cases (p == q)) [
      | inl same ↦ rw (same, (==_iff p q).0 same) a
      | inr differs ↦ rw differs refl
    ],
  )
  enrolls-all (k ∷ ks) q w a =
      let (w1, went, hosts, acts) = enrolls q w k (enroll ks) a in
      let next : w1.activity q ≡ resume q (enroll ks) = acts q ∙ (rw ==_refl refl) in
      let (turns, w2, rest, hosts2, acts2) = enrolls-all ks q w1 next in
      (
        replicate 4 (q, e) ++ turns,
        w2,
        schedule-append engine (replicate 4 (q, e)) turns w w1 went rest,
        hosts2 ∙ ap (register (map (λ k. (k, q)) ks)) hosts,
        λ p. elim (Bool-cases (p == q)) [
          | inl same ↦ acts2 p ∙ (rw same refl)
          | inr differs ↦ acts2 p ∙ (rw differs (acts p ∙ (rw differs refl)))
        ],
      )

  first_activity-inference_lem :
      (n q : ℕ) → q < n → first_activity n q ≡ resume q (enroll (Kind.model_infer ∷ []))
  first_activity-inference_lem n q lt = rw (lt→ltb q n lt) refl

  first_activity-common_lem : (n : ℕ) → first_activity n n ≡ resume n (enroll common_kinds)
  first_activity-common_lem n = rw (le→ltb n n (omega arith), ==_refl n) refl

  first_activity-none_lem : (n q : ℕ) → n < q → first_activity n q ≡ waiting
  first_activity-none_lem n q lt =
      let apart : (q == n) ≡ false = ground arith in rw (le→ltb q n (omega arith), apart) refl

  -- The threads from the one of queue `i` on, with `m` inference threads left.
  enrolls-from :
      (m i n : ℕ) (w : World S)
      → n ≡ i + m
      → ((p : ℕ) → p < i → w.activity p ≡ waiting)
      → ((p : ℕ) → i ≤ p → w.activity p ≡ first_activity n p)
      → (turns : List (ℕ × Event)) × (w' : World S) × (schedule engine turns w ≡ some w')
        × (w'.host ≡ register (registrations (add_queues m i) n) w.host)
        × ((p : ℕ) → w'.activity p ≡ waiting)
  unfolding registrations add_queues register
  enrolls-from zero i n w sum before after =
      let (turns, w', went, hosts, acts) =
        enrolls-all common_kinds n w (after n (omega (arith, sum)) ∙ first_activity-common_lem n) in
      (
        turns,
        w',
        went,
        hosts,
        λ p. acts p ∙ elim (Bool-cases (p == n)) [
          | inl same ↦ rw same refl
          | inr differs ↦ rw differs (elim (Bool-cases (ltb p n)) [
            | inl low ↦ before p (ground (arith, low, sum))
            | inr high ↦
                after p (ground (arith, high, sum))
                ∙ first_activity-none_lem n p (ground (arith, high, differs))
          ])
        ],
      )
  enrolls-from (suc m) i n w sum before after =
      let (turns, w1, went, hosts, acts) =
        enrolls-all (Kind.model_infer ∷ []) i w
          (after i (omega arith) ∙ first_activity-inference_lem n i (omega (arith, sum))) in
      let (turns2, w2, rest, hosts2, idle) =
        enrolls-from m (suc i) n w1 (omega (arith, sum))
          (λ p lt. acts p ∙ elim (Bool-cases (p == i)) [
            | inl same ↦ rw same refl
            | inr differs ↦ rw differs (before p (ground (arith, differs, lt)))
          ])
          (λ p le.
            acts p
            ∙ (let differs : (p == i) ≡ false = ground (arith, le) in
                rw differs (after p (omega arith)))) in
      (
        turns ++ turns2,
        w2,
        schedule-append engine turns turns2 w w1 went rest,
        hosts2 ∙ ap (register (registrations (add_queues m (suc i)) n)) hosts ∙ refl,
        idle,
      )

-- `Next` gives nothing to a thread that is not in its loop yet.
abbrev no_event : Event
no_event = record { tag = 0; ok = false; incoming = default_request }

module _ {S : Type 0} (engine : EngineInterface S) (config : ServerConfig) (s : S) where
  beginning-started :
      (turns : List (ℕ × Event)) × (w' : World S) × (schedule engine turns
          (beginning s (rounds config.grpc_inference_threads))
        ≡ some w')
      × (w'.host ≡ started config s)
      × ((q : ℕ) → w'.activity q ≡ waiting)
  beginning-started =
      let n = rounds config.grpc_inference_threads in
      let (turns, w', went, hosts, idle) =
        enrolls-from engine no_event n 0 n (beginning s n) (omega arith)
          (λ p lt. absurd (omega (arith, lt))) (λ p le. refl) in
      (turns, w', went, hosts ∙ sym (started-register config s), idle)

  -- What the threads of a new server do one at a time, they can do interleaved: there is an order of
  -- their accesses, from the creation of the first RPC on, after which all threads wait and the host is the
  -- one that the sequential loops leave after the server was started and the events were taken; for
  -- events that the runtime can return, and as long as ids do not wrap.
  pub beginning-run :
      (es : List Event)
      → rounds config.grpc_inference_threads + 8 < 2 ^ 64
      → (started config s).next_id + 9 * length es < 2 ^ 64
      → Deliverable engine es (started config s)
      → (turns : List (ℕ × Event)) × (w' : World S) × (schedule engine turns
            (beginning s (rounds config.grpc_inference_threads))
          ≡ some w')
        × (run engine es (started config s) ≡ some w'.host)
        × ((q : ℕ) → w'.activity q ≡ waiting)
  beginning-run es fits small d =
      let n = rounds config.grpc_inference_threads in
      let (turns, w1, went, hosts, idle) = beginning-started in
      let ready = (start-listening config s Kind.model_infer 0 fits).0 in
      let v = waiting-Confined_lem w1 (subst Inv (sym hosts) ready.inv) idle in
      let (turns2, w2, rest, ran, idle2) =
        schedule-run engine es w1 v idle (rw hosts small)
          (subst (Deliverable engine es) (sym hosts) d) in
      (
        turns ++ turns2,
        w2,
        schedule-append engine turns turns2 (beginning s n) w1 went rest,
        rw⁻¹ hosts ran,
        idle2,
      )
