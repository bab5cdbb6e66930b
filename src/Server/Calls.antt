-- ===== src/Server/Calls.antt =====
-- Clients that call a new server (grpc_server.cpp), with its threads.
use tiny_inference_engine.Base.{
  some_eq, ℕ, ◌+◌, ◌*◌, ◌^◌, ◌<◌, ◌≡◌, refl, sym, subst, ap, ◌∙◌, some, List, [], length, arith,
  ==_refl,
}
use tiny_inference_engine.Base.Int.{rounds}
use tiny_inference_engine.Engine.{EngineInterface}
use tiny_inference_engine.Messages.{Kind, RequestOf}
use tiny_inference_engine.Rpc.Host.{Host, Event}
use tiny_inference_engine.Rpc.Execute.{run}
use tiny_inference_engine.Rpc.Safety.{Deliverable}
use tiny_inference_engine.Rpc.Sequential.{session}
use tiny_inference_engine.Rpc.Threads.{waiting, World, schedule}
use tiny_inference_engine.Client.Loopback.{loopback}
use tiny_inference_engine.Server.Config.{ServerConfig}
use tiny_inference_engine.Server.Startup.{
  expected, started, started-next_id, started-engine, start-listening,
}
use tiny_inference_engine.Server.Concurrent.{beginning}
use tiny_inference_engine.Server.Enrollment.{beginning-run}
use tiny_inference_engine.Server.Answering.{Listens, heard, asked, calls_answered}

expected-some : (n : ℕ) (k : Kind) → 0 < n → (q : ℕ) × (expected n k q ≡ 1)
expected-some n Kind.model_infer pos = (0, ground arith)
expected-some n _ pos = (n, rw (==_refl n) refl)

started-Listens :
    {S : Type 0} (config : ServerConfig) (s : S)
    → 0 < rounds config.grpc_inference_threads
    → rounds config.grpc_inference_threads + 8 < 2 ^ 64
    → Listens (started config s)
started-Listens config s pos lt k =
    let n = rounds config.grpc_inference_threads in
    let (q, one) = expected-some n k pos in
    (q, omega (arith, (start-listening config s k q lt).1, one))

module _ {S : Type 0} (engine : EngineInterface S) (config : ServerConfig) (s : S)
    (cs : List ((k : Kind) × RequestOf k)) where
  started-asked :
      0 < rounds config.grpc_inference_threads
      → rounds config.grpc_inference_threads + 8 + length cs < 2 ^ 64
      → (es : List Event) × (h' : Host S) × Deliverable engine es (started config s)
        × (run engine es (started config s) ≡ some h')
        × (length es ≡ length cs)
        × Listens h'
        × (heard (session h') ≡ asked (loopback engine) cs (s, []))
  started-asked pos lt =
      let small : rounds config.grpc_inference_threads + 8 < 2 ^ 64 = omega (arith, lt) in
      let ready = (start-listening config s Kind.server_live 0 small).0 in
      let (es, h', d, ran, size, l, told) =
        calls_answered engine cs (started config s) ready.inv ready.blank
          (started-Listens config s pos small)
          (omega (arith, lt, started-next_id config s small)) in
      let begins : heard (session (started config s)) ≡ (s, []) =
        rw (ready.silent, started-engine config s) refl in
      (es, h', d, ran, size, l, told ∙ ap (asked (loopback engine) cs) begins)

  pub calls_served :
      0 < rounds config.grpc_inference_threads
      → rounds config.grpc_inference_threads + 8 + 9 * length cs < 2 ^ 64
      → (es : List Event) × (turns : List (ℕ × Event)) × (w : World S) × Deliverable engine es
          (started config s)
        × (length es ≡ length cs)
        × (run engine es (started config s) ≡ some w.host)
        × (schedule engine turns (beginning s (rounds config.grpc_inference_threads)) ≡ some w)
        × ((q : ℕ) → w.activity q ≡ waiting)
        × Listens w.host
        × (heard (session w.host) ≡ asked (loopback engine) cs (s, []))
  calls_served pos lt =
      let small : rounds config.grpc_inference_threads + 8 < 2 ^ 64 = omega (arith, lt) in
      let (es, h', d, ran, size, l, told) = started-asked pos (omega (arith, lt)) in
      let (turns, w, went, same, idle) =
        beginning-run engine config s es small
          (omega (arith, lt, size, started-next_id config s small)) d in
      let host : h' ≡ w.host = some_eq (sym ran ∙ same) in
      (
        es,
        turns,
        w,
        d,
        size,
        same,
        went,
        idle,
        subst Listens host l,
        ap (λ h. heard (session h)) (sym host) ∙ told,
      )

  -- The threads of a new server with an inference thread can answer any calls of clients, each after the
  -- end of the one before: there is an order of their accesses, from the creation of the first RPC on,
  -- after which all threads wait, the replies are, with their methods and in order, those that the same
  -- calls have where `process_request` is called in place of the server, and the engine's state is the
  -- one that these leave; as long as ids do not wrap.
  pub beginning-asked :
      0 < rounds config.grpc_inference_threads
      → rounds config.grpc_inference_threads + 8 + 9 * length cs < 2 ^ 64
      → (turns : List (ℕ × Event)) × (w : World S) × (schedule engine turns
            (beginning s (rounds config.grpc_inference_threads))
          ≡ some w)
        × ((q : ℕ) → w.activity q ≡ waiting)
        × (heard (session w.host) ≡ asked (loopback engine) cs (s, []))
  beginning-asked pos lt =
      let (_, turns, w, _, _, _, went, idle, _, told) = calls_served pos lt in
      (turns, w, went, idle, told)
