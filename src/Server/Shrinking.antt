-- ===== src/Server/Shrinking.antt =====
-- What the events that the runtime returns leave of its operations (Rpc/Host), while `grpc_server::stop`
-- (grpc_server.cpp) waits for the queues to drain.
use tiny_inference_engine.Base.{ℕ, ◌≡◌, inl, inr, refl, ◌∙◌, List, [], ◌∷◌, ◌==◌, arith, Bool-cases}
use tiny_inference_engine.Rpc.Host.{
  Wanted, receive, finished, Event, outstanding, complete, release,
}
use tiny_inference_engine.Rpc.Execute.{arrive}
use tiny_inference_engine.Rpc.Counting.{count-complete, Single, Single-complete}
use tiny_inference_engine.Rpc.Queues.{OnQueues, OnQueues-complete}
use tiny_inference_engine.Rpc.Threads.{Activity, World, queue_of, take_event}
use tiny_inference_engine.Server.Halting.{is_on, load, take_drained, released}

-- Operations may have ended; the rest of the host, its objects aside, is the same.
pub record Shrinks {S : Type 0} (w u : World S) : Type 0 where
  pub engine : u.host.engine ≡ w.host.engine
  pub next_id : u.host.next_id ≡ w.host.next_id
  pub replies : u.host.replies ≡ w.host.replies
  pub emptied : (q : ℕ) → load q w ≡ 0 → load q u ≡ 0
  pub single : Single w.host.pending → Single u.host.pending
  pub on_queues : (n : ℕ) → OnQueues n w.host.pending → OnQueues n u.host.pending

pub Shrinks-refl : {S : Type 0} (w : World S) → Shrinks w w
Shrinks-refl w = record {
  engine = refl;
  next_id = refl;
  replies = refl;
  emptied = λ q e. e;
  single = λ s. s;
  on_queues = λ n on. on;
}

pub Shrinks-released : {S : Type 0} (w : World S) → Shrinks w (released w)
unfolding release
Shrinks-released w = record {
  engine = refl;
  next_id = refl;
  replies = refl;
  emptied = λ q e. e;
  single = λ s. s;
  on_queues = λ n on. on;
}

pub Shrinks-trans : {S : Type 0} {u v w : World S} → Shrinks u v → Shrinks v w → Shrinks u w
Shrinks-trans k l = record {
  engine = l.engine ∙ k.engine;
  next_id = l.next_id ∙ k.next_id;
  replies = l.replies ∙ k.replies;
  emptied = λ q e. l.emptied q (k.emptied q e);
  single = λ s. l.single (k.single s);
  on_queues = λ n on. l.on_queues n (k.on_queues n on);
}

module _ {S : Type 0} where
  -- The runtime completes an operation.
  pub complete-Shrinks :
      (t : ℕ) (v : Wanted) (vs : List Wanted) (w u : World S)
      → outstanding t w.host.pending ≡ v ∷ vs
      → u.host.pending ≡ complete t w.host.pending
      → (u.host.engine ≡ w.host.engine)
        × (u.host.next_id ≡ w.host.next_id)
        × (u.host.replies ≡ w.host.replies)
      → Shrinks w u
  complete-Shrinks t v vs w u o gone (engine, next_id, replies) =
      let p = w.host.pending in
      record {
        engine = engine;
        next_id = next_id;
        replies = replies;
        emptied = λ q e. rw gone (omega (arith, count-complete (is_on q) t v vs p o, e));
        single = λ s. rw gone (Single-complete t p s);
        on_queues = λ n on. rw gone (OnQueues-complete n t p on);
      }

  pub arrive-Shrinks :
      (e : Event) (v : Wanted) (vs : List Wanted) (w : World S) (a : ℕ → Activity)
      → outstanding e.tag w.host.pending ≡ v ∷ vs
      → Shrinks w (record { host = arrive e v w.host; activity = a })
  unfolding arrive
  arrive-Shrinks e (receive k queue) vs w a o = elim (Bool-cases e.ok) [
    | inl ok ↦
        complete-Shrinks e.tag (receive k queue) vs w _ o (rw ok refl) (rw ok (refl, refl, refl))
    | inr failed ↦
        complete-Shrinks e.tag (receive k queue) vs w _ o (rw failed refl)
          (rw failed (refl, refl, refl))
  ]
  arrive-Shrinks e (finished queue) vs w a o =
      complete-Shrinks e.tag (finished queue) vs w _ o refl (refl, refl, refl)

  -- The drain takes an event, or a thread does.
  pub take_drained-Shrinks :
      (ws : List Wanted) (q : ℕ) (e : Event) (w : World S)
      → outstanding e.tag w.host.pending ≡ ws
      → Shrinks w (take_drained ws q e w)
  take_drained-Shrinks [] q e w o = Shrinks-refl w
  take_drained-Shrinks (v ∷ vs) q e w o = elim (Bool-cases (queue_of v == q)) [
    | inl mine ↦ rw mine (arrive-Shrinks e v vs w w.activity o)
    | inr other ↦ rw other (Shrinks-refl w)
  ]

  pub take_event-Shrinks :
      (ws : List Wanted) (q : ℕ) (e : Event) (w : World S)
      → outstanding e.tag w.host.pending ≡ ws
      → Shrinks w (take_event ws q e w)
  take_event-Shrinks [] q e w o = Shrinks-refl w
  take_event-Shrinks (v ∷ vs) q e w o = elim (Bool-cases (queue_of v == q)) [
    | inl mine ↦ rw mine (arrive-Shrinks e v vs w _ o)
    | inr other ↦ rw other (Shrinks-refl w)
  ]
