-- ===== src/Rpc/Confined.antt =====
-- Which thread stands at which object (rpc/rpc_unary_async.cpp, grpc_server.cpp).
use tiny_inference_engine.Base.{
  ℕ, ◌<◌, ◌≤◌, ◌≡◌, ◌≢◌, ◌⊎◌, inl, inr, Option, none, some, List, [], ◌∷◌, arith, ◌==◌, ==_iff,
  if◌then◌else◌, Bool-cases, Option-cases,
}
use tiny_inference_engine.Base.Table.{find}
use tiny_inference_engine.Rpc.Host.{Rpc, Wanted, receive, finished, Host, outstanding}
use tiny_inference_engine.Rpc.Invariant.{due_in}
use tiny_inference_engine.Rpc.Threads.{
  Next, serve, enroll, Activity, waiting, returned, allocating, inserting, setting_up, starting,
  processing, writing, finishing, removing, World, put,
}

-- How far a thread is with an object: not at it; at it, with nothing of it with the runtime; past
-- `setup_request()`; past `write_response()`.
pub data Stage : Type 0 where
  free held set_up answered : Stage

abbrev pub at_next : ℕ → Next → Stage
at_next t (serve u) = if u == t then held else free
at_next t (enroll ks) = free

abbrev pub stage : ℕ → Activity → Stage
stage t waiting = free
stage t (returned u ok) = if u == t then held else free
stage t (allocating k queue n) = at_next t n
stage t (inserting id k queue n) = at_next t n
stage t (setting_up id n) = if id == t then held else at_next t n
stage t (starting id n) = if id == t then set_up else at_next t n
stage t (processing u) = if u == t then held else free
stage t (writing u) = if u == t then held else free
stage t (finishing u) = if u == t then answered else free
stage t (removing u) = if u == t then held else free

-- What the runtime has of an object at whose queue's thread it is in this stage.
abbrev pub owed_in : Stage → Rpc → List Wanted
owed_in free r = due_in r.state r
owed_in held r = []
owed_in set_up r = receive r.kind r.queue ∷ []
owed_in answered r = finished r.queue ∷ []

abbrev pub owed : ℕ → (ℕ → Activity) → Option Rpc → List Wanted
owed t activity none = []
owed t activity (some r) = owed_in (stage t (activity r.queue)) r

abbrev pub owner : Option Rpc → Option ℕ
owner none = none
owner (some r) = some r.queue

-- The id that is given out and not yet in the pool.
abbrev pub reserves : Activity → Option ℕ
reserves (inserting id k queue n) = some id
reserves _ = none

abbrev pub Other : ℕ → Next → Type 0
Other id (serve t) = id ≢ t
Other id (enroll ks) = Unit {0}

-- A thread makes RPCs on its own queue, and does not set up the object that it serves.
abbrev pub Local : ℕ → Activity → Type 0
Local q (allocating k queue n) = queue ≡ q
Local q (inserting id k queue n) = queue ≡ q
Local q (setting_up id n) = Other id n
Local q (starting id n) = Other id n
Local q _ = Unit {0}

-- Each object is at most at the thread of its own queue, and the runtime has of it what that thread's
-- stage leaves; ids are given to one thread each.
pub record Confined {S : Type 0} (w : World S) : Type 0 where
  pub agree : (t : ℕ) → outstanding t w.host.pending ≡ owed t w.activity (find t w.host.rpcs)
  pub owns : (q t : ℕ) → (stage t (w.activity q) ≡ free) ⊎ (owner (find t w.host.rpcs) ≡ some q)
  pub fresh : (t : ℕ) → w.host.next_id ≤ t → find t w.host.rpcs ≡ none
  pub reserved :
      (q id : ℕ)
      → reserves (w.activity q) ≡ some id
      → (find id w.host.rpcs ≡ none) × (id < w.host.next_id)
  pub single :
      (p q id : ℕ) → reserves (w.activity p) ≡ some id → reserves (w.activity q) ≡ some id → p ≡ q
  pub own : (q : ℕ) → Local q (w.activity q)

pub put-Local :
    {S : Type 0} (q p : ℕ) (a : Activity) (w : World S) (h : Host S)
    → Local q a
    → Local p (w.activity p)
    → Local p ((put q a w h).activity p)
put-Local q p a w h new old = elim (Bool-cases (p == q)) [
  | inl same ↦ rw (same, (==_iff p q).0 same) new
  | inr differs ↦ rw differs old
]

module _ {S : Type 0} where
  -- The object that a thread stands at is in the pool, and on its queue.
  pub at-found :
      (q t : ℕ) (w : World S)
      → Confined w
      → stage t (w.activity q) ≢ free
      → (r : Rpc) × (find t w.host.rpcs ≡ some r) × (r.queue ≡ q)
  at-found q t w v at = elim (Option-cases (find t w.host.rpcs)) [
    | inl e ↦ ground (arith, v.owns q t)
    | inr (r, e) ↦ (r, e, ground (arith, v.owns q t))
  ]
