-- ===== src/Rpc/Shutdown.antt =====
-- The event of an operation that the runtime gives up (`grpc_server::stop`, grpc_server.cpp), and the objects
-- that have been set up.
use tiny_inference_engine.Base.{ℕ, ◌≢◌, false, Option, none, some, ◌==◌, Bool-cases, inl, inr}
use tiny_inference_engine.Base.Table.{find, find-assign}
use tiny_inference_engine.Messages.{Kind, default_request}
use tiny_inference_engine.Rpc.Host.{Rpc, create, Host, Event, new_rpc}
use tiny_inference_engine.Rpc.Execute.{spawn}

-- The runtime gives up the operation of a tag.
abbrev pub cancelled : ℕ → Event
cancelled t = record { tag = t; ok = false; incoming = default_request }

-- The object, if any, was set up.
abbrev pub IsSetUp : Option Rpc → Type 0
IsSetUp none = Unit {0}
IsSetUp (some r) = r.state ≢ create

abbrev pub SetUp : {S : Type 0} → Host S → Type 0
SetUp h = (t : ℕ) → IsSetUp (find t h.rpcs)

pub spawn-SetUp :
    {S : Type 0} (k : Kind) (queue : ℕ) (h : Host S) → SetUp h → SetUp (spawn k queue h)
unfolding spawn new_rpc
spawn-SetUp k queue h s t = elim (Bool-cases (h.next_id == t)) [
  | inl same ↦ rw (find-assign, same) (λ e. cc)
  | inr differs ↦ simp (find-assign, differs) (s t)
]
