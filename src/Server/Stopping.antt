-- ===== src/Server/Stopping.antt =====
-- `grpc_server::stop` (grpc_server.cpp) while threads treat events: its first access to shared state is
-- `rpc_pool::get().release()`, and no thread waits for it.
use tiny_inference_engine.Base.{
  some_eq, ℕ, ◌+◌, ◌^◌, ◌<◌, ◌≤◌, ◌≡◌, ◌≢◌, inl, inr, refl, sym, ap, subst, ltb, Option, none, some,
  List, arith, length, Bool-cases,
}
use tiny_inference_engine.Base.Table.{find}
use tiny_inference_engine.Engine.{EngineInterface}
use tiny_inference_engine.Rpc.Host.{Rpc, Event, release, remove_rpc}
use tiny_inference_engine.Rpc.Execute.{store}
use tiny_inference_engine.Rpc.Threads.{
  Activity, returned, processing, writing, finishing, removing, World, on_rpc, turn, schedule,
}
use tiny_inference_engine.Rpc.Confined.{free, stage, Confined, at-found}
use tiny_inference_engine.Rpc.Interleaving.{turn-Confined, schedule-Confined}
use tiny_inference_engine.Server.Concurrent.{beginning, beginning-Confined}
use tiny_inference_engine.Server.Halting.{released}
use tiny_inference_engine.Server.Stranded.{OfOthers, Gone, schedule-Gone}

-- The object that the next access of a thread reaches by the tag that `Next` returned.
abbrev pub at_tag : Activity → Option ℕ
at_tag (returned t ok) = some t
at_tag (processing t) = some t
at_tag (writing t) = some t
at_tag (finishing t) = some t
at_tag (removing t) = some t
at_tag _ = none

on_rpc-lost :
    {S : Type 0} (u t : ℕ) (w : World S) (f : Rpc → World S)
    → find t w.host.rpcs ≡ none
    → some u ≡ some t
    → on_rpc u w f ≡ none
on_rpc-lost u t w f lost same =
    rw (some_eq same) (ap (λ o. elim o [ none ↦ none | some r ↦ some (f r) ]) lost)

-- An access through the tag of an object that is gone.
pub turn-lost :
    {S : Type 0} (engine : EngineInterface S) (q t : ℕ) (e : Event) (w : World S) (b : Activity)
    → w.activity q ≡ b
    → at_tag b ≡ some t
    → find t w.host.rpcs ≡ none
    → turn engine q e w ≡ none
unfolding turn store remove_rpc
turn-lost engine q t e w (returned u ok) a at lost = rw a (on_rpc-lost u t w _ lost at)
turn-lost engine q t e w (processing u) a at lost = rw a (on_rpc-lost u t w _ lost at)
turn-lost engine q t e w (writing u) a at lost = rw a (on_rpc-lost u t w _ lost at)
turn-lost engine q t e w (finishing u) a at lost = rw a (on_rpc-lost u t w _ lost at)
turn-lost engine q t e w (removing u) a at lost = rw a (on_rpc-lost u t w _ lost at)
turn-lost engine q t e w _ a at lost = absurd (cc at)

at_tag-stage : (b : Activity) (t : ℕ) → at_tag b ≡ some t → stage t b ≢ free
at_tag-stage b t at = λ z. ground (arith, at, z)

released-Gone :
    {S : Type 0} (q t : ℕ) (w : World S)
    → Confined w
    → at_tag (w.activity q) ≡ some t
    → Gone t q (w.activity q) w.host.next_id (released w)
unfolding release find
released-Gone q t w v at =
    let (r, here, mine) = at-found q t w v (at_tag-stage (w.activity q) t at) in
    record {
      absent = refl;
      used = elim (Bool-cases (ltb t w.host.next_id)) [
        | inl below ↦ ground (arith, below)
        | inr above ↦ absurd (cc (v.fresh t (ground (arith, above)), here))
      ];
      below = omega arith;
      unreserved = λ p e. absurd (cc ((v.reserved p t e).0, here));
      stays = refl;
    }

module _ {S : Type 0} (engine : EngineInterface S) (s : S) (n : ℕ) where
  -- `stop` does not wait for the threads: if it releases the pool while a thread of a started server is at
  -- an object by its tag, the next access of that thread, which was sound before, is to a freed object,
  -- whatever accesses other threads make in between; if fewer than 2 ^ 64 accesses are made.
  pub stop-strands :
      (es es' : List (ℕ × Event)) (w w' : World S) (q t : ℕ) (e : Event)
      → length es + length es' + 1 < 2 ^ 64
      → schedule engine es (beginning s n) ≡ some w
      → at_tag (w.activity q) ≡ some t
      → OfOthers q es'
      → schedule engine es' (released w) ≡ some w'
      → (turn engine q e w ≢ none) × (turn engine q e w' ≡ none)
  stop-strands es es' w w' q t e lt went at others goes =
      let (w1, went1, v1, small) =
        schedule-Confined engine es (beginning s n) (beginning-Confined s n) (omega arith) in
      let same : w1 ≡ w = cc (went1, went) in
      let v = subst Confined same v1 in
      let bound : w.host.next_id ≤ length es = rw (sym same) (omega (arith, small)) in
      let (w2, sound, _, _) =
        turn-Confined engine q e w (w.activity q) (omega (arith, bound)) v refl in
      let (_, gone) =
        schedule-Gone engine t q (w.activity q) es' w.host.next_id (released w) w' others
          (omega (arith, bound)) (released-Gone q t w v at) goes in
      (λ z. cc (z, sound), turn-lost engine q t e w' (w.activity q) gone.stays at gone.absent)
