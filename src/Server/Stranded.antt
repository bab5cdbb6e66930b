-- ===== src/Server/Stranded.antt =====
-- A thread at an object that is gone, while other threads go on (rpc/rpc_unary_async.cpp, rpc_pool.cpp).
use tiny_inference_engine.Base.{
  some_eq, ℕ, ◌+◌, ◌^◌, ◌<◌, ◌≤◌, ◌≡◌, ◌≢◌, inl, inr, refl, sym, Bool, false, none, some, List, [],
  ◌∷◌, arith, length, ◌==◌, Bool-cases, Option-cases,
}
use tiny_inference_engine.Base.Table.{find, find-assign, find-erase, find-adjust}
use tiny_inference_engine.Engine.{EngineInterface}
use tiny_inference_engine.Rpc.Host.{
  Rpc, Wanted, receive, finished, Host, Event, outstanding, remove_rpc,
}
use tiny_inference_engine.Rpc.Execute.{store, setup_request, arrive}
use tiny_inference_engine.Rpc.Steps.{next_id-arrive}
use tiny_inference_engine.Rpc.Threads.{
  Next, serve, enroll, Activity, waiting, returned, allocating, inserting, setting_up, starting,
  processing, writing, finishing, removing, World, put, resume, executing, queue_of, take_event,
  on_rpc, turn, schedule,
}
use tiny_inference_engine.Rpc.Confined.{reserves}

-- No access is one of this thread.
abbrev pub OfOthers : ℕ → List (ℕ × Event) → Type 0
OfOthers q [] = Unit {0}
OfOthers q ((p, e) ∷ es) = (p ≢ q) × OfOthers q es

-- The id was given out, its object is gone, no thread will insert it, and the thread `q` still stands
-- there; ids are below `n`.
pub record Gone {S : Type 0} (t q : ℕ) (b : Activity) (n : ℕ) (w : World S) : Type 0 where
  pub absent : find t w.host.rpcs ≡ none
  pub used : t < w.host.next_id
  pub below : w.host.next_id ≤ n
  pub unreserved : (p : ℕ) → reserves (w.activity p) ≢ some t
  pub stays : w.activity q ≡ b

module _ {S : Type 0} (t q : ℕ) (b : Activity) (m : ℕ) where
  put-Gone :
      (p : ℕ) (a : Activity) (w : World S) (h : Host S)
      → p ≢ q
      → Gone t q b m w
      → find t h.rpcs ≡ none
      → w.host.next_id ≤ h.next_id
      → h.next_id ≤ w.host.next_id + 1
      → reserves a ≢ some t
      → Gone t q b (m + 1) (put p a w h)
  put-Gone p a w h apart v gone le ge other = record {
    absent = gone;
    used = omega (arith, v.used);
    below = omega (arith, v.below);
    unreserved = λ j e. elim (Bool-cases (j == p)) [
      | inl same ↦ other (ground (arith, e, same))
      | inr differs ↦ v.unreserved j (ground (arith, e, differs))
    ];
    stays = ground (arith, v.stays);
  }

  -- An access to an object that is there is one to another object.
  on_rpc-Gone :
      (u : ℕ) (w w' : World S) (f : Rpc → World S)
      → Gone t q b m w
      → on_rpc u w f ≡ some w'
      → ((r : Rpc) → (u == t) ≡ false → Gone t q b (m + 1) (f r))
      → Gone t q b (m + 1) w'
  on_rpc-Gone u w w' f v went next = elim (Option-cases (find u w.host.rpcs)) [
    | inl lost ↦ absurd (ground (arith, went, lost))
    | inr (r, here) ↦
        let same : f r ≡ w' = ground (arith, went, here) in
        rw (sym same) (next r (ground (arith, here, v.absent)))
  ]

reserves-resume_lem : (q : ℕ) (n : Next) → reserves (resume q n) ≡ none
reserves-resume_lem q (serve t) = refl
reserves-resume_lem q (enroll []) = refl
reserves-resume_lem q (enroll (k ∷ ks)) = refl

reserves-executing_lem : (b : Bool) (t : ℕ) (r : Rpc) → reserves (executing b r.state t r) ≡ none
reserves-executing_lem b t r = ground arith

absent-arrive_lem :
    {S : Type 0} (t : ℕ) (e : Event) (x : Wanted) (h : Host S)
    → find t h.rpcs ≡ none
    → find t (arrive e x h).rpcs ≡ none
unfolding arrive
absent-arrive_lem t e (receive k queue) h gone = elim (Bool-cases e.ok) [
  | inl ok ↦ rw (ok, find-adjust) (ground (arith, gone))
  | inr failed ↦ rw failed gone
]
absent-arrive_lem t e (finished queue) h gone = gone

module _ {S : Type 0} (engine : EngineInterface S) (t q : ℕ) (b : Activity) (m : ℕ) where
  later : {w : World S} → Gone t q b m w → Gone t q b (m + 1) w
  later v = record {
    absent = v.absent;
    used = v.used;
    below = omega (arith, v.below);
    unreserved = v.unreserved;
    stays = v.stays;
  }

  take-Gone :
      (p : ℕ) (e : Event) (w w' : World S) (xs : List Wanted)
      → p ≢ q
      → Gone t q b m w
      → some (take_event xs p e w) ≡ some w'
      → Gone t q b (m + 1) w'
  unfolding arrive
  take-Gone p e w w' [] apart v went = rw (sym (some_eq went)) (later v)
  take-Gone p e w w' (x ∷ xs) apart v went = elim (Bool-cases (queue_of x == p)) [
    | inr other ↦ rw (sym (some_eq (rw other at went))) (later v)
    | inl mine ↦ rw (sym (some_eq (rw mine at went))) (
        put-Gone t q b m p _ w _ apart v (absent-arrive_lem t e x w.host v.absent)
          (omega (arith, next_id-arrive engine e x w.host))
          (omega (arith, next_id-arrive engine e x w.host)) (λ z. cc z))
  ]

  turn-Gone :
      (p : ℕ) (e : Event) (w w' : World S) (a : Activity)
      → p ≢ q
      → w.host.next_id + 1 < 2 ^ 64
      → Gone t q b m w
      → w.activity p ≡ a
      → turn engine p e w ≡ some w'
      → Gone t q b (m + 1) w'
  unfolding turn store setup_request remove_rpc
  turn-Gone p e w w' waiting apart lt v a went =
      let went1 = rw a at went in
      take-Gone p e w w' (outstanding e.tag w.host.pending) apart v went1
  turn-Gone p e w w' (returned u ok) apart lt v a went =
      let went1 = rw a at went in
      on_rpc-Gone t q b m u w w' _ v went1 λ r other.
        put-Gone t q b m p _ w _ apart v v.absent (omega arith) (omega arith)
          (λ z. cc (z, reserves-executing_lem ok u r))
  turn-Gone p e w w' (allocating k queue n) apart lt v a went =
      let went1 = rw a at went in
      rw (sym (some_eq went1)) (
        put-Gone t q b m p _ w _ apart v v.absent (omega arith) (omega arith)
          (λ z. ground (arith, z, v.used)))
  turn-Gone p e w w' (inserting id k queue n) apart lt v a went =
      let went1 = rw a at went in
      let other : (id == t) ≡ false = ground (arith, v.unreserved p, a) in
      rw (sym (some_eq went1)) (
        put-Gone t q b m p _ w _ apart v (rw (find-assign, other) v.absent) (omega arith)
          (omega arith) (λ z. cc z))
  turn-Gone p e w w' (setting_up id n) apart lt v a went =
      let went1 = rw a at went in
      on_rpc-Gone t q b m id w w' _ v went1
        λ r other. put-Gone t q b m p _ w _ apart v v.absent (omega arith) (omega arith) (λ z. cc z)
  turn-Gone p e w w' (starting id n) apart lt v a went =
      let went1 = rw a at went in
      on_rpc-Gone t q b m id w w' _ v went1 λ r other.
        put-Gone t q b m p _ w _ apart v (rw (find-assign, other) v.absent) (omega arith)
          (omega arith) (λ z. cc (z, reserves-resume_lem p n))
  turn-Gone p e w w' (processing u) apart lt v a went =
      let went1 = rw a at went in
      on_rpc-Gone t q b m u w w' _ v went1 λ r other.
        put-Gone t q b m p _ w _ apart v (rw (find-assign, other) v.absent) (omega arith)
          (omega arith) (λ z. cc z)
  turn-Gone p e w w' (writing u) apart lt v a went =
      let went1 = rw a at went in
      on_rpc-Gone t q b m u w w' _ v went1
        λ r other. put-Gone t q b m p _ w _ apart v v.absent (omega arith) (omega arith) (λ z. cc z)
  turn-Gone p e w w' (finishing u) apart lt v a went =
      let went1 = rw a at went in
      on_rpc-Gone t q b m u w w' _ v went1 λ r other.
        put-Gone t q b m p _ w _ apart v (rw (find-assign, other) v.absent) (omega arith)
          (omega arith) (λ z. cc z)
  turn-Gone p e w w' (removing u) apart lt v a went =
      let went1 = rw a at went in
      on_rpc-Gone t q b m u w w' _ v went1 λ r other.
        put-Gone t q b m p _ w _ apart v (rw (find-erase, other) v.absent) (omega arith)
          (omega arith) (λ z. cc z)

module _ {S : Type 0} (engine : EngineInterface S) (t q : ℕ) (b : Activity) where
  pub schedule-Gone :
      (es : List (ℕ × Event)) (m : ℕ) (w w' : World S)
      → OfOthers q es
      → m + length es < 2 ^ 64
      → Gone t q b m w
      → schedule engine es w ≡ some w'
      → (n : ℕ) × Gone t q b n w'
  unfolding schedule
  schedule-Gone [] m w w' others lt v went = (m, rw (sym (some_eq went)) v)
  schedule-Gone ((p, e) ∷ es) m w w' (apart, others) lt v went =
      elim (Option-cases (turn engine p e w)) [
        | inl fault ↦ absurd (cc (rw fault at went))
        | inr (w1, first) ↦
            let v1 =
              turn-Gone engine t q b m p e w w1 (w.activity p) apart (omega (arith, v.below)) v refl
                first in
            schedule-Gone es (m + 1) w1 w' others (omega arith) v1 (rw first at went)
      ]
