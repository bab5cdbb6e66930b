-- ===== src/Rpc/Creation.antt =====
-- A thread's accesses while it creates an RPC, and which thread is then at which object
-- (rpc/rpc_unary_async.cpp, rpc/rpc_pool.hpp).
use tiny_inference_engine.Base.{
  ℕ, ◌+◌, ◌%◌, ◌^◌, ◌<◌, ◌≡◌, ◌≢◌, ◌⊎◌, inl, inr, refl, sym, ◌∙◌, ap, subst, Option, none, some, [],
  ◌∷◌, arith, ◌==◌, ==_iff, if◌then◌else◌, Bool-cases,
}
use tiny_inference_engine.Base.Table.{find, find-assign}
use tiny_inference_engine.Messages.{Kind}
use tiny_inference_engine.Rpc.Host.{Rpc, Host, outstanding}
use tiny_inference_engine.Rpc.Threads.{
  Next, serve, enroll, Activity, waiting, allocating, inserting, setting_up, starting, processing,
  World, put, resume,
}
use tiny_inference_engine.Rpc.Confined.{
  free, stage, owed, owed_in, reserves, Other, Local, Confined, put-Local, owner,
}
use tiny_inference_engine.Rpc.Execute.{store, setup_request}
use tiny_inference_engine.Rpc.Host.{process, new_rpc}
use tiny_inference_engine.Rpc.Classes.{class_of-listens}

pub owed-put :
    (j q : ℕ) (a : Activity) (activity : ℕ → Activity) (o : Option Rpc)
    → stage j a ≡ stage j (activity q)
    → owed j (λ p. if p == q then a else activity p) o ≡ owed j activity o
owed-put j q a activity none same = refl
owed-put j q a activity (some r) same = elim (Bool-cases (r.queue == q)) [
  | inl mine ↦ rw mine (
      ap (λ s. owed_in s r)
        (same ∙ ap (λ p. stage j (activity p)) (sym ((==_iff r.queue q).0 mine))))
  | inr other ↦ rw other refl
]

pub stage-put :
    (j p q : ℕ) (a : Activity) (activity : ℕ → Activity)
    → stage j a ≡ stage j (activity q)
    → stage j (if p == q then a else activity p) ≡ stage j (activity p)
stage-put j p q a activity same = elim (Bool-cases (p == q)) [
  | inl mine ↦ rw mine (same ∙ ap (λ p. stage j (activity p)) (sym ((==_iff p q).0 mine)))
  | inr other ↦ rw other refl
]

module _ {S : Type 0} (q : ℕ) (w : World S) (v : Confined w) where
  -- A thread that neither takes an id nor has one to insert.
  pub put-Confined :
      (a : Activity) (h : Host S)
      → reserves a ≡ none
      → Local q a
      → h.next_id ≡ w.host.next_id
      → ((j : ℕ) → find j w.host.rpcs ≡ none → find j h.rpcs ≡ none)
      → ((j : ℕ) → outstanding j h.pending ≡ owed j (put q a w h).activity (find j h.rpcs))
      → ((p j : ℕ) → (stage j ((put q a w h).activity p) ≡ free) ⊎ (owner (find j h.rpcs) ≡ some p))
      → Confined (put q a w h)
  put-Confined a h idle ok same_id gone agree owns = record {
    agree = agree;
    owns = owns;
    fresh = λ j le. gone j (v.fresh j (omega (arith, same_id)));
    reserved = λ p id e. ground (arith, v.reserved p id, gone id, same_id);
    single = λ p p' id e e'. ground (arith, v.single p p' id);
    own = λ p. put-Local q p a w h ok (v.own p);
  }

  -- A thread that only goes on.
  pub on-Confined :
      (a : Activity)
      → ((j : ℕ) → stage j a ≡ stage j (w.activity q))
      → reserves a ≡ none
      → Local q a
      → Confined (put q a w w.host)
  on-Confined a same idle ok =
      put-Confined a w.host idle ok refl (λ j e. e)
        (λ j. v.agree j ∙ sym (owed-put j q a w.activity (find j w.host.rpcs) (same j)))
        (λ p j. rw (stage-put j p q a w.activity (same j)) (v.owns p j))

  pub allocating-Confined :
      (k : Kind) (queue : ℕ) (n : Next)
      → w.activity q ≡ allocating k queue n
      → w.host.next_id + 1 < 2 ^ 64
      → Confined (
          put q
            (inserting w.host.next_id k queue n)
            w
            (record w.host { next_id = (w.host.next_id + 1) % 2 ^ 64 }))
  allocating-Confined k queue n a lt =
      let same : (j : ℕ) → stage j (inserting w.host.next_id k queue n) ≡ stage j (w.activity q) =
        λ j. rw a refl in
      let mine : queue ≡ q = subst (Local q) a (v.own q) in
      record {
        agree = λ j. v.agree j ∙ sym (owed-put j q _ w.activity (find j w.host.rpcs) (same j));
        owns = λ p j.
            rw (stage-put j p q (inserting w.host.next_id k queue n) w.activity (same j))
              (v.owns p j);
        fresh = λ j le. v.fresh j (omega arith);
        reserved = λ p id e. ground (arith, v.reserved p id, v.fresh w.host.next_id);
        single =
            λ p p' id e e'. ground (arith, v.single p p' id, v.reserved p id, v.reserved p' id);
        own = λ p. put-Local q p (inserting w.host.next_id k queue n) w w.host mine (v.own p);
      }

  Other-reserved :
      (id : ℕ) (k : Kind) (queue : ℕ) (n : Next)
      → w.activity q ≡ inserting id k queue n
      → Other id n
  Other-reserved id k queue (serve t) a = λ e. ground (arith, v.owns q t, v.reserved q id)
  Other-reserved id k queue (enroll ks) a = tt

  pub inserting-Confined :
      (id : ℕ) (k : Kind) (queue : ℕ) (n : Next)
      → w.activity q ≡ inserting id k queue n
      → Confined (put q (setting_up id n) w (store id (new_rpc k queue) w.host))
  unfolding store new_rpc
  inserting-Confined id k queue n a =
      let mine : queue ≡ q = subst (Local q) a (v.own q) in
      record {
        agree = λ j. simp find-assign (ground (arith, v.agree j, v.owns q j, v.reserved q id));
        owns = λ p j. simp find-assign (ground (arith, v.owns p j, v.reserved q id));
        fresh = λ j le. simp find-assign (ground (arith, v.fresh j, v.reserved q id));
        reserved = λ p i e. simp find-assign (ground (arith, v.reserved p i, v.single p q i));
        single = λ p p' i e e'. ground (arith, v.single p p' i);
        own =
            λ p. put-Local q p (setting_up id n) w w.host (Other-reserved id k queue n a) (v.own p);
      }

  pub setting_up-Confined :
      (id : ℕ) (r : Rpc) (n : Next)
      → w.activity q ≡ setting_up id n
      → find id w.host.rpcs ≡ some r
      → r.queue ≡ q
      → Confined (put q (starting id n) w (setup_request id r w.host))
  unfolding setup_request outstanding
  setting_up-Confined id r n a here mine =
      put-Confined (starting id n) (setup_request id r w.host) refl (subst (Local q) a (v.own q))
        refl (λ j e. e) (λ j. ground (arith, v.agree j, v.owns q j, class_of-listens r.kind))
        (λ p j. ground (arith, v.owns p j))

  pub starting-Confined :
      (id : ℕ) (r : Rpc) (n : Next)
      → w.activity q ≡ starting id n
      → find id w.host.rpcs ≡ some r
      → r.queue ≡ q
      → Confined (put q (resume q n) w (store id (record r { state = process }) w.host))
  unfolding store
  starting-Confined id r (serve t) a here mine =
      let other : id ≢ t = subst (Local q) a (v.own q) in
      put-Confined (processing t) (store id (record r { state = process }) w.host) refl tt refl
        (λ j e. simp find-assign (ground (arith, e)))
        (λ j. simp find-assign (ground (arith, v.agree j, v.owns q j, other)))
        (λ p j. simp find-assign (ground (arith, v.owns p j, other)))
  starting-Confined id r (enroll []) a here mine =
      put-Confined waiting (store id (record r { state = process }) w.host) refl tt refl
        (λ j e. simp find-assign (ground (arith, e)))
        (λ j. simp find-assign (ground (arith, v.agree j, v.owns q j)))
        (λ p j. simp find-assign (ground (arith, v.owns p j)))
  starting-Confined id r (enroll (k ∷ ks)) a here mine =
      put-Confined (allocating k q (enroll ks)) (store id (record r { state = process }) w.host)
        refl refl refl (λ j e. simp find-assign (ground (arith, e)))
        (λ j. simp find-assign (ground (arith, v.agree j, v.owns q j)))
        (λ p j. simp find-assign (ground (arith, v.owns p j)))
