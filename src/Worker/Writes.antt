-- ===== src/Worker/Writes.antt =====
-- The statements of the workers: what they do to the job's record when they return, and that they
-- return if nothing aborts them.
use rag_llm.Prelude.{String, ◌≡◌, refl, sym, ◌∙◌, subst, List, [], ◌∷◌}
use rag_llm.Failure.{Result, ok, err, Action, next_of, ◌>>◌}
use rag_llm.Job.{Field, update_job}
use rag_llm.World.{
  World, Await, returned, interrupted, dropped, await_by, awaited, scheduled, write_job, set_job,
  interleave,
}
use rag_llm.Worker.Ending.{WritesIfOk, KeepsStore, ReturnsUncut, Writes}

module _ {R : Type 0} where
  await_by-kept :
      (awaits : List Await) (m : Action (World R) (Unit {0}))
      → KeepsStore m
      → (w : World R) → (await_by awaits m w).1.store ≡ w.store
  await_by-kept [] m k w = k.kept w
  await_by-kept (returned ∷ awaits) m k w = k.kept (record w { awaits = awaits })
  await_by-kept (interrupted ∷ awaits) m k w = k.kept (record w { awaits = awaits })
  await_by-kept (dropped ∷ awaits) m k w = refl

  pub awaited-KeepsStore : (m : Action (World R) (Unit {0})) → KeepsStore m → KeepsStore (awaited m)
  unfolding awaited
  awaited-KeepsStore m k = record { kept = λ w. await_by-kept w.awaits m k w }

  pub awaited-ReturnsUncut :
      (m : Action (World R) (Unit {0})) → ReturnsUncut m → ReturnsUncut (awaited m)
  unfolding awaited
  awaited-ReturnsUncut m r = record {
    at = λ w e.
        subst (λ a. ((await_by a m w).0 ≡ ok tt) × ((await_by a m w).1.awaits ≡ [])) (sym e)
          (r.at w e);
  }

  pub then-ReturnsUncut :
      (m n : Action (World R) (Unit {0})) → ReturnsUncut m → ReturnsUncut n → ReturnsUncut (m >> n)
  unfolding ◌>>◌
  then-ReturnsUncut m n rm rn = record { at = λ w e. go (m w) (rm.at w e) }
    where
      go :
          (p : Result (Unit {0}) × World R)
          → (p.0 ≡ ok tt) × (p.1.awaits ≡ [])
          → ((next_of (λ _. n) p).0 ≡ ok tt) × ((next_of {A = Unit {0}} (λ _. n) p).1.awaits ≡ [])
      go (ok u, v) (e, q) = rn.at v q
      go (err x, v) (e, q) = absurd (cc)

  pub interleave-ReturnsUncut : (others : World R → World R) → ReturnsUncut (interleave others)
  unfolding interleave
  interleave-ReturnsUncut others = awaited-ReturnsUncut _ (record { at = λ w e. (refl, e) })

  module _ (id : String) where
    await_by-stored :
        (awaits : List Await) (fs : List Field) (w : World R)
        → (await_by awaits (set_job id fs) w).0 ≡ ok tt
        → (await_by awaits (set_job id fs) w).1.store ≡ update_job id fs w.store
    unfolding set_job
    await_by-stored [] fs w h = refl
    await_by-stored (returned ∷ awaits) fs w h = refl
    await_by-stored (interrupted ∷ awaits) fs w h = refl
    await_by-stored (dropped ∷ awaits) fs w h = absurd (cc)

    pub write_job-WritesIfOk : (fs : List Field) → WritesIfOk {R = R} id fs (write_job id fs)
    unfolding write_job awaited
    write_job-WritesIfOk fs = record { stored = λ w h. await_by-stored w.awaits fs w h }

    pub write_job-ReturnsUncut : (fs : List Field) → ReturnsUncut {R = R} (write_job id fs)
    unfolding write_job
    write_job-ReturnsUncut fs =
        awaited-ReturnsUncut (set_job id fs) (unfold set_job in record { at = λ w e. (refl, e) })

    -- A write, and then statements that leave the table alone.
    pub then-WritesIfOk :
        (fs : List Field) (m n : Action (World R) (Unit {0}))
        → WritesIfOk id fs m
        → KeepsStore n
        → WritesIfOk id fs (m >> n)
    unfolding ◌>>◌
    then-WritesIfOk fs m n wm k = record { stored = λ w. go w (m w) (wm.stored w) }
      where
        go :
            (w : World R) (p : Result (Unit {0}) × World R)
            → (p.0 ≡ ok tt → p.1.store ≡ update_job id fs w.store)
            → (next_of (λ _. n) p).0 ≡ ok tt
            → (next_of {A = Unit {0}} (λ _. n) p).1.store ≡ update_job id fs w.store
        go w (ok u, v) h e = k.kept v ∙ h refl
        go w (err x, v) h e = absurd (cc)

    -- Statements that leave the table alone, and then a write.
    pub before-WritesIfOk :
        (fs : List Field) (m n : Action (World R) (Unit {0}))
        → KeepsStore m
        → WritesIfOk id fs n
        → WritesIfOk id fs (m >> n)
    unfolding ◌>>◌
    before-WritesIfOk fs m n k wn = record { stored = λ w. go w (m w) (k.kept w) }
      where
        go :
            (w : World R) (p : Result (Unit {0}) × World R)
            → p.1.store ≡ w.store
            → (next_of (λ _. n) p).0 ≡ ok tt
            → (next_of {A = Unit {0}} (λ _. n) p).1.store ≡ update_job id fs w.store
        go w (ok u, v) h e = subst (λ s. (n v).1.store ≡ update_job id fs s) h (wn.stored v e)
        go w (err x, v) h e = absurd (cc)

    -- A part without aborts writes.
    pub scheduled-Writes :
        (fs : List Field) (awaits : List Await) (m : Action (World R) (Unit {0}))
        → awaits ≡ []
        → ReturnsUncut m
        → WritesIfOk id fs m
        → Writes id fs (scheduled awaits m)
    unfolding scheduled
    scheduled-Writes fs awaits m e r wm = record {
      returns = λ w. (r.at (record w { awaits = awaits }) e).0;
      stored =
          λ w. wm.stored (record w { awaits = awaits }) (r.at (record w { awaits = awaits }) e).0;
    }
