-- ===== src/Session/Fence.antt =====
-- The first failure fences the session.
use h2hdb_ingest.Prelude.{
  ℕ, zero, suc, ◌≡◌, ◌+◌, some, List, [], ◌∷◌, ok, err, refl, arith, inl, inr, ◌⊎◌,
}
use h2hdb_ingest.Session.{
  Error, Controller, fail, renew, call, complete, raise_if_failed, beat, Step, call_step,
  complete_step, renew_step, beat_step, fail_step, check_step, admit_step, operate_step, admit,
  operate_when, operate, step, run, Use, operated,
}

-- `n` operations outside the session, after the other uses
abbrev pub operations : ℕ → List Use → List Use
operations zero us = us
operations (suc n) us = operations n (operated ∷ us)

-- nothing has changed but that operations admitted before have reached the facade
pub record IsFenced (s t : Controller) : Type 0 where
  pub operations_since : ℕ
  pub only_admitted : operations_since + t.admitted ≡ s.admitted
  pub rest_kept : t ≡ record s { admitted = t.admitted; uses = operations operations_since s.uses }

-- Once failed, a method raises the fence's error and changes nothing.
step-fenced :
    (x : Step) (e : Error) (s : Controller)
    → s.failure ≡ some e
    → (step x s ≡ s) ⊎ (step x s ≡ operate s)
unfolding step call complete renew beat fail raise_if_failed admit
step-fenced (call_step (ok u)) e s h = inl (rw h refl)
step-fenced (call_step (err r)) e s h = inl (rw h refl)
step-fenced (complete_step (ok u)) e s h = inl (rw h refl)
step-fenced (complete_step (err r)) e s h = inl (rw h refl)
step-fenced (renew_step fuel w) e s h = inl (rw h refl)
step-fenced (beat_step fuel w) e s h = inl (rw h refl)
step-fenced (fail_step x) e s h = inl (rw h refl)
step-fenced check_step e s h = inl (rw h refl)
step-fenced admit_step e s h = inl (rw h refl)
step-fenced operate_step e s h = inr refl

operate_when-cases :
    (s : Controller) (n : ℕ)
    → (operate_when s n ≡ s)
      ⊎ ((m : ℕ) × (n ≡ suc m)
          × (operate_when s n ≡ record s { admitted = m; uses = operated ∷ s.uses }))
operate_when-cases s zero = inl refl
operate_when-cases s (suc m) = inr (m, refl, refl)

operated-IsFenced :
    (s t : Controller) (m : ℕ)
    → s.admitted ≡ suc m
    → IsFenced (record s { admitted = m; uses = operated ∷ s.uses }) t
    → IsFenced s t
operated-IsFenced s t m e h = record {
  operations_since = suc h.operations_since;
  only_admitted = omega (arith, h.only_admitted);
  rest_kept = h.rest_kept;
}

-- Once the controller has a failure, whatever the threads and the heartbeat go on to do: the failure
-- and the receipt stay, no renewal is recorded, and no call reaches the facade but operations outside
-- the session that had passed their check before, each at most once.
pub run-IsFenced :
    (xs : List Step) (e : Error) (s : Controller) → s.failure ≡ some e → IsFenced s (run xs s)
unfolding run operate
run-IsFenced [] e s h = record {
  operations_since = 0;
  only_admitted = omega arith;
  rest_kept = refl;
}
run-IsFenced (x ∷ xs) e s h = elim (step-fenced x e s h) [
  | inl k ↦ rw k (run-IsFenced xs e s h)
  | inr k ↦ elim (operate_when-cases s s.admitted) [
    | inl o ↦ rw k (rw o (run-IsFenced xs e s h))
    | inr (m, a, o) ↦
        let s' = record s { admitted = m; uses = operated ∷ s.uses } in
        rw k (rw o (operated-IsFenced s (run xs s') m a (run-IsFenced xs e s' h)))
  ]
]
