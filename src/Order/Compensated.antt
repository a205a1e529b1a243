-- ===== src/Order/Compensated.antt =====
-- The compensations of `CreateOrder`: newest first, and past any that fails.
use ticket_event_pf.Prelude.{◌≡◌, refl, ap, ◌∙◌, List, [], ◌∷◌, ◌++◌}
use ticket_event_pf.Order.World.{
  Result, ok, err, World, Act, then_run, pure, ◌>>◌, best_effort, execute,
}
use ticket_event_pf.Order.Workflows.{compensate, compensation_retries}

module _ {S : Type 0} where
  then_assoc :
      (f g : Act S (Unit {0})) (r : Result (Unit {0}) × World S)
      → then_run (λ _. g) (then_run (λ _. f) r) ≡ then_run (λ _. f >> g) r
  then_assoc f g (ok u, w) = refl
  then_assoc f g (err e, w) = refl

  -- The compensation that was registered last runs first, under its own retries, and the others after it,
  -- whether or not it fails.
  pub compensate-newest_first :
      (cs : List (Act S (Unit {0}))) (c : Act S (Unit {0})) (w : World S)
      → compensate (cs ++ c ∷ []) w
        ≡ (best_effort (execute compensation_retries c) >> compensate cs) w
  unfolding compensate
  compensate-newest_first [] c w = by_end (best_effort (execute compensation_retries c) w)
    where
      by_end : (r : Result (Unit {0}) × World S) → r ≡ then_run (λ _. pure tt) r
      by_end (ok u, v) = refl
      by_end (err e, v) = refl
  compensate-newest_first (x ∷ cs) c w =
      let undo_x = best_effort (execute compensation_retries x) in
      let undo_c = best_effort (execute compensation_retries c) in
      ap (then_run (λ _. undo_x)) (compensate-newest_first cs c w)
      ∙ then_assoc (compensate cs) undo_x (undo_c w)
