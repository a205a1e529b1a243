-- ===== src/Waitroom/Remote.antt =====
-- How a remote call of waitroom-svc ends under any step of the schedule.
use ticket_event_pf.Prelude.{ℕ, List}
use ticket_event_pf.Prelude.Act.{Ends}
use ticket_event_pf.Waitroom.Model.{Error, unavailable}
use ticket_event_pf.Waitroom.World.{
  World, Act, Fault, fine, lost, unacked, Step, next_step, suffer, advance, remote,
}

pub remote-Ends :
    {A : Type 0} (P : A → World → Type 0) (F : Error → World → Type 0) (m : Act A) (w : World)
    → ((d : ℕ) (ss : List Step)
        → Ends P F (m (advance d ss w))
          × F unavailable (advance d ss w)
          × F unavailable (m (advance d ss w)).1)
    → Ends P F (remote m w)
remote-Ends P F m w h = run (next_step w.steps).0 (next_step w.steps).1
  where
    by_fault :
        (f : Fault) (v : World)
        → Ends P F (m v) × F unavailable v × F unavailable (m v).1
        → Ends P F (suffer f m v)
    by_fault fine v h = h.0
    by_fault lost v h = h.1
    by_fault unacked v h = h.2

    run : (s : Step) (ss : List Step) → Ends P F (suffer s.fault m (advance s.elapsed ss w))
    run s ss = by_fault s.fault (advance s.elapsed ss w) (h s.elapsed ss)
