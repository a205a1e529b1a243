-- ===== src/Waitroom/Strangers.antt =====
-- `ActiveSession` of services/waitroom-svc/internal/service/session_service.go, asked by a stranger.
use ticket_event_pf.Prelude.{
  ℕ, ◌≡◌, refl, sym, ap, ◌∙◌, String, false, Option, none, some, inl, inr, List, str_eq,
  Option-cases,
}
use ticket_event_pf.Prelude.Act.{Result, ◌>>=◌, catch}
use ticket_event_pf.Waitroom.Model.{Session, Error}
use ticket_event_pf.Waitroom.World.{
  World, Fault, fine, lost, unacked, Step, suffer, advance, next_step,
}
use ticket_event_pf.Waitroom.Redis.{get_key, del_key}
use ticket_event_pf.Waitroom.Redis.Laws.{get_key-without}
use ticket_event_pf.Waitroom.SessionRepository.{find_session, or_nil, get}
use ticket_event_pf.Waitroom.SessionService.{nil_is_gone, get_session, if_active, active_session}

-- The world without the session `k`.
abbrev pub without_session : String → World → World
without_session k w = record w { sessions = del_key k w.sessions }

-- The session `k`, while it lasts, is another's than `user`.
abbrev pub IsOthers : String → String → World → Type 0
IsOthers k user w =
    (t : ℕ) (s : Session) → get_key t k w.sessions ≡ some s → str_eq s.user_id user ≡ false

-- What a read of `k` under a fault tells `user`.
abbrev told : String → String → Fault → World → Result Error Session
told k user f v =
    ((catch (suffer f λ u. or_nil (find_session k u) u) nil_is_gone >>= if_active user) v).0

abbrev answer : String → Option Session → World → Result Error Session
answer user o v = ((catch (or_nil o) nil_is_gone >>= if_active user) v).0

gone : (k user : String) (v : World) → answer user none v ≡ told k user fine (without_session k v)
gone k user v =
    sym (ap (λ o. answer user o (without_session k v)) (get_key-without v.now k v.sessions))

told_absent :
    (k user : String) (v : World)
    → find_session k v ≡ none
    → (f : Fault) → told k user f v ≡ told k user f (without_session k v)
told_absent k user v h fine = ap (λ o. answer user o v) h ∙ gone k user v
told_absent k user v h lost = refl
told_absent k user v h unacked = refl

refused :
    (user : String) (s : Session) (v : World)
    → str_eq s.user_id user ≡ false
    → answer user (some s) v ≡ answer user none v
refused user s v o = rw (answer, o) refl

told_stranger :
    (k user : String) (v : World) (s : Session)
    → find_session k v ≡ some s
    → str_eq s.user_id user ≡ false
    → (f : Fault) → told k user f v ≡ told k user f (without_session k v)
told_stranger k user v s h o fine = ap (λ o. answer user o v) h ∙ refused user s v o ∙ gone k user v
told_stranger k user v s h o lost = refl
told_stranger k user v s h o unacked = refl

-- A stranger to a session is told what is told about a session that does not exist, whatever state the
-- session is in and whichever call fails.
pub active_session-stranger :
    (k user : String) (w : World)
    → IsOthers k user w
    → (active_session k user w).0 ≡ (active_session k user (without_session k w)).0
unfolding active_session get_session get
active_session-stranger k user w h = run (next_step w.steps).0 (next_step w.steps).1
  where
    run :
        (s : Step) (ss : List Step)
        → told k user s.fault (advance s.elapsed ss w)
          ≡ told k user s.fault (without_session k (advance s.elapsed ss w))
    run s ss =
        let v = advance s.elapsed ss w in
        elim (Option-cases (find_session k v)) [
          | inl n ↦ told_absent k user v n s.fault
          | inr x ↦ told_stranger k user v x.0 x.1 (h v.now x.0 x.1) s.fault
        ]
