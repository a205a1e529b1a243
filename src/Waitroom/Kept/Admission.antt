-- ===== src/Waitroom/Kept/Admission.antt =====
-- What one attempt to let a session in does to its line.
use ticket_event_pf.Prelude.{
  ℕ, ◌-◌, ◌≡◌, refl, String, Bool, true, false, ◌&&◌, Option, none, some, inl, inr, List, [], ◌∷◌,
  ltb, leb, str_eq, Bool-cases,
}
use ticket_event_pf.Prelude.Int.{ℤ, sub_ℕ}
use ticket_event_pf.Prelude.Act.{Ends, >>=-Ends, Ends-mono, pure, modify}
use ticket_event_pf.Waitroom.Model.{Session, Error, QueueReadyEvent, queue_ready}
use ticket_event_pf.Waitroom.World.{World, Env, Checkout, remote}
use ticket_event_pf.Waitroom.Redis.{score_of, holds, in_set}
use ticket_event_pf.Waitroom.Redis.Laws.{str_eq_self, has_slot, has_slot-add, and_true}
use ticket_event_pf.Waitroom.QueueRepository.{
  checkout_of, take_slot, add_to_processing, ends_after, buffer_queue_ready, push_pending,
  trim_pending, max_buffered_queue_ready,
}
use ticket_event_pf.Waitroom.Processor.{
  with_processor, one_more_error, increment_error_count, put_message, publish_queue_ready,
  buffer_payload, buffer_ready_event, ready_event, announce, claim_slot, is_final,
}
use ticket_event_pf.Waitroom.Kept.{
  Moved, Moved-trans, remote-Moved, same-Moved, Moves, Moves-pure, Moves-remote, Moves-settle,
  Moves-bind, Moves-if,
}

pub score_of-has_slot :
    (now : ℕ) (e k : String) (rows : List Checkout)
    → ends_after now (score_of now e k rows) ≡ true
    → has_slot e k rows ≡ true
score_of-has_slot now e k [] h = let impossible : false ≡ true = h in absurd cc
score_of-has_slot now e k (r ∷ rows) h = elim (Bool-cases (in_set now e r && str_eq r.member k)) [
  | inl t ↦
      let both = and_true (in_set now e r) (str_eq r.member k) t in
      rw ((and_true (str_eq r.event e) (leb now r.key_expires_at) both.0).0) (rw both.1 refl)
  | inr f ↦ elim (Bool-cases (holds e k r)) [
    | inl t ↦ rw t refl
    | inr g ↦ rw g (score_of-has_slot now e k rows (rw f at h))
  ]
]

module _ (e : String) (x : String → Bool) where
  take_slot-Moved :
      (k : String) (at : ℕ) (ttl : ℤ) (w : World)
      → Moved e x w (take_slot e k at ttl w)
        × (has_slot e k (take_slot e k at ttl w).checkouts ≡ true)
  take_slot-Moved k at ttl w = (
    (
      λ h. h,
      refl,
      λ j h. has_slot-add e j w.now (checkout_of e k at ttl w.now) w.checkouts h,
      λ j _ h. h,
    ),
    rw (str_eq_self e) (rw (str_eq_self k) refl),
  )

  remote-modify-Moves :
      (f : World → World) → ((v : World) → Moved e x v (f v)) → Moves e x (remote (modify f))
  remote-modify-Moves f h = Moves-remote e x (modify f) (λ w. (h w, h w))

  pub buffer_queue_ready-Moves : (p : String) → Moves e x (buffer_queue_ready p)
  unfolding buffer_queue_ready
  buffer_queue_ready-Moves p =
      Moves-bind e x _ _
        (Moves-remote e x _
          λ w. let same = same-Moved e x w (push_pending p w) refl refl refl refl in (same, same))
        λ n.
          Moves-if e x (ltb max_buffered_queue_ready n) _ _
            (Moves-settle e x _ _ _
              (remote-modify-Moves (trim_pending (n - max_buffered_queue_ready)) λ v.
                same-Moved e x v (trim_pending (n - max_buffered_queue_ready) v) refl refl refl
                  refl)
              (Moves-pure e x) (λ _. Moves-pure e x tt))
            (Moves-pure e x tt)

  pub increment_error_count-Moves : Moves e x increment_error_count
  unfolding increment_error_count
  increment_error_count-Moves w =
      same-Moved e x w (with_processor one_more_error w) refl refl refl refl

  pub publish_queue_ready-Moves : (evt : QueueReadyEvent) → Moves e x (publish_queue_ready evt)
  unfolding publish_queue_ready
  publish_queue_ready-Moves evt w =
      let sent = put_message (queue_ready (record evt { timestamp = w.now })) in
      remote-modify-Moves sent (λ v. same-Moved e x v (sent v) refl refl refl refl) w

  buffer_payload-Moves : (p : Option String) → Moves e x (buffer_payload p)
  buffer_payload-Moves none = increment_error_count-Moves
  buffer_payload-Moves (some p) =
      Moves-settle e x (buffer_queue_ready p) _ _ (buffer_queue_ready-Moves p) (Moves-pure e x)
        (λ _. increment_error_count-Moves)

  announce-Moves :
      (env : Env) (e' : String) (s : Session) (token : String) (exp_at : ℕ)
      → Moves e x (announce env e' s token exp_at)
  unfolding buffer_ready_event
  announce-Moves env e' s token exp_at w =
      let evt = ready_event e' s token exp_at w.now in
      Moves-settle e x (publish_queue_ready evt) pure (λ _. buffer_ready_event env evt)
        (publish_queue_ready-Moves evt) (Moves-pure e x)
        (λ _. buffer_payload-Moves (env.marshal evt)) w

  -- A slot that was taken is kept, whatever becomes of the announcement.
  abbrev pub Claimed : String → World → World → Type 0
  Claimed k w v = Moved e x w v × (has_slot e k v.checkouts ≡ true)

  abbrev pub Unclaimed : String → World → Error → World → Type 0
  Unclaimed k w er v = Moved e x w v × (is_final er ≡ true → has_slot e k v.checkouts ≡ true)

  pub claim_slot-Moved :
      (env : Env) (s : Session) (token : String) (exp_at : ℕ) (w : World)
      → Ends (λ _ v. Claimed s.id w v) (Unclaimed s.id w) (claim_slot env e s token exp_at w)
  unfolding claim_slot add_to_processing
  claim_slot-Moved env s token exp_at w =
      >>=-Ends _ _ (λ _ v. Claimed s.id w v)
        (λ u. remote (modify (take_slot e s.id w.now (sub_ℕ exp_at w.now))) u)
        (λ _. announce env e s token exp_at) w
        (remote-Moved e x _ _ (modify (take_slot e s.id w.now (sub_ℕ exp_at w.now))) w λ v m.
          let taken = take_slot-Moved s.id w.now (sub_ℕ exp_at w.now) v in
          let after =
            Moved-trans e x w v (take_slot e s.id w.now (sub_ℕ exp_at w.now) v) m taken.0 in
          ((after, taken.1), (m, λ h. absurd (not_final h)), (after, λ _. taken.1)))
        λ _ v h.
          Ends-mono _ _ (λ _ u. Moved e x v u) (λ _ u. Moved e x v u) _
            (λ _ u m. (Moved-trans e x w v u h.0 m, m.2 s.id h.1))
            (λ _ u m. (Moved-trans e x w v u h.0 m, λ _. m.2 s.id h.1))
            (announce-Moves env e s token exp_at v)
    where
      not_final : false ≡ true → ⊥
      not_final h = cc
