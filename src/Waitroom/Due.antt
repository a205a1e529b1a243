-- ===== src/Waitroom/Due.antt =====
-- Who stands where in a queue, and who is due: `DrawQueueScore` of
-- services/waitroom-svc/internal/models/session.go and `PeekQueue` of internal/service/queue_service.go.
use ticket_event_pf.Prelude.{
  ℕ, zero, suc, ◌*◌, ◌≤◌, ◌<◌, ◌≡◌, refl, String, Bool, true, false, ◌&&◌, ◌||◌, some, inl, inr,
  List, [], ◌∷◌, if◌then◌else◌, ltb, ◌==◌, str_eq, rows_where, any, take, length, All, All-mono,
  All-take, Bool-cases, arith,
}
use ticket_event_pf.Prelude.Act.{Ends, gets, pure}
use ticket_event_pf.Waitroom.Model.{unix, second, draw_queue_score}
use ticket_event_pf.Waitroom.World.{World, Waiting}
use ticket_event_pf.Waitroom.Remote.{remote-Ends}
use ticket_event_pf.Waitroom.Redis.{line_of, members_of, zrange_below}
use ticket_event_pf.Waitroom.Redis.Laws.{str_eq_self}
use ticket_event_pf.Waitroom.QueueRepository.{get_queue_members}
use ticket_event_pf.Waitroom.QueueService.{peek_queue}

-- A joiner before the sale opens stands in the second before it: not behind anyone who joins when it
-- is open, and not due, by a clock in whole seconds, before the second in which the sale opens.
pub draw_queue_score-before_open :
    (lot lot' at late start : ℕ)
    → lot ≤ second
    → at < start
    → start ≤ late
    → 1 ≤ unix start
    → (draw_queue_score lot at (some start) ≤ draw_queue_score lot' late (some start))
      × ((now : ℕ)
          → draw_queue_score lot at (some start) < unix now * second
          → unix start ≤ unix now)
draw_queue_score-before_open lot lot' at late start l a s u =
    let early : ltb at start ≡ true = ground arith in
    let open' : ltb late start ≡ false = ground arith in
    rw (early, open') (omega arith, λ now h. omega arith)

-- The entry of `k` in the queue of `e` is due at `before`.
abbrev pub is_due : String → ℕ → List Waiting → String → Bool
is_due e before q k = any (λ r. str_eq r.event e && (ltb r.score before && str_eq r.member k)) q

length-take-le : {A : Type 0} (n : ℕ) (xs : List A) → length (take n xs) ≤ n
length-take-le zero xs = omega arith
length-take-le (suc n) [] = omega arith
length-take-le (suc n) (x ∷ xs) = omega (arith, length-take-le n xs)

length-members_of : (rs : List Waiting) → length (members_of rs) ≡ length rs
length-members_of [] = refl
length-members_of (r ∷ rs) = rw (length-members_of rs) refl

All-members_of :
    (P : String → Type 0) (rs : List Waiting) → All (λ r. P r.member) rs → All P (members_of rs)
All-members_of P [] h = tt
All-members_of P (r ∷ rs) h = (h.0, All-members_of P rs h.1)

or_true : (a : Bool) {b : Bool} → b ≡ true → (a || b) ≡ true
or_true true h = refl
or_true false h = h

due-here :
    (e : String) (before : ℕ) (q : List Waiting)
    → All
        (λ r. is_due e before q r.member ≡ true)
        (rows_where (λ r. ltb r.score before) (line_of e q))
due-here e before [] = tt
due-here e before (r ∷ q) = elim (Bool-cases (str_eq r.event e)) [
  | inr f ↦ rw f (due-here e before q)
  | inl t ↦ rw t (elim (Bool-cases (ltb r.score before)) [
    | inr f ↦ rw f (due-here e before q)
    | inl d ↦ rw d (
      rw (str_eq_self r.member) refl,
      All-mono (λ x. is_due e before q x.member ≡ true)
          (λ x. (str_eq r.member x.member || is_due e before q x.member) ≡ true)
          (λ x h. or_true (str_eq r.member x.member) h)
          (rows_where (λ x. ltb x.score before) (line_of e q)) (due-here e before q),
    )
  ])
]

-- What is peeked from a queue are entries of it, no more than asked for, and only those whose score
-- lies below the whole second at which they were asked for.
pub peek_queue-due :
    (e : String) (count : ℕ) (w : World)
    → Ends
        (λ ks _.
          (length ks ≤ count) × All (λ k. is_due e (unix w.now * second) w.queue k ≡ true) ks)
        (λ _ _. Unit)
        (peek_queue e count w)
unfolding peek_queue get_queue_members
peek_queue-due e count w =
    let before = unix w.now * second in
    let Seen : List String → World → Type 0 =
      λ ks _. (length ks ≤ count) × All (λ k. is_due e before w.queue k ≡ true) ks in
    elim (count == 0)
      as (λ b.
        Ends Seen (λ _ _. Unit {0}) (if b then pure [] w else get_queue_members e before count w)) [
          | true ↦ (omega arith, tt)
          | false ↦
              remote-Ends Seen (λ _ _. Unit {0}) (gets λ v. zrange_below e before count v.queue) w
                λ d ss. (
                  (
                    rw (length-members_of (take count (due_rows before)))
                        (length-take-le count (due_rows before)),
                    All-members_of _ (take count (due_rows before)) (
                        All-take (λ r. is_due e before w.queue r.member ≡ true) count
                          (due_rows before) (due-here e before w.queue)),
                  ),
                  tt,
                  tt,
                )
        ]
  where
    due_rows : ℕ → List Waiting
    due_rows before = rows_where (λ r. ltb r.score before) (line_of e w.queue)
