-- ===== src/Waitroom/QueueRepository.antt =====
-- services/waitroom-svc/internal/repository/redis/queue_repository.go: the sorted set of each event's
-- queue and of its checkouts, the buffer of announcements, and the set of active events.
use ticket_event_pf.Prelude.{
  ℕ, suc, ◌+◌, ◌-◌, String, Bool, false, Option, none, some, List, [], ◌∷◌, ◌++◌, if◌then◌else◌,
  ltb, ◌==◌, length, take,
}
use ticket_event_pf.Prelude.Int.{ℤ, pos, negsuc}
use ticket_event_pf.Prelude.Act.{ok, pure, ◌>>=◌, best_effort, gets, modify}
use ticket_event_pf.Waitroom.Model.{Session, get_queue_score, unix_milli}
use ticket_event_pf.Waitroom.World.{World, Env, Act, remote, Waiting, Checkout}
use ticket_event_pf.Waitroom.Redis.{
  zadd, zrem, zcard, zrank, zrange_below, add_checkout, rem_checkout, reap, card_checkouts,
  score_of, sadd, srem, str_mem, drop,
}

abbrev pub waiting_of : String → Session → Waiting
waiting_of e s = record { event = e; member = s.id; score = get_queue_score s }

unfoldable pub add_to_queue : Env → String → Session → Act (Unit {0})
add_to_queue env e s =
    remote (modify λ w. record w { queue = zadd env.ties (waiting_of e s) w.queue })

abbrev pub leave_line : String → List String → World → World
leave_line e ks w = record w { queue = zrem e ks w.queue }

unfoldable pub remove_from_queue : String → List String → Act (Unit {0})
remove_from_queue e [] = pure tt
remove_from_queue e (k ∷ ks) = remote (modify (leave_line e (k ∷ ks)))

unfoldable pub get_queue_length : String → Act ℕ
get_queue_length e = remote (gets λ w. zcard e w.queue)

-- From 1, and -1 for a session that is not in the queue.
abbrev pub position_of_rank : Option ℕ → ℤ
position_of_rank none = negsuc 0
position_of_rank (some n) = pos (n + 1)

unfoldable pub get_queue_position : String → String → Act ℤ
get_queue_position e k = remote (gets λ w. position_of_rank (zrank e k w.queue))

unfoldable pub get_queue_position_and_length : String → String → Act (ℤ × ℕ)
get_queue_position_and_length e k =
    remote (gets λ w. (position_of_rank (zrank e k w.queue), zcard e w.queue))

unfoldable pub get_queue_members : String → ℕ → ℕ → Act (List String)
get_queue_members e before count = remote (gets λ w. zrange_below e before count w.queue)

-- One hour.
abbrev pub processing_key_grace : ℕ
processing_key_grace = 3600000000000

-- An instant and a signed duration after it.
abbrev pub plus_duration : ℕ → ℤ → ℕ
plus_duration t (pos d) = t + d
plus_duration t (negsuc d) = t - suc d

abbrev pub checkout_of : String → String → ℕ → ℤ → ℕ → Checkout
checkout_of e k asked_at ttl now = record {
  event = e;
  member = k;
  score = unix_milli (plus_duration asked_at ttl);
  key_expires_at = plus_duration (now + processing_key_grace) ttl;
}

abbrev pub take_slot : String → String → ℕ → ℤ → World → World
take_slot e k asked_at ttl w = record w {
  checkouts = add_checkout w.now (checkout_of e k asked_at ttl w.now) w.checkouts;
}

unfoldable pub add_to_processing : String → String → ℤ → Act (Unit {0})
add_to_processing e k ttl v = remote (modify (take_slot e k v.now ttl)) v

unfoldable pub remove_from_processing : String → String → Act (Unit {0})
remove_from_processing e k =
    remote (modify λ w. record w { checkouts = rem_checkout e k w.checkouts })

-- The script: drop the slots that have ended, then count.
abbrev pub reap_slots : String → ℕ → World → World
reap_slots e now_ms w = record w { checkouts = reap e now_ms w.checkouts }

abbrev pub count_slots : String → ℕ → Act ℕ
count_slots e now_ms w =
    let w' = reap_slots e now_ms w in (ok (card_checkouts w'.now e w'.checkouts), w')

unfoldable pub get_processing_count : String → Act ℕ
get_processing_count e v = remote (count_slots e (unix_milli v.now)) v

abbrev pub ends_after : ℕ → Option ℕ → Bool
ends_after now none = false
ends_after now (some score) = ltb (unix_milli now) score

unfoldable pub is_processing : String → String → Act Bool
is_processing e k = remote (gets λ w. ends_after w.now (score_of w.now e k w.checkouts))

abbrev pub max_buffered_queue_ready : ℕ
max_buffered_queue_ready = 10000

abbrev pub push_pending : String → World → World
push_pending p w = record w { pending = w.pending ++ p ∷ [] }

abbrev pub trim_pending : ℕ → World → World
trim_pending n w = record w { pending = drop n w.pending }

unfoldable pub buffer_queue_ready : String → Act (Unit {0})
buffer_queue_ready p =
    remote (λ w. let w' = push_pending p w in (ok (length w'.pending), w')) >>= λ n.
    if ltb max_buffered_queue_ready n
    then best_effort (remote (modify (trim_pending (n - max_buffered_queue_ready))))
    else pure tt

unfoldable pub peek_buffered_queue_ready : ℕ → Act (List String)
peek_buffered_queue_ready count =
    if count == 0 then pure [] else remote (gets λ w. take count w.pending)

unfoldable pub trim_buffered_queue_ready : ℕ → Act (Unit {0})
trim_buffered_queue_ready count =
    if count == 0 then pure tt else remote (modify (trim_pending count))

unfoldable pub add_active_event : String → Act (Unit {0})
add_active_event e = remote (modify λ w. record w { active_events = sadd e w.active_events })

unfoldable pub remove_active_event : String → Act (Unit {0})
remove_active_event e = remote (modify λ w. record w { active_events = srem e w.active_events })

unfoldable pub get_active_events : Act (List String)
get_active_events = remote (gets λ w. w.active_events)

unfoldable pub is_active_event : String → Act Bool
is_active_event e = remote (gets λ w. str_mem e w.active_events)
