-- ===== src/Waitroom/StockGate.antt =====
-- services/waitroom-svc/internal/service/stock_gate.go. Calls that `singleflight` collapses are one
-- call. `stock_asked` records the events asked for, the last first.
use ticket_event_pf.Prelude.{
  ℕ, ◌+◌, String, Bool, false, not, ◌&&◌, Option, none, some, List, [], ◌∷◌, if◌then◌else◌, leb,
  str_eq, rows_where,
}
use ticket_event_pf.Prelude.Int.{ℤ, ltb_ℤ}
use ticket_event_pf.Prelude.Int
use ticket_event_pf.Prelude.Act.{ok, pure, ◌>>=◌, settle, gets}
use ticket_event_pf.Waitroom.World.{
  World, Env, Act, remote, Door, open_door, paused_door, sold_out_door, Stock, StockGateEntry,
  EventStock,
}

-- `doorFor`, with `a <= 0` and `a >= b` as the negations of `0 < a` and `a < b`.
unfoldable pub door_for : ℤ → ℤ → ℤ → Door
door_for total sold available =
    if not (ltb_ℤ (Int.pos 0) total)
    then open_door
    else if not (ltb_ℤ sold total)
    then sold_out_door
    else if not (ltb_ℤ (Int.pos 0) available)
    then paused_door
    else open_door

abbrev pub valid_stock : ℕ → String → StockGateEntry → Bool
valid_stock now e r = str_eq r.event e && leb now r.expires_at

abbrev pub lookup_stock : ℕ → String → List StockGateEntry → Option Stock
lookup_stock now e [] = none
lookup_stock now e (r ∷ rs) = if valid_stock now e r then some r.stock else lookup_stock now e rs

abbrev pub store_stock : Env → String → Stock → World → World
store_stock env e s w = record w {
  stock_gate =
      record { event = e; stock = s; expires_at = w.now + env.stock_cache_ttl }
      ∷ rows_where (λ r. not (str_eq r.event e)) w.stock_gate;
}

-- An unanswered question leaves the door open.
abbrev pub unanswered : Stock
unanswered = record { door = open_door; available = Int.pos 0; counted = false }

unfoldable pub stock_of : EventStock → Stock
unfolding door_for
stock_of c = record {
  door = door_for c.total c.sold c.available;
  available = c.available;
  counted = ltb_ℤ (Int.pos 0) c.total;
}

abbrev pub read_stock : Option EventStock → Stock
read_stock none = unanswered
read_stock (some c) = stock_of c

abbrev pub log_question : String → World → World
log_question e w = record w { stock_asked = e ∷ w.stock_asked }

unfoldable pub fetch_stock : Env → String → Act Stock
unfolding stock_of
fetch_stock env e w =
    settle (remote (gets λ v. read_stock (env.get_event_stock v.now e))) pure (λ _. pure unanswered)
      (log_question e w)

abbrev pub or_fetch : Env → String → Option Stock → Act Stock
or_fetch env e (some s) w = (ok s, w)
or_fetch env e none w = (fetch_stock env e >>= λ s v. (ok s, store_stock env e s v)) w

unfoldable pub stock : Env → String → Act Stock
unfolding fetch_stock
stock env e w = or_fetch env e (lookup_stock w.now e w.stock_gate) w

unfoldable pub door : Env → String → Act Door
unfolding stock
door env e = stock env e >>= λ s. pure s.door
