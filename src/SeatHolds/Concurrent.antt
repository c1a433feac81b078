-- ===== src/SeatHolds/Concurrent.antt =====
-- The functions of service_layer/seat_holds.py as several processes run them at once: one command
-- of one process at a time, and keys that expire in between. All orders are for one plan.
pub mod Alone
pub mod Exclusion
pub mod Expiry
use ticket_genius.Prelude.{ℕ, Bool, true, false, List, [], ◌∷◌, ◌++◌, ◌==◌, if◌then◌else◌}
use ticket_genius.Prelude.Text.{Text}
use ticket_genius.Domain.Values.{Uuid}
use ticket_genius.Redis.{Redis}
use ticket_genius.SeatHolds.{hold_key, seat_hold_ttl, holds}

-- Where a process stands that acquires the holds of an order, and then releases them: in the loop
-- over the seats, in the loop that gives back, behind `return True` or `return False`, in the loop
-- of the release, between its `get` and its `delete`, or behind it.
pub data Pc : Type 0 where
  acquiring : List Text → List Text → Pc
  giving_back : List Text → Pc
  acquired_all : List Text → Pc
  refused : Pc
  releasing : List Text → Pc
  deleting : Text → List Text → Pc
  released : Pc

-- The seats whose holds a process has set and not yet deleted.
abbrev pub owned : Pc → List Text
owned (acquiring acquired todo) = acquired
owned (giving_back seats) = seats
owned (acquired_all seats) = seats
owned refused = []
owned (releasing seats) = seats
owned (deleting seat seats) = seat ∷ seats
owned released = []

module _ (R : Redis) (plan_id : Uuid) where
  -- The next command of the process of an order, or the next test between two commands.
  unfoldable pub step : Uuid → Pc → R.State → Pc × R.State
  step order_id (acquiring acquired []) s = (acquired_all acquired, s)
  step order_id (acquiring acquired (seat ∷ todo)) s =
      let (won, s') = R.set_nx (hold_key plan_id seat) order_id seat_hold_ttl s in
      (if won then acquiring (acquired ++ seat ∷ []) todo else giving_back acquired, s')
  step order_id (giving_back []) s = (refused, s)
  step order_id (giving_back (seat ∷ seats)) s =
      (giving_back seats, R.delete (hold_key plan_id seat) s)
  step order_id (acquired_all seats) s = (releasing seats, s)
  step order_id refused s = (refused, s)
  step order_id (releasing []) s = (released, s)
  step order_id (releasing (seat ∷ seats)) s = (
    if holds (R.get (hold_key plan_id seat) s) order_id
        then deleting seat seats
        else releasing seats,
    s,
  )
  step order_id (deleting seat seats) s = (releasing seats, R.delete (hold_key plan_id seat) s)
  step order_id released s = (released, s)

  pub record System : Type 0 where
    pub server : R.State
    pub pc : ℕ → Pc

  -- What happens next: a process takes its turn, or the hold of a seat expires.
  pub data Event : Type 0 where
    turn : ℕ → Event
    expire : Text → Event

  abbrev pub update : (ℕ → Pc) → ℕ → Pc → ℕ → Pc
  update f i p j = if i == j then p else f j

  module _ (order_id : ℕ → Uuid) where
    unfoldable pub happen : Event → System → System
    unfolding step
    happen (turn i) sys =
        let (p, s) = step (order_id i) (sys.pc i) sys.server in
        record { server = s; pc = update sys.pc i p }
    happen (expire seat) sys = record sys { server = R.delete (hold_key plan_id seat) sys.server }

    abbrev pub run : List Event → System → System
    run [] sys = sys
    run (e ∷ es) sys = run es (happen e sys)
