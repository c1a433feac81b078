-- ===== src/Tests/Interleaved.antt =====
-- Two processes that acquire seats at once, on a server in memory.
use ticket_genius.Prelude.{
  ℕ, ◌≡◌, ◌≢◌, refl, false, none, some, List, [], ◌∷◌, arith, ◌==◌, if◌then◌else◌,
}
use ticket_genius.Prelude.Text.{Text, codes, text_eq, mentions}
use ticket_genius.Prelude.Dict.{lookup, insert}
use ticket_genius.Domain.Values.{Uuid}
use ticket_genius.Redis.Memory.{memory}
use ticket_genius.SeatHolds.{hold_key}
use ticket_genius.SeatHolds.Concurrent.{
  acquiring, deleting, owned, System, Event, turn, expire, happen, run,
}
use ticket_genius.SeatHolds.Concurrent.Exclusion.{interleaved_exclusion}
use ticket_genius.SeatHolds.Concurrent.Expiry.{expired_hold_lost}

abbrev plan : Uuid
plan = codes "p"

abbrev order : ℕ → Uuid
order i = i ∷ []

order-distinct : (i j : ℕ) → i ≢ j → order i ≢ order j
order-distinct i j differ same = ground arith

abbrev front : Text
front = codes "A-1-1"

abbrev back : Text
back = codes "A-1-2"

-- Nobody has sent a command; everybody wants both seats.
abbrev idle : System memory plan
idle = record { server = []; pc = λ i. acquiring [] (front ∷ back ∷ []) }

abbrev both : List (Event memory plan)
both = turn 1 ∷ turn 2 ∷ turn 1 ∷ []

interleaved_exclusion_example :
    let after = run memory plan order both idle in
    (lookup (hold_key plan back) after.server ≡ some (order 1))
    × (mentions back (owned (after.pc 2)) ≡ false)
unfolding happen lookup insert text_eq hold_key
interleaved_exclusion_example =
    interleaved_exclusion memory plan order order-distinct idle both
      (λ i. (front ∷ back ∷ [], refl)) refl 1 2 back (ground arith) refl

-- The first process is about to delete its hold of the seat in front, which the second one wants.
abbrev racing : System memory plan
racing = record {
  server = (hold_key plan front, order 1) ∷ [];
  pc = λ i. if i == 1 then deleting front [] else acquiring [] (front ∷ []);
}

expired_hold_lost_example :
    let after = run memory plan order (expire front ∷ turn 2 ∷ turn 1 ∷ []) racing in
    (after.pc 2 ≡ acquiring (front ∷ []) []) × (lookup (hold_key plan front) after.server ≡ none)
unfolding text_eq
expired_hold_lost_example =
    expired_hold_lost memory plan order racing 1 2 front [] [] (ground arith) refl refl
