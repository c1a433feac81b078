-- ===== src/Tests/Holds.antt =====
-- Seat holds and the idempotency keys of payments, on a server in memory.
use ticket_genius.Prelude.{
  ℕ, ◌≡◌, ◌≢◌, refl, Bool, true, false, Option, none, some, List, [], ◌∷◌, arith,
}
use ticket_genius.Prelude.Text.{Text, codes, text_eq}
use ticket_genius.Prelude.Dict.{Dict, lookup, insert}
use ticket_genius.Domain.Values.{Uuid}
use ticket_genius.Redis.Memory.{memory}
use ticket_genius.SeatHolds.{
  hold_key, confirm_key, acquire_seat_holds, release_seat_holds, acquire_loop, release_loop,
  check_payment_idempotency,
}
use ticket_genius.SeatHolds.Acquire.{Outcome, all_free, acquire_all_or_nothing, acquire_iff_free}
use ticket_genius.SeatHolds.Release.{release_acquired, release_keeps_others}

abbrev plan : Uuid
plan = codes "p"

abbrev ann : Uuid
ann = codes "a"

abbrev bob : Uuid
bob = codes "b"

abbrev front : Text
front = codes "A-1-1"

abbrev back : Text
back = codes "A-1-2"

-- Ann holds the seat in front.
abbrev held : Dict Text
held = (hold_key plan front, ann) ∷ []

acquire_taken :
    acquire_seat_holds memory plan (back ∷ front ∷ []) bob (some held) ≡ (false, some held)
unfolding acquire_seat_holds acquire_loop hold_key text_eq lookup insert
    ticket_genius.SeatHolds.delete_holds ticket_genius.Prelude.Dict.erase
acquire_taken = refl

acquire_all_or_nothing_example :
    let (won, after) = acquire_seat_holds memory plan (back ∷ front ∷ []) bob (some held) in
    (s : Dict Text) × (after ≡ some s) × Outcome memory plan bob held (back ∷ front ∷ []) (won, s)
acquire_all_or_nothing_example = acquire_all_or_nothing memory plan bob held (back ∷ front ∷ [])

acquire_iff_free_example :
    (acquire_seat_holds memory plan (back ∷ front ∷ []) bob (some held)).0
    ≡ all_free memory plan held [] (back ∷ front ∷ [])
acquire_iff_free_example = acquire_iff_free memory plan bob (back ∷ front ∷ []) held

release_acquired_example :
    (u : Dict Text) × (release_seat_holds memory plan (front ∷ []) ann (some held) ≡ some u)
    × ((k : Text) → lookup k u ≡ lookup k [])
unfolding acquire_seat_holds acquire_loop hold_key text_eq lookup insert
release_acquired_example = release_acquired memory plan ann (front ∷ []) [] held refl

release_keeps_others_example :
    (t : Dict Text) × (release_seat_holds memory plan (front ∷ back ∷ []) bob (some held) ≡ some t)
    × (lookup (hold_key plan front) t ≡ some ann)
unfolding hold_key text_eq lookup
release_keeps_others_example =
    release_keeps_others memory plan bob ann (front ∷ back ∷ []) held (hold_key plan front)
      (ground arith) refl
