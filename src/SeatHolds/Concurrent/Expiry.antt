-- ===== src/SeatHolds/Concurrent/Expiry.antt =====
-- What the functions of service_layer/seat_holds.py do when a hold expires between two commands:
-- neither looks again whose hold it deletes.
use ticket_genius.Prelude.{
  ℕ, ◌≡◌, ◌≢◌, Bool, true, false, none, List, [], ◌∷◌, ◌++◌, ◌==◌, refl, arith,
}
use ticket_genius.Prelude.Text.{Text, text_eq, text_eq_iff, text_eq_refl}
use ticket_genius.Domain.Values.{Uuid}
use ticket_genius.Redis.{Redis}
use ticket_genius.SeatHolds.{hold_key, seat_hold_ttl}
use ticket_genius.SeatHolds.Concurrent.{
  Pc, acquiring, giving_back, deleting, step, System, turn, expire, happen, run,
}

module _ (R : Redis) (plan_id : Uuid) (order_id : ℕ → Uuid) where
  -- Whether the next command of a process deletes the hold of a seat.
  abbrev pub deletes : Text → Pc → Bool
  deletes t (giving_back (seat ∷ seats)) = text_eq seat t
  deletes t (deleting seat seats) = text_eq seat t
  deletes t p = false

  -- The step of a process that is about to delete the hold of a seat deletes it, whoever has it.
  deletes_any :
      (order : Uuid) (t : Text) (p : Pc) (s : R.State)
      → deletes t p ≡ true
      → R.get (hold_key plan_id t) (step R plan_id order p s).1 ≡ none
  unfolding step
  deletes_any order t (giving_back (seat ∷ seats)) s h = ground (
    arith,
    R.get-delete (hold_key plan_id seat) s (hold_key plan_id t),
    text_eq_iff seat t,
    text_eq_refl (hold_key plan_id t),
  )
  deletes_any order t (deleting seat seats) s h = ground (
    arith,
    R.get-delete (hold_key plan_id seat) s (hold_key plan_id t),
    text_eq_iff seat t,
    text_eq_refl (hold_key plan_id t),
  )
  deletes_any order t p s h = absurd (ground arith)

  -- A free hold is acquired in one step.
  acquires_free :
      (order : Uuid) (acquired todo : List Text) (t : Text) (s : R.State)
      → R.get (hold_key plan_id t) s ≡ none
      → (step R plan_id order (acquiring acquired (t ∷ todo)) s).0
        ≡ acquiring (acquired ++ t ∷ []) todo
  unfolding step
  acquires_free order acquired todo t s free =
      rw (R.set_nx_free (hold_key plan_id t) order seat_hold_ttl s free) refl

  -- The hold of a seat expires when one process is about to delete it, and before that process
  -- takes its turn another one acquires the seat: then the other process owns the seat and goes on,
  -- but its hold of the seat is gone.
  pub expired_hold_lost :
      (sys : System R plan_id) (i j : ℕ) (seat : Text) (acquired todo : List Text)
      → i ≢ j
      → deletes seat (sys.pc i) ≡ true
      → sys.pc j ≡ acquiring acquired (seat ∷ todo)
      → let after = run R plan_id order_id (expire seat ∷ turn j ∷ turn i ∷ []) sys in
        (after.pc j ≡ acquiring (acquired ++ seat ∷ []) todo)
        × (R.get (hold_key plan_id seat) after.server ≡ none)
  unfolding happen
  expired_hold_lost sys i j seat acquired todo differ about trying =
      let key = hold_key plan_id seat in
      let apart : (i == j) ≡ false = ground arith in
      let apart' : (j == i) ≡ false = ground arith in
      let same : (j == j) ≡ true = ground arith in
      let server = R.delete key sys.server in
      let gone : R.get key server ≡ none =
        rw (R.get-delete key sys.server key, text_eq_refl key) refl in
      (
        rw (apart, same, trying) (acquires_free (order_id j) acquired todo seat server gone),
        rw (apart') (
            deletes_any (order_id i) seat (sys.pc i)
              (step R plan_id (order_id j) (sys.pc j) server).1 about),
      )
