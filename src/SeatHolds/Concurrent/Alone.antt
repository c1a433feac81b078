-- ===== src/SeatHolds/Concurrent/Alone.antt =====
-- A process of which no other comes in between does what the functions of
-- service_layer/seat_holds.py do.
use ticket_genius.Prelude.{
  ℕ, zero, suc, ◌≡◌, refl, ap, sym, some, Bool, true, false, List, [], ◌∷◌, ◌++◌, if◌then◌else◌,
  append-nil, append_assoc,
}
use ticket_genius.Prelude.Text.{Text}
use ticket_genius.Domain.Values.{Uuid}
use ticket_genius.Redis.{Redis}
use ticket_genius.SeatHolds.{
  hold_key, seat_hold_ttl, holds, delete_holds, acquire_loop, release_loop, acquire_seat_holds,
  release_seat_holds,
}
use ticket_genius.SeatHolds.Concurrent.{
  Pc, acquiring, giving_back, acquired_all, refused, releasing, deleting, released, step,
}

module _ (R : Redis) (plan_id order_id : Uuid) where
  abbrev pub alone : ℕ → Pc × R.State → Pc × R.State
  alone zero now = now
  alone (suc n) (p, s) = alone n (step R plan_id order_id p s)

  -- Some number of steps leads from here to there.
  abbrev pub Leads : Pc → R.State → Pc → R.State → Type 0
  Leads p s p' s' = (n : ℕ) × (alone n (p, s) ≡ (p', s'))

  giving_back-Leads :
      (seats : List Text) (s : R.State)
      → Leads (giving_back seats) s refused (delete_holds R plan_id seats s)
  unfolding step delete_holds
  giving_back-Leads [] s = (1, refl)
  giving_back-Leads (seat ∷ seats) s =
      let (n, e) = giving_back-Leads seats (R.delete (hold_key plan_id seat) s) in (suc n, e)

  -- Where the loop over the seats ends.
  abbrev ended : List Text → Bool → Pc
  ended seats won = if won then acquired_all seats else refused

  acquiring-Leads :
      (acquired seats : List Text) (s : R.State)
      → let (won, s') = acquire_loop R plan_id order_id acquired seats s in
        Leads (acquiring acquired seats) s (ended (acquired ++ seats) won) s'
  unfolding step acquire_loop
  acquiring-Leads acquired [] s = (1, ap (λ l. (acquired_all l, s)) (sym (append-nil acquired)))
  acquiring-Leads acquired (seat ∷ seats) s =
      let tried = R.set_nx (hold_key plan_id seat) order_id seat_hold_ttl s in
      let (n, e) =
        choose tried (acquiring-Leads (acquired ++ seat ∷ []) seats tried.1)
          (giving_back-Leads acquired tried.1) in
      (suc n, e)
    where
      choose :
          (tried : Bool × R.State)
          → let rest = acquire_loop R plan_id order_id (acquired ++ seat ∷ []) seats tried.1 in
            Leads
              (acquiring (acquired ++ seat ∷ []) seats)
              tried.1
              (ended ((acquired ++ seat ∷ []) ++ seats) rest.0)
              rest.1
            → Leads (giving_back acquired) tried.1 refused (delete_holds R plan_id acquired tried.1)
            → let ends =
                if tried.0 then rest else (false, delete_holds R plan_id acquired tried.1) in
              Leads
                (if tried.0 then acquiring (acquired ++ seat ∷ []) seats else giving_back acquired)
                tried.1
                (ended (acquired ++ seat ∷ seats) ends.0)
                ends.1
      choose (true, s') (n, e) lost = (n, rw (sym (append_assoc acquired (seat ∷ []) seats)) e)
      choose (false, s') won lost = lost

  releasing-Leads :
      (seats : List Text) (s : R.State)
      → Leads (releasing seats) s released (release_loop R plan_id order_id seats s)
  unfolding step release_loop
  releasing-Leads [] s = (1, refl)
  releasing-Leads (seat ∷ seats) s =
      let key = hold_key plan_id seat in
      let (n, e) =
        choose (holds (R.get key s) order_id) (releasing-Leads seats s)
          (releasing-Leads seats (R.delete key s)) in
      (suc n, e)
    where
      choose :
          (mine : Bool)
          → Leads (releasing seats) s released (release_loop R plan_id order_id seats s)
          → let s' = R.delete (hold_key plan_id seat) s in
            Leads (releasing seats) s' released (release_loop R plan_id order_id seats s')
            → Leads (if mine then deleting seat seats else releasing seats) s released (
                release_loop R plan_id order_id seats
                  (if mine then R.delete (hold_key plan_id seat) s else s))
      choose true kept (n, e) = (suc n, e)
      choose false kept deleted = kept

  -- A process that takes its turns alone acquires seats and releases them as the functions do:
  -- some number of steps leads from before the first seat to behind the `return` with the result
  -- and the server of `acquire_seat_holds`, and from before the release to behind it with the
  -- server of `release_seat_holds`.
  pub alone-functions :
      (seats : List Text) (s : R.State)
      → let (won, after) = acquire_seat_holds R plan_id seats order_id (some s) in
        ((s' : R.State) × (after ≡ some s')
          × Leads (acquiring [] seats) s (if won then acquired_all seats else refused) s')
        × ((s' : R.State) × (release_seat_holds R plan_id seats order_id (some s) ≡ some s')
            × Leads (releasing seats) s released s')
  unfolding acquire_seat_holds release_seat_holds
  alone-functions seats s =
      let (won, s') = acquire_loop R plan_id order_id [] seats s in
      (
        (s', refl, acquiring-Leads [] seats s),
        (release_loop R plan_id order_id seats s, refl, releasing-Leads seats s),
      )
