-- ===== src/SeatHolds/Concurrent/Exclusion.antt =====
-- However the processes are interleaved, no two own a seat, as long as no hold expires.
use ticket_genius.Prelude.{
  ℕ, ◌≡◌, ◌≢◌, refl, Bool, true, false, not, ◌&&◌, some, sym, List, [], ◌∷◌, ◌++◌, ◌==◌, arith,
  if◌then◌else◌,
}
use ticket_genius.Prelude.Text.{Text, text_eq, text_eq_iff, text_eq_refl, mentions, mentions-append}
use ticket_genius.Domain.Values.{Uuid}
use ticket_genius.Redis.{Redis}
use ticket_genius.SeatHolds.{hold_key, seat_hold_ttl}
use ticket_genius.SeatHolds.Keys.{hold_key_injective}
use ticket_genius.SeatHolds.Concurrent.{
  Pc, acquiring, giving_back, acquired_all, refused, releasing, deleting, released, owned, step,
  System, Event, turn, expire, happen, run,
}

abbrev pub nodup : List Text → Bool
nodup [] = true
nodup (t ∷ ts) = not (mentions t ts) && nodup ts

nodup-concat :
    (ts : List Text) (t : Text)
    → nodup ts ≡ true
    → mentions t ts ≡ false
    → nodup (ts ++ t ∷ []) ≡ true
nodup-concat [] t h fresh = ground arith
nodup-concat (u ∷ ts) t h fresh =
    ground
      (arith, nodup-concat ts t, mentions-append u ts (t ∷ []), text_eq_iff u t, text_eq_iff t u)

module _ (R : Redis) (plan_id : Uuid) where
  -- The holds of some seats are set, to an order, and no seat is among them twice.
  pub record IsOwner (order : Uuid) (seats : List Text) (s : R.State) : Type 0 where
    pub distinct_seats : nodup seats ≡ true
    pub held : (t : Text) → mentions t seats ≡ true → R.get (hold_key plan_id t) s ≡ some order

  key-eq : (t u : Text) → text_eq (hold_key plan_id t) (hold_key plan_id u) ≡ text_eq t u
  key-eq t u = ground (
    arith,
    text_eq_iff t u,
    text_eq_iff (hold_key plan_id t) (hold_key plan_id u),
    hold_key_injective plan_id t u,
  )

  -- Of the seats of an owner, the rest are owned when the hold of the first is deleted.
  IsOwner-delete :
      (order : Uuid) (seat : Text) (seats : List Text) (s : R.State)
      → IsOwner order (seat ∷ seats) s
      → IsOwner order seats (R.delete (hold_key plan_id seat) s)
  IsOwner-delete order seat seats s own = record {
    distinct_seats = ground (arith, own.distinct_seats);
    held = λ t m. ground (
      arith,
      own.distinct_seats,
      own.held t,
      R.get-delete (hold_key plan_id seat) s (hold_key plan_id t),
      key-eq seat t,
      text_eq_iff seat t,
    );
  }

  -- A free hold that is set is one more, and a set hold changes nothing.
  IsOwner-set :
      (order : Uuid) (seat : Text) (acquired : List Text) (s : R.State)
      → IsOwner order acquired s
      → let (won, s') = R.set_nx (hold_key plan_id seat) order seat_hold_ttl s in
        IsOwner order (if won then acquired ++ seat ∷ [] else acquired) s'
  IsOwner-set order seat acquired s own =
      let key = hold_key plan_id seat in
      record {
        distinct_seats = ground (
          arith,
          own.distinct_seats,
          own.held seat,
          R.set_nx_held key order order seat_hold_ttl s,
          nodup-concat acquired seat,
        );
        held = λ t m. ground (
          arith,
          own.held t,
          R.get-set_nx key order seat_hold_ttl s (hold_key plan_id t),
          R.set_nx_held key order order seat_hold_ttl s,
          mentions-append t acquired (seat ∷ []),
          key-eq seat t,
          text_eq_iff seat t,
        );
      }

  -- A step keeps the process an owner.
  step-IsOwner :
      (order : Uuid) (p : Pc) (s : R.State)
      → IsOwner order (owned p) s
      → let (p', s') = step R plan_id order p s in IsOwner order (owned p') s'
  unfolding step
  step-IsOwner order (acquiring acquired []) s own = own
  step-IsOwner order (acquiring acquired (seat ∷ todo)) s own =
      choose (R.set_nx (hold_key plan_id seat) order seat_hold_ttl s).0
        (IsOwner-set order seat acquired s own)
    where
      choose :
          (won : Bool)
          → IsOwner order
              (if won then acquired ++ seat ∷ [] else acquired)
              (R.set_nx (hold_key plan_id seat) order seat_hold_ttl s).1
          → IsOwner order
              (owned (if won then acquiring (acquired ++ seat ∷ []) todo else giving_back acquired))
              (R.set_nx (hold_key plan_id seat) order seat_hold_ttl s).1
      choose true h = h
      choose false h = h
  step-IsOwner order (giving_back []) s own = own
  step-IsOwner order (giving_back (seat ∷ seats)) s own = IsOwner-delete order seat seats s own
  step-IsOwner order (acquired_all seats) s own = own
  step-IsOwner order refused s own = own
  step-IsOwner order (releasing []) s own = own
  step-IsOwner order (releasing (seat ∷ seats)) s own =
      rw (own.held seat (ground (arith, text_eq_refl seat)), text_eq_refl order) own
  step-IsOwner order (deleting seat seats) s own = IsOwner-delete order seat seats s own
  step-IsOwner order released s own = own

  others_deleted :
      (order other : Uuid) (seat : Text) (s : R.State) (k : Text)
      → R.get (hold_key plan_id seat) s ≡ some order
      → other ≢ order
      → R.get k s ≡ some other
      → R.get k (R.delete (hold_key plan_id seat) s) ≡ some other
  others_deleted order other seat s k mine differs theirs =
      ground
        (arith, R.get-delete (hold_key plan_id seat) s k, text_eq_iff (hold_key plan_id seat) k)

  -- A step of one order's process leaves another order's holds alone.
  step-keeps_others :
      (order other : Uuid) (p : Pc) (s : R.State) (k : Text)
      → IsOwner order (owned p) s
      → other ≢ order
      → R.get k s ≡ some other
      → R.get k (step R plan_id order p s).1 ≡ some other
  unfolding step
  step-keeps_others order other (acquiring acquired []) s k own differs theirs = theirs
  step-keeps_others order other (acquiring acquired (seat ∷ todo)) s k own differs theirs =
      let key = hold_key plan_id seat in
      ground (
        arith,
        R.get-set_nx key order seat_hold_ttl s k,
        R.set_nx_held key order other seat_hold_ttl s,
        text_eq_iff key k,
      )
  step-keeps_others order other (giving_back []) s k own differs theirs = theirs
  step-keeps_others order other (giving_back (seat ∷ seats)) s k own differs theirs =
      others_deleted order other seat s k (own.held seat (ground (arith, text_eq_refl seat)))
        differs theirs
  step-keeps_others order other (acquired_all seats) s k own differs theirs = theirs
  step-keeps_others order other refused s k own differs theirs = theirs
  step-keeps_others order other (releasing []) s k own differs theirs = theirs
  step-keeps_others order other (releasing (seat ∷ seats)) s k own differs theirs = theirs
  step-keeps_others order other (deleting seat seats) s k own differs theirs =
      others_deleted order other seat s k (own.held seat (ground (arith, text_eq_refl seat)))
        differs theirs
  step-keeps_others order other released s k own differs theirs = theirs

  module _ (order_id : ℕ → Uuid) where
    -- Every process owns the seats that its state names.
    abbrev pub Inv : System R plan_id → Type 0
    Inv sys = (i : ℕ) → IsOwner (order_id i) (owned (sys.pc i)) sys.server

    -- Whether no hold expires.
    abbrev pub is_calm : List (Event R plan_id) → Bool
    is_calm [] = true
    is_calm (turn i ∷ es) = is_calm es
    is_calm (expire seat ∷ es) = false

    -- Whether every process is before its first command.
    abbrev pub IsFresh : System R plan_id → Type 0
    IsFresh sys = (i : ℕ) → (todo : List Text) × (sys.pc i ≡ acquiring [] todo)

    IsFresh-Inv : (sys : System R plan_id) → IsFresh sys → Inv sys
    IsFresh-Inv sys fresh i = go (sys.pc i) (fresh i)
      where
        go :
            (p : Pc)
            → (todo : List Text) × (p ≡ acquiring [] todo)
            → IsOwner (order_id i) (owned p) sys.server
        go p (todo, e) = rw e record { distinct_seats = refl; held = λ t m. absurd (ground arith) }

    module _ (distinct : (i j : ℕ) → i ≢ j → order_id i ≢ order_id j) where
      turn-Inv :
          (i : ℕ) (sys : System R plan_id) → Inv sys → Inv (happen R plan_id order_id (turn i) sys)
      unfolding happen
      turn-Inv i sys inv j = choose (i == j) refl
        where
          after : Pc × R.State
          after = step R plan_id (order_id i) (sys.pc i) sys.server

          choose :
              (b : Bool)
              → (i == j) ≡ b
              → IsOwner (order_id j) (owned (if b then after.0 else sys.pc j)) after.1
          choose true e =
              let same : i ≡ j = ground arith in
              rw (sym same) (step-IsOwner (order_id i) (sys.pc i) sys.server (inv i))
          choose false e = record {
            distinct_seats = (inv j).distinct_seats;
            held = λ t m.
                step-keeps_others (order_id i) (order_id j) (sys.pc i) sys.server
                  (hold_key plan_id t) (inv i) (distinct j i (ground arith)) ((inv j).held t m);
          }

      run-Inv :
          (es : List (Event R plan_id)) (sys : System R plan_id)
          → is_calm es ≡ true
          → Inv sys
          → Inv (run R plan_id order_id es sys)
      run-Inv [] sys calm inv = inv
      run-Inv (turn i ∷ es) sys calm inv =
          run-Inv es (happen R plan_id order_id (turn i) sys) calm (turn-Inv i sys inv)
      run-Inv (expire seat ∷ es) sys calm inv = absurd (ground arith)

      -- no two processes own a seat
      disjoint :
          (sys : System R plan_id)
          → Inv sys
          → (i j : ℕ) (t : Text) → i ≢ j
          → mentions t (owned (sys.pc i)) ≡ true
          → mentions t (owned (sys.pc j)) ≡ false
      disjoint sys inv i j t differ mine =
          ground (arith, (inv i).held t, (inv j).held t, distinct i j differ)

      -- Some orders with different identifiers acquire the seats of one plan and release them, each
      -- in a process of its own, and the commands of the processes are interleaved in any order,
      -- from a state in which no process has sent a command. As long as no hold expires, a seat
      -- that one process has acquired and not yet given back is held for its order, and no other
      -- process has acquired it.
      pub interleaved_exclusion :
          (sys : System R plan_id) (es : List (Event R plan_id))
          → IsFresh sys
          → is_calm es ≡ true
          → (i j : ℕ) (seat : Text) → i ≢ j
          → let after = run R plan_id order_id es sys in
            mentions seat (owned (after.pc i)) ≡ true
            → (R.get (hold_key plan_id seat) after.server ≡ some (order_id i))
              × (mentions seat (owned (after.pc j)) ≡ false)
      interleaved_exclusion sys es fresh calm i j seat differ mine =
          let inv = run-Inv es sys calm (IsFresh-Inv sys fresh) in
          (
            (inv i).held seat mine,
            disjoint (run R plan_id order_id es sys) inv i j seat differ mine,
          )
