-- ===== src/SeatHolds/Acquire.antt =====
-- Acquiring is all or nothing.
use mathlib.Core.Path.{subst₂}
use ticket_genius.Prelude.{
  ap, subst, ◌&&◌, not, is_some, ◌≡◌, refl, Bool, true, false, none, some, List, [], ◌∷◌, ◌++◌,
  arith, if◌then◌else◌, Bool-cases, Option-cases, inl, inr, append-nil, append_assoc,
}
use ticket_genius.Prelude.Text.{Text, text_eq_iff}
use ticket_genius.Domain.Values.{Uuid}
use ticket_genius.Redis.{Redis}
use ticket_genius.SeatHolds.{
  hold_key, delete_holds, acquire_loop, acquire_seat_holds, seat_hold_ttl,
}
use ticket_genius.SeatHolds.Keys.{is_hold_of, any-append}

module _ (R : Redis) (plan_id : Uuid) where
  pub get-delete_holds :
      (seats : List Text) (s : R.State) (k : Text)
      → R.get k (delete_holds R plan_id seats s)
        ≡ (if is_hold_of plan_id seats k then none else R.get k s)
  unfolding delete_holds
  get-delete_holds [] s k = refl
  get-delete_holds (seat ∷ seats) s k = ground (
    arith,
    get-delete_holds seats (R.delete (hold_key plan_id seat) s) k,
    R.get-delete (hold_key plan_id seat) s k,
  )

  module _ (order_id : Uuid) (s₀ : R.State) where
    -- Midway through the loop the acquired seats, free before, are held for the order, and no
    -- other key has changed.
    pub record IsMidway (acquired : List Text) (s : R.State) : Type 0 where
      pub held :
          (k : Text)
          → R.get k s ≡ (if is_hold_of plan_id acquired k then some order_id else R.get k s₀)
      pub were_free : (k : Text) → is_hold_of plan_id acquired k ≡ true → R.get k s₀ ≡ none

    -- How the loop ends: with every seat held, or with every key as it was.
    abbrev pub Outcome : List Text → Bool × R.State → Type 0
    Outcome seats (true, s) = IsMidway seats s
    Outcome seats (false, s) = (k : Text) → R.get k s ≡ R.get k s₀

    module _ (acquired : List Text) (seat : Text) (s : R.State) (mid : IsMidway acquired s) where
      abbrev key : Text
      key = hold_key plan_id seat

      abbrev tried : Bool × R.State
      tried = R.set_nx key order_id seat_hold_ttl s

      won_free : tried.0 ≡ true → R.get key s ≡ none
      won_free won = elim (Option-cases (R.get key s)) [
        | inl free ↦ free
        | inr (w, held) ↦ cc (R.set_nx_held key order_id w seat_hold_ttl s held)
      ]

      won_was_free : tried.0 ≡ true → R.get key s₀ ≡ none
      won_was_free won = ground (arith, won_free won, mid.held key)

      extend-IsMidway : tried.0 ≡ true → IsMidway (acquired ++ seat ∷ []) tried.1
      extend-IsMidway won = record {
        held = λ k.
            rw any-append (ground (arith, mid.held k, R.get-set_nx key order_id seat_hold_ttl s k));
        were_free = λ k.
            rw any-append (ground (arith, mid.were_free k, won_was_free won, text_eq_iff key k));
      }

      give_back :
          tried.0 ≡ false
          → (k : Text) → R.get k (delete_holds R plan_id acquired tried.1) ≡ R.get k s₀
      give_back lost k = ground (
        arith,
        get-delete_holds acquired tried.1 k,
        mid.held k,
        mid.were_free k,
        R.get-set_nx key order_id seat_hold_ttl s k,
      )

    pub acquire_loop-Outcome :
        (acquired seats : List Text) (s : R.State)
        → IsMidway acquired s
        → Outcome (acquired ++ seats) (acquire_loop R plan_id order_id acquired seats s)
    unfolding acquire_loop
    acquire_loop-Outcome acquired [] s mid = rw append-nil mid
    acquire_loop-Outcome acquired (seat ∷ seats) s mid =
        elim (Bool-cases (R.set_nx (hold_key plan_id seat) order_id seat_hold_ttl s).0) [
          | inl won ↦ rw won (
              rw append_assoc at (
                acquire_loop-Outcome (acquired ++ seat ∷ []) seats
                  (R.set_nx (hold_key plan_id seat) order_id seat_hold_ttl s).1
                  (extend-IsMidway acquired seat s mid won)))
          | inr lost ↦ rw lost (give_back acquired seat s mid lost)
        ]

    start-IsMidway : IsMidway [] s₀
    start-IsMidway = record { held = λ k. refl; were_free = λ k e. cc }

    -- Acquiring the seats of a plan for an order ends in one of two ways: it returns `True`, and
    -- then every seat was free, is held for the order, and no other key has changed; or it
    -- returns `False`, and every key of the server has the value that it had.
    pub acquire_all_or_nothing :
        (seats : List Text)
        → let (won, after) = acquire_seat_holds R plan_id seats order_id (some s₀) in
          (s : R.State) × (after ≡ some s) × Outcome seats (won, s)
    unfolding acquire_seat_holds
    acquire_all_or_nothing seats = (
      (acquire_loop R plan_id order_id [] seats s₀).1,
      refl,
      acquire_loop-Outcome [] seats s₀ start-IsMidway,
    )

-- A call that returned `True`: every seat was free, is held now, and nothing else changed.
pub acquired_all :
    (R : Redis) (plan_id order_id : Uuid) (seats : List Text) (s t : R.State)
    → acquire_seat_holds R plan_id seats order_id (some s) ≡ (true, some t)
    → IsMidway R plan_id order_id s seats t
acquired_all R plan_id order_id seats s t got =
    let (s', after, out) = acquire_all_or_nothing R plan_id order_id s seats in
    let won : (acquire_seat_holds R plan_id seats order_id (some s)).0 ≡ true = ap (λ p. p.0) got in
    let same : s' ≡ t = cc (after, ap (λ p. p.1) got) in
    subst₂ (λ b u. Outcome R plan_id order_id s seats (b, u)) won same out

-- Two orders cannot both acquire a seat: once the first has acquired seats with it, a call for
-- seats with it gets `False`, whichever order it is for.
pub acquire_exclusive :
    (R : Redis) (plan_id first second : Uuid) (seats others : List Text) (shared : Text)
    (s t : R.State)
    → is_hold_of plan_id seats (hold_key plan_id shared) ≡ true
    → is_hold_of plan_id others (hold_key plan_id shared) ≡ true
    → acquire_seat_holds R plan_id seats first (some s) ≡ (true, some t)
    → (acquire_seat_holds R plan_id others second (some t)).0 ≡ false
acquire_exclusive R plan_id first second seats others shared s t mine theirs got =
    let (s', after, out) = acquire_all_or_nothing R plan_id second t others in
    elim (Bool-cases (acquire_seat_holds R plan_id others second (some t)).0) [
      | inr lost ↦ lost
      | inl won ↦ clash s' (subst (λ b. Outcome R plan_id second t others (b, s')) won out)
    ]
  where
    clash :
        (s' : R.State)
        → IsMidway R plan_id second t others s'
        → (acquire_seat_holds R plan_id others second (some t)).0 ≡ false
    clash s' mid = cc (
      mid.were_free (hold_key plan_id shared) theirs,
      rw mine at ((acquired_all R plan_id first seats s t got).held (hold_key plan_id shared)),
    )

-- The seats that a call can acquire: each free, and none named twice.
abbrev pub all_free : (R : Redis) → Uuid → R.State → List Text → List Text → Bool
all_free R plan_id s seen [] = true
all_free R plan_id s seen (seat ∷ seats) =
    not (is_some (R.get (hold_key plan_id seat) s))
    && not (is_hold_of plan_id seen (hold_key plan_id seat))
    && all_free R plan_id s (seen ++ seat ∷ []) seats

acquire_loop-all_free :
    (R : Redis) (plan_id order_id : Uuid) (s₀ : R.State) (acquired seats : List Text) (s : R.State)
    → IsMidway R plan_id order_id s₀ acquired s
    → (acquire_loop R plan_id order_id acquired seats s).0 ≡ all_free R plan_id s₀ acquired seats
unfolding acquire_loop
acquire_loop-all_free R plan_id order_id s₀ acquired [] s mid = refl
acquire_loop-all_free R plan_id order_id s₀ acquired (seat ∷ seats) s mid =
    let key = hold_key plan_id seat in
    let tried = R.set_nx key order_id seat_hold_ttl s in
    elim (Bool-cases tried.0) [
      | inl won ↦ rw won (
          ground (
            arith,
            mid.held key,
            won_free R plan_id order_id s₀ acquired seat s mid won,
            acquire_loop-all_free R plan_id order_id s₀ (acquired ++ seat ∷ []) seats tried.1
                (extend-IsMidway R plan_id order_id s₀ acquired seat s mid won),
          ))
      | inr lost ↦
          rw lost (ground (arith, mid.held key, R.set_nx_free key order_id seat_hold_ttl s))
    ]

-- The call returns `True` exactly where every seat is free and none is named twice.
pub acquire_iff_free :
    (R : Redis) (plan_id order_id : Uuid) (seats : List Text) (s : R.State)
    → (acquire_seat_holds R plan_id seats order_id (some s)).0 ≡ all_free R plan_id s [] seats
unfolding acquire_seat_holds
acquire_iff_free R plan_id order_id seats s =
    acquire_loop-all_free R plan_id order_id s [] seats s (start-IsMidway R plan_id order_id s)
