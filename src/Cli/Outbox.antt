-- ===== src/Cli/Outbox.antt =====
-- cli/commands.py: `replay_outbox`, which prints events of the outbox and changes nothing. How the
-- database compares ids, and its ORDER BY, are parameters.
use ticket_genius.Prelude.{
  ℕ, zero, suc, ◌≡◌, refl, sym, ◌∙◌, Bool, true, false, not, ◌&&◌, Option, none, some, List, [],
  ◌∷◌, length, take, any, leb, is_empty, is_some, ◌||◌, arith, if◌then◌else◌,
}
use ticket_genius.Prelude.Text.{Text}
use ticket_genius.Python.Json.{Json}
use ticket_genius.Domain.Values.{Uuid, Datetime}

-- A row of `outbox`.
pub record OutboxRow : Type 0 where
  pub id : Uuid
  pub aggregate_id : Uuid
  pub aggregate_type : Text
  pub event_type : Text
  pub payload : Json
  pub created_at : Datetime
  pub processed_at : Option Datetime
  pub retry_count : ℕ

abbrev pub replay_limit : ℕ
replay_limit = 100

-- What the database does: `OutboxEvent.id >= from_id` and `order_by(OutboxEvent.created_at)`, which
-- neither adds a row nor leaves one out.
pub record OutboxTable : Type 0 where
  pub from_on : Text → Uuid → Bool
  pub by_created_at : List OutboxRow → List OutboxRow
  pub any-by_created_at :
      (p : OutboxRow → Bool) (rows : List OutboxRow) → any p (by_created_at rows) ≡ any p rows
  pub length-by_created_at : (rows : List OutboxRow) → length (by_created_at rows) ≡ length rows

module _ (T : OutboxTable) where
  -- `OutboxEvent.processed_at.is_(None)`
  abbrev pub is_unprocessed : Option Datetime → Bool
  is_unprocessed none = true
  is_unprocessed (some t) = false

  -- `if from_id`
  abbrev pub is_from : Option Text → Uuid → Bool
  is_from none id = true
  is_from (some []) id = true
  is_from (some (c ∷ cs)) id = T.from_on (c ∷ cs) id

  abbrev pub is_replayed : Option Text → OutboxRow → Bool
  is_replayed from_id r = is_unprocessed r.processed_at && is_from from_id r.id

  abbrev pub selected : Option Text → List OutboxRow → List OutboxRow
  selected from_id [] = []
  selected from_id (r ∷ rows) =
      let rest = selected from_id rows in if is_replayed from_id r then r ∷ rest else rest

  -- The rows that are printed, in their order.
  unfoldable pub replay_outbox : Option Text → List OutboxRow → List OutboxRow
  replay_outbox from_id rows = take replay_limit (T.by_created_at (selected from_id rows))

  any-take :
      (p : OutboxRow → Bool) (n : ℕ) (rows : List OutboxRow)
      → any p rows ≡ false
      → any p (take n rows) ≡ false
  any-take p zero rows h = refl
  any-take p (suc n) [] h = refl
  any-take p (suc n) (r ∷ rows) h = ground (arith, any-take p n rows)

  -- The id that a replay starts from, empty where there is none.
  abbrev pub start : Option Text → Text
  start none = []
  start (some id) = id

  -- Whether the listing leaves a row out because of its id.
  abbrev pub is_earlier : Text → OutboxRow → Bool
  is_earlier id r = not (is_empty id) && not (T.from_on id r.id)

  -- How many rows have no time of processing and are not before an id.
  abbrev pub count_waiting : Text → List OutboxRow → ℕ
  count_waiting id [] = 0
  count_waiting id (r ∷ rows) =
      let rest = count_waiting id rows in
      if is_some r.processed_at || is_earlier id r then rest else suc rest

  is_unprocessed-eq : (t : Option Datetime) → is_unprocessed t ≡ not (is_some t)
  is_unprocessed-eq none = refl
  is_unprocessed-eq (some t) = refl

  is_from-eq :
      (from_id : Option Text) (r : OutboxRow)
      → is_from from_id r.id ≡ not (is_earlier (start from_id) r)
  is_from-eq none r = refl
  is_from-eq (some []) r = refl
  is_from-eq (some (c ∷ cs)) r = ground arith

  any-selected_processed :
      (from_id : Option Text) (rows : List OutboxRow)
      → any (λ r. is_some r.processed_at) (selected from_id rows) ≡ false
  any-selected_processed from_id [] = refl
  any-selected_processed from_id (r ∷ rows) =
      ground (arith, is_unprocessed-eq r.processed_at, any-selected_processed from_id rows)

  any-selected_earlier :
      (from_id : Option Text) (rows : List OutboxRow)
      → any (is_earlier (start from_id)) (selected from_id rows) ≡ false
  any-selected_earlier from_id [] = refl
  any-selected_earlier from_id (r ∷ rows) =
      ground (arith, is_from-eq from_id r, any-selected_earlier from_id rows)

  length-selected :
      (from_id : Option Text) (rows : List OutboxRow)
      → length (selected from_id rows) ≡ count_waiting (start from_id) rows
  length-selected from_id [] = refl
  length-selected from_id (r ∷ rows) =
      ground (
        arith,
        is_unprocessed-eq r.processed_at,
        is_from-eq from_id r,
        length-selected from_id rows,
      )

  length-take :
      (n : ℕ) (rows : List OutboxRow)
      → length (take n rows) ≡ (if leb n (length rows) then n else length rows)
  length-take zero rows = ground arith
  length-take (suc n) [] = ground arith
  length-take (suc n) (r ∷ rows) = ground (arith, length-take n rows)

  -- A replay prints no event that has a time of processing and, where it is given an id that is not
  -- empty, none before that id; of the other rows of the table it prints as many as there are, or
  -- 100 if there are more.
  pub replay_outbox_lem :
      (from_id : Option Text) (rows : List OutboxRow)
      → let replayed = replay_outbox from_id rows in
        let candidates = count_waiting (start from_id) rows in
        (any (λ r. is_some r.processed_at) replayed ≡ false)
        × (any (is_earlier (start from_id)) replayed ≡ false)
        × (length replayed ≡ (if leb replay_limit candidates then replay_limit else candidates))
  unfolding replay_outbox
  replay_outbox_lem from_id rows =
      let found = selected from_id rows in
      (
        any-take (λ r. is_some r.processed_at) replay_limit (T.by_created_at found)
            (T.any-by_created_at (λ r. is_some r.processed_at) found
              ∙ any-selected_processed from_id rows),
        any-take (is_earlier (start from_id)) replay_limit (T.by_created_at found) (
            T.any-by_created_at (is_earlier (start from_id)) found
            ∙ any-selected_earlier from_id rows),
        rw (sym (length-selected from_id rows), sym (T.length-by_created_at found))
            (length-take replay_limit (T.by_created_at found)),
      )
