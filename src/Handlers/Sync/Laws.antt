-- ===== src/Handlers/Sync/Laws.antt =====
-- A synchronisation ends with the provider's pages, and writes no database.
use ticket_genius.Prelude.{
  ℕ, zero, suc, ◌+◌, ◌≤◌, ◌<◌, ◌≡◌, ◌≢◌, refl, sym, ap, ◌∙◌, Bool, true, false, Option, none, List,
  [], ◌∷◌, length, ltb, ◌==◌, Bool-cases, inl, inr, arith,
}
use ticket_genius.Python.{Exn, Result, ok, err, is_ok}
use ticket_genius.Python.Json.{Json}
use ticket_genius.Python.Exec.{Exec, continue}
use ticket_genius.Python.Std.{Std}
use ticket_genius.Domain.Values.{Datetime}
use ticket_genius.Domain.Plan.{Plan}
use ticket_genius.UnitOfWork.{Session}
use ticket_genius.MessageBus.{SyncPlansCommand}
use ticket_genius.Handlers.Sync.{
  adapter_search, page_size, sync_event, sync_events, turn, unless_short, sync_pages,
  handle_sync_plans,
}

module _ (std : Std) (S : Session) (search : ℕ → ℕ → Result (List Json))
    (get_by_tm_id : Json → S.State → Option Plan) (now : Datetime) (cmd : SyncPlansCommand) where
  abbrev event_step : Json → Exec S.State ℕ
  event_step = sync_event std S search get_by_tm_id now cmd

  abbrev pages : ℕ → ℕ → ℕ → Exec S.State (Option ℕ)
  pages fuel = sync_pages std S search get_by_tm_id fuel now cmd

  abbrev page_turn : List Json → ℕ → (ℕ → Exec S.State (Option ℕ)) → Exec S.State (Option ℕ)
  page_turn = turn std S search get_by_tm_id now cmd

  event_keeps : (event : Json) (s : S.State) → S.stored (event_step event s).1 ≡ S.stored s
  unfolding sync_event
  event_keeps event s = grind (arith, S.stored-put_plan)

  events_keep :
      (events : List Json) (s : S.State)
      → S.stored (sync_events std S search get_by_tm_id now cmd events s).1 ≡ S.stored s
  events_keep [] s = refl
  events_keep (event ∷ events) s = grind (arith, event_keeps, events_keep events)

  -- What holds behind both outcomes of a call holds behind the call.
  module _ {A B : Type 0} (P : Result B × S.State → Type 0) (f : A → Exec S.State B) where
    bind_cases :
        (p : Result A × S.State)
        → ((a : A) (t : S.State) → p ≡ (ok a, t) → P (f a t))
        → ((e : Exn) (t : S.State) → p ≡ (err e, t) → P (err e, t))
        → P (continue p.0 f p.1)
    bind_cases (ok a, t) returned raised = returned a t refl
    bind_cases (err x, t) returned raised = raised x t refl

  unless_short_keeps :
      (b : Bool) (n : ℕ) (next : ℕ → Exec S.State (Option ℕ)) (t : S.State)
      → ((n : ℕ) (s : S.State) → S.stored (next n s).1 ≡ S.stored s)
      → S.stored (unless_short std S search get_by_tm_id b n next t).1 ≡ S.stored t
  unless_short_keeps true n next t keeps = refl
  unless_short_keeps false n next t keeps = keeps n t

  turn_keeps :
      (events : List Json) (synced : ℕ) (next : ℕ → Exec S.State (Option ℕ))
      → ((n : ℕ) (s : S.State) → S.stored (next n s).1 ≡ S.stored s)
      → (s : S.State) → S.stored (page_turn events synced next s).1 ≡ S.stored s
  turn_keeps [] synced next keeps s = refl
  turn_keeps (e ∷ es) synced next keeps s =
      bind_cases (λ p. S.stored p.1 ≡ S.stored s)
        (λ n.
          unless_short std S search get_by_tm_id (ltb (length (e ∷ es)) page_size) (synced + n)
            next)
        (sync_events std S search get_by_tm_id now cmd (e ∷ es) s)
        (λ n t call.
          unless_short_keeps (ltb (length (e ∷ es)) page_size) (synced + n) next t keeps
          ∙ after call)
        (λ x t call. after call)
    where
      after :
          {r : Result ℕ} {t : S.State}
          → sync_events std S search get_by_tm_id now cmd (e ∷ es) s ≡ (r, t)
          → S.stored t ≡ S.stored s
      after call = sym (ap (λ p. S.stored p.1) call) ∙ events_keep (e ∷ es) s

  pages_keep :
      (fuel page synced : ℕ) (s : S.State) → S.stored (pages fuel page synced s).1 ≡ S.stored s
  unfolding sync_pages
  pages_keep zero page synced s = refl
  pages_keep (suc fuel) page synced s = go (search page page_size) (pages_keep fuel (page + 1))
    where
      go :
          (r : Result (List Json))
          → ((n : ℕ) (t : S.State) → S.stored (pages fuel (page + 1) n t).1 ≡ S.stored t)
          → S.stored (continue r (λ events. page_turn events synced (pages fuel (page + 1))) s).1
            ≡ S.stored s
      go (err e) keeps = refl
      go (ok events) keeps = turn_keeps events synced (pages fuel (page + 1)) keeps s

  -- Whatever the provider lists, and however many pages are read, a synchronisation leaves the
  -- database as it was: nothing it does is committed.
  pub sync_uncommitted :
      (fuel : ℕ) (s : S.State)
      → S.stored (handle_sync_plans std S search get_by_tm_id fuel now cmd s).1 ≡ S.stored s
  unfolding handle_sync_plans
  sync_uncommitted fuel s = pages_keep fuel 0 0 s

  turn_ends :
      (events : List Json) (synced : ℕ) (next : ℕ → Exec S.State (Option ℕ)) (s : S.State)
      → length events < page_size
      → (page_turn events synced next s).0 ≢ ok none
  turn_ends [] synced next s short = ground arith
  turn_ends (e ∷ es) synced next s short = ground arith

  turn_ends_next :
      (events : List Json) (synced : ℕ) (next : ℕ → Exec S.State (Option ℕ)) (s : S.State)
      → ((n : ℕ) (t : S.State) → (next n t).0 ≢ ok none)
      → (page_turn events synced next s).0 ≢ ok none
  turn_ends_next [] synced next s ends = ground arith
  turn_ends_next (e ∷ es) synced next s ends =
      bind_cases (λ p. p.0 ≢ ok none)
        (λ n.
          unless_short std S search get_by_tm_id (ltb (length (e ∷ es)) page_size) (synced + n)
            next)
        (sync_events std S search get_by_tm_id now cmd (e ∷ es) s)
        (λ n t call. unless_short_ends (ltb (length (e ∷ es)) page_size) (synced + n) t)
        (λ x t call. ground arith)
    where
      unless_short_ends :
          (b : Bool) (n : ℕ) (t : S.State)
          → (unless_short std S search get_by_tm_id b n next t).0 ≢ ok none
      unless_short_ends true n t = ground arith
      unless_short_ends false n t = ends n t

  pages_end :
      (fuel page synced last : ℕ) (events : List Json) (s : S.State)
      → search last page_size ≡ ok events
      → length events < page_size
      → page ≤ last
      → last < page + fuel
      → (pages fuel page synced s).0 ≢ ok none
  unfolding sync_pages
  pages_end zero page synced last events s found short before enough = absurd (omega arith)
  pages_end (suc fuel) page synced last events s found short before enough =
      go (search page page_size) refl (λ other n t.
        pages_end fuel (page + 1) n last events t found short (omega arith) (omega arith))
    where
      same_page :
          (shown : List Json)
          → Path (Result (List Json)) (ok shown) (ok events)
          → length shown < page_size
      same_page shown e = ground arith

      go :
          (r : Result (List Json))
          → search page page_size ≡ r
          → (page ≢ last → (n : ℕ) (t : S.State) → (pages fuel (page + 1) n t).0 ≢ ok none)
          → (continue r (λ events. page_turn events synced (pages fuel (page + 1))) s).0 ≢ ok none
      go (err e) call later = ground arith
      go (ok shown) call later = elim (Bool-cases (page == last)) [
        | inl same ↦
            turn_ends shown synced (pages fuel (page + 1)) s
              (same_page shown (sym call ∙ ap (λ n. search n page_size) (ground arith) ∙ found))
        | inr other ↦ turn_ends_next shown synced (pages fuel (page + 1)) s (later (ground arith))
      ]

  -- For a port whose search takes a page and a size: where some page holds fewer events than a full one, a synchronisation ends: with fuel for the
  -- pages up to it, it returns a count or raises.
  pub sync_ends :
      (fuel last : ℕ) (events : List Json) (s : S.State)
      → search last page_size ≡ ok events
      → length events < page_size
      → last < fuel
      → (handle_sync_plans std S search get_by_tm_id fuel now cmd s).0 ≢ ok none
  unfolding handle_sync_plans
  sync_ends fuel last events s found short enough =
      pages_end fuel 0 0 last events s found short (omega arith) (omega arith)

-- With the adapter of the program a synchronisation of at least one turn raises at its first search
-- and changes nothing.
pub sync_with_adapter :
    (std : Std) (S : Session) (get_by_tm_id : Json → S.State → Option Plan) (now : Datetime)
    (cmd : SyncPlansCommand) (fuel : ℕ) (s : S.State)
    → let (r, s') = handle_sync_plans std S adapter_search get_by_tm_id (suc fuel) now cmd s in
      (is_ok r ≡ false) × (s' ≡ s)
unfolding handle_sync_plans
sync_with_adapter std S get_by_tm_id now cmd fuel s = ground arith
