-- ===== src/Observability/Requests.antt =====
-- observability/logging.py and observability/middleware.py: the correlation id of a request, in a
-- context variable, and the hooks before and after a request. A line of the log keeps its event and
-- its id. The copy of the id in `flask.g` is left out.
use ticket_genius.Prelude.{
  sym, not, if◌then◌else◌, ◌≡◌, refl, Bool, true, false, Option, none, some, List, [], ◌∷◌,
  is_empty, arith, if◌then◌else◌,
}
use ticket_genius.Prelude.Text.{Text, codes, text_eq_refl}
use ticket_genius.Prelude.Dict.{Dict, lookup, insert, lookup-insert}

pub record LogLine : Type 0 where
  pub event : Text
  pub correlation_id : Option Text

-- `correlation_id_var` and what was logged, the last line first.
pub record Context : Type 0 where
  pub correlation_id_var : Option Text
  pub log : List LogLine

abbrev pub get_correlation_id : Context → Option Text
get_correlation_id c = c.correlation_id_var

abbrev pub set_correlation_id : Text → Context → Context
set_correlation_id id c = record c { correlation_id_var = some id }

abbrev pub clear_correlation_id : Context → Context
clear_correlation_id c = record c { correlation_id_var = none }

abbrev pub log : Text → Option Text → Context → Context
log event id c = record c { log = record { event = event; correlation_id = id } ∷ c.log }

-- `if cid: d[key] = cid`
abbrev pub insert_given : Text → Option Text → Dict Text → Dict Text
insert_given key none d = d
insert_given key (some []) d = d
insert_given key (some (c ∷ cs)) d = insert key (c ∷ cs) d

-- The processor that adds the id to every event.
unfoldable pub add_correlation_id : Context → Dict Text → Dict Text
add_correlation_id c event_dict =
    insert_given (codes "correlation_id") (get_correlation_id c) event_dict

abbrev pub header_name : Text
header_name = codes "X-Correlation-ID"

-- `request.headers.get(...) or str(uuid.uuid4())`
abbrev pub chosen_id : Option Text → Text → Text
chosen_id none fresh = fresh
chosen_id (some []) fresh = fresh
chosen_id (some (c ∷ cs)) fresh = c ∷ cs

-- The value of the request's header, and the new UUID.
unfoldable pub before_request : Option Text → Text → Context → Context
before_request header fresh c =
    let correlation_id = chosen_id header fresh in
    log (codes "request_started") (some correlation_id) (set_correlation_id correlation_id c)

-- The headers of the response.
unfoldable pub after_request : Dict Text → Context → Dict Text × Context
after_request headers c =
    let correlation_id = get_correlation_id c in
    (
      insert_given header_name correlation_id headers,
      clear_correlation_id (log (codes "request_completed") correlation_id c),
    )

-- Whether there was an exception.
unfoldable pub teardown_request : Bool → Context → Context
teardown_request failed c =
    clear_correlation_id
      (if failed then log (codes "request_failed") (get_correlation_id c) c else c)

lookup-insert_given :
    (key id : Text) (d : Dict Text)
    → is_empty id ≡ false
    → lookup key (insert_given key (some id) d) ≡ some id
lookup-insert_given key [] d given = absurd (ground arith)
lookup-insert_given key (c ∷ cs) d given =
    rw (lookup-insert key key (c ∷ cs) d, text_eq_refl key) refl

chosen_id-given :
    (header : Option Text) (fresh : Text)
    → is_empty fresh ≡ false
    → is_empty (chosen_id header fresh) ≡ false
chosen_id-given none fresh given = given
chosen_id-given (some []) fresh given = given
chosen_id-given (some (c ∷ cs)) fresh given = refl

-- Whether a request brings an id.
abbrev pub brings_id : Option Text → Bool
brings_id header = elim header [ none ↦ false | some id ↦ not (is_empty id) ]

chosen_id-eq :
    (header : Option Text) (fresh : Text)
    → some (chosen_id header fresh) ≡ (if brings_id header then header else some fresh)
chosen_id-eq none fresh = refl
chosen_id-eq (some []) fresh = refl
chosen_id-eq (some (c ∷ cs)) fresh = refl

-- Between the two hooks the request may log what it likes, but does not set the id. Then its
-- response carries the header that the request brought, or the new id if it brought none or an
-- empty one; the end of the request is logged with that id; and afterwards there is no id, so that
-- a failure that the teardown logs behind the response has none.
pub correlation_id_returned :
    (header : Option Text) (fresh : Text) (headers : Dict Text) (c during : Context)
    → is_empty fresh ≡ false
    → during.correlation_id_var ≡ (before_request header fresh c).correlation_id_var
    → let (headers', after) = after_request headers during in
      let id = if brings_id header then header else some fresh in
      (lookup header_name headers' ≡ id)
      × (after.log ≡ record { event = codes "request_completed"; correlation_id = id } ∷ during.log)
      × (after.correlation_id_var ≡ none)
      × ((teardown_request true after).log
          ≡ record { event = codes "request_failed"; correlation_id = none } ∷ after.log)
unfolding before_request after_request teardown_request
correlation_id_returned header fresh headers c during given kept = (
  rw (sym (chosen_id-eq header fresh)) (
      rw kept (
        lookup-insert_given header_name (chosen_id header fresh) headers
          (chosen_id-given header fresh given))),
  rw (sym (chosen_id-eq header fresh)) (rw kept refl),
  refl,
  refl,
)
