-- ===== src/Observability/Validation.antt =====
-- observability/validation.py: the validators of bodies and the decorators over them. What a
-- pydantic model makes of a body, and what flask's request and `jsonify` give, are parameters.
use ticket_genius.Prelude.{
  ℕ, ◌≡◌, ◌⊎◌, inl, inr, refl, Bool, true, false, Option, none, some, [], ◌∷◌, ◌++◌, if◌then◌else◌,
}
use ticket_genius.Prelude.Text.{Text, codes}
use ticket_genius.Python.{Exn, Result, ok, err, domain, domain_error}
use ticket_genius.Python.Exec.{Exec}
use ticket_genius.Python.Json.{Json, obj, end, truthy}
use ticket_genius.Domain.Exceptions.{ErrorKind, Detail, make_exception}

-- What `model(**data)` comes to: an instance, a `ValidationError` with its `errors()`, or an
-- exception of another kind.
pub data Built (M : Type 0) : Type 0 where
  instance_of : M → Built M
  invalid : Detail → Built M
  broken : Exn → Built M

abbrev pub invalid_body : Detail → Exn
invalid_body errors = domain (
    make_exception
      (ErrorKind.validation_error (codes "Request validation failed") (some (codes "request_body")))
      (some ((codes "errors", errors) ∷ [])))

abbrev pub no_json : Exn
no_json =
    domain_error
      (ErrorKind.validation_error (codes "Request must be JSON") (some (codes "content_type")))

module _ {M : Type 0} where
  abbrev pub validated : Built M → Result (Option M)
  validated (instance_of m) = ok (some m)
  validated (invalid errors) = err (invalid_body errors)
  validated (broken e) = err e

  -- `RequestValidator(model).validate(data)`
  unfoldable pub validate : Option (Json → Built M) → Json → Result (Option M)
  validate none json = ok none
  validate (some model) json = validated (model json)

-- Whether an exception is a `ValidationError` of domain/exceptions.py.
abbrev pub is_validation_kind : ErrorKind → Bool
is_validation_kind (ErrorKind.validation_error m f) = true
is_validation_kind k = false

abbrev pub is_validation : Exn → Bool
is_validation (domain e) = is_validation_kind e.kind
is_validation e = false

-- `except DomainValidationError: raise`, and the handler below it
unfoldable pub as_validation : (Exn → Text) → Exn → Exn
unfolding make_exception
as_validation str e =
    if is_validation e
    then e
    else domain_error (
        ErrorKind.validation_error (codes "Request parsing failed: " ++ str e)
          (some (codes "request_body")))

as_validation-is_validation :
    (str : Exn → Text) (e : Exn) → is_validation (as_validation str e) ≡ true
unfolding as_validation make_exception
as_validation-is_validation str e = choose (is_validation e) refl
  where
    choose :
        (b : Bool)
        → is_validation e ≡ b
        → is_validation (
            if b
            then e
            else domain_error (
                ErrorKind.validation_error
                  (codes "Request parsing failed: " ++ str e)
                  (some (codes "request_body"))))
          ≡ true
    choose true h = h
    choose false h = refl

-- `request.get_json() or {}`
abbrev pub or_empty : Json → Json
or_empty j = if truthy j then j else obj end

module _ {M : Type 0} (model : Json → Built M) where
  -- The first `try`: whether the request is JSON, and its body.
  abbrev pub read_request : Bool → Result Json → Result (Option M)
  read_request false body = err no_json
  read_request true (err e) = err e
  read_request true (ok j) = validate (some model) (or_empty j)

module _ {W A M : Type 0} (str : Exn → Text) (model : Json → Built M) where
  abbrev pub then_view : (Option M → Exec W A) → Result (Option M) → Exec W A
  then_view view (err e) w = (err (as_validation str e), w)
  then_view view (ok m) w = view m w

  -- The decorator; the view reads `g.validated_request`.
  unfoldable pub validate_request : Bool → Result Json → (Option M → Exec W A) → Exec W A
  unfolding validate as_validation
  validate_request is_json body view w = then_view view (read_request model is_json body) w

  -- A decorated view runs just on what the model makes of a JSON body. In every other case, where the
  -- request is no JSON, its body cannot be read, or the model raises whatever exception, the request
  -- ends with a `ValidationError`, and nothing has changed.
  pub validate_request_lem :
      (is_json : Bool) (body : Result Json) (view : Option M → Exec W A) (w : W)
      → ((j : Json) × (m : M) × (is_json ≡ true)
          × (body ≡ ok j)
          × (model (or_empty j) ≡ instance_of m)
          × (validate_request is_json body view w ≡ view (some m) w))
        ⊎ ((e : Exn) × (validate_request is_json body view w ≡ (err e, w))
            × (is_validation e ≡ true))
  unfolding validate_request validate
  validate_request_lem false body view w =
      inr (as_validation str no_json, refl, as_validation-is_validation str no_json)
  validate_request_lem true (err e) view w =
      inr (as_validation str e, refl, as_validation-is_validation str e)
  validate_request_lem true (ok j) view w = go (model (or_empty j)) refl
    where
      go :
          (built : Built M)
          → model (or_empty j) ≡ built
          → ((j' : Json) × (m : M) × (true ≡ true)
              × (ok j ≡ ok j')
              × (model (or_empty j') ≡ instance_of m)
              × (then_view view (validated built) w ≡ view (some m) w))
            ⊎ ((e : Exn) × (then_view view (validated built) w ≡ (err e, w))
                × (is_validation e ≡ true))
      go (instance_of m) h = inl (j, m, refl, refl, h, refl)
      go (broken e) h = inr (as_validation str e, refl, as_validation-is_validation str e)
      go (invalid errors) h = inr (
        as_validation str (invalid_body errors),
        refl,
        as_validation-is_validation str (invalid_body errors),
      )

-- What a view returns: a response object of flask or a body, alone or in a tuple with a status and
-- headers.
pub data Payload (R : Type 0) : Type 0 where
  response : R → Payload R
  body : Json → Payload R

pub data Returned (R H : Type 0) : Type 0 where
  plain single : Payload R → Returned R H
  with_status : Payload R → ℕ → Returned R H
  with_headers : Payload R → ℕ → H → Returned R H

module _ {R H M : Type 0} (no_headers : H) (jsonify : Json → R) (model : Option (Json → Built M))
    (model_dump : M → Json) where
  -- `ResponseValidator(model).validate(data)`: what is invalid is returned as it is.
  abbrev pub dumped : Json → Built M → Result Json
  dumped content (instance_of m) = ok (model_dump m)
  dumped content (invalid errors) = ok content
  dumped content (broken e) = err e

  abbrev pub validate_body : Option (Json → Built M) → Json → Result Json
  validate_body none content = ok content
  validate_body (some m) content = dumped content (m content)

  -- `except Exception` around the validator; a `ValidationError` of the domain is raised again.
  abbrev pub answer_with : Json → ℕ → H → Result Json → Result (Returned R H)
  answer_with content status headers (ok j) =
      ok (with_headers (response (jsonify j)) status headers)
  answer_with content status headers (err e) =
      if is_validation e
      then err e
      else ok (with_headers (response (jsonify content)) status headers)

  abbrev pub answer_payload : Payload R → ℕ → H → Result (Returned R H)
  answer_payload (response r) status headers = ok (plain (response r))
  answer_payload (body j) status headers = answer_with j status headers (validate_body model j)

  abbrev pub payload_of : Returned R H → Payload R
  payload_of (plain p) = p
  payload_of (single p) = p
  payload_of (with_status p status) = p
  payload_of (with_headers p status headers) = p

  abbrev pub status_of : Returned R H → ℕ
  status_of (plain p) = 200
  status_of (single p) = 200
  status_of (with_status p status) = status
  status_of (with_headers p status headers) = status

  abbrev pub headers_of : Returned R H → H
  headers_of (plain p) = no_headers
  headers_of (single p) = no_headers
  headers_of (with_status p status) = no_headers
  headers_of (with_headers p status headers) = headers

  -- `validate_response` around a view that returned
  unfoldable pub validate_response : Returned R H → Result (Returned R H)
  validate_response result =
      answer_payload (payload_of result) (status_of result) (headers_of result)

  abbrev pub is_response : Payload R → Bool
  is_response (response r) = true
  is_response (body j) = false

  -- What a decorated view answers has the status and the headers of the view, whether or not the
  -- body is valid, if the model raises no `ValidationError` of the domain. A view that returns a
  -- response object in a tuple loses both: the answer is the object alone.
  pub validate_response_lem :
      (result : Returned R H)
      → ((j : Json) (e : Exn) → validate_body model j ≡ err e → is_validation e ≡ false)
      → let bare = is_response (payload_of result) in
        (answer : Returned R H) × (validate_response result ≡ ok answer)
        × (status_of answer ≡ (if bare then 200 else status_of result))
        × (headers_of answer ≡ (if bare then no_headers else headers_of result))
  unfolding validate_response
  validate_response_lem result raises =
      go (payload_of result) (status_of result) (headers_of result)
    where
      answered :
          (j : Json) (status : ℕ) (headers : H) (built : Result Json)
          → ((e : Exn) → built ≡ err e → is_validation e ≡ false)
          → (answer : Returned R H) × (answer_with j status headers built ≡ ok answer)
            × (status_of answer ≡ status)
            × (headers_of answer ≡ headers)
      answered j status headers (ok k) h =
          (with_headers (response (jsonify k)) status headers, refl, refl, refl)
      answered j status headers (err e) h =
          (with_headers (response (jsonify j)) status headers, rw (h e refl) refl, refl, refl)

      go :
          (p : Payload R) (status : ℕ) (headers : H)
          → (answer : Returned R H) × (answer_payload p status headers ≡ ok answer)
            × (status_of answer ≡ (if is_response p then 200 else status))
            × (headers_of answer ≡ (if is_response p then no_headers else headers))
      go (response r) status headers = (plain (response r), refl, refl, refl)
      go (body j) status headers = answered j status headers (validate_body model j) (raises j)
