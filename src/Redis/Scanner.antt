-- ===== src/Redis/Scanner.antt =====
-- A scan of the server in memory: one call gives every key of the pattern.
use ticket_genius.Prelude.{ℕ, suc, ◌≡◌, true, List, [], ◌∷◌, arith, if◌then◌else◌}
use ticket_genius.Prelude.Text.{mentions, mentions-append, Text, text_eq_iff, starts_with}
use ticket_genius.Prelude.Dict.{Dict, lookup}
use ticket_genius.Redis.Memory.{memory}
use ticket_genius.Redis.Scan.{Scan, is_held, is_iteration, returned, held_in_all}

abbrev pub keys_of : Text → Dict Text → List Text
keys_of prefix [] = []
keys_of prefix ((j, w) ∷ d) =
    let rest = keys_of prefix d in if starts_with prefix j then j ∷ rest else rest

mentions-keys_of :
    (prefix k : Text) (d : Dict Text)
    → is_held (lookup k d) ≡ true
    → starts_with prefix k ≡ true
    → mentions k (keys_of prefix d) ≡ true
unfolding lookup
mentions-keys_of prefix k [] held match = ground arith
mentions-keys_of prefix k ((j, w) ∷ d) held match =
    ground (arith, mentions-keys_of prefix k d, text_eq_iff j k)

pub keys_of_match :
    (prefix k : Text) (d : Dict Text)
    → mentions k (keys_of prefix d) ≡ true
    → starts_with prefix k ≡ true
keys_of_match prefix k [] h = ground arith
keys_of_match prefix k ((j, w) ∷ d) h = ground (arith, keys_of_match prefix k d, text_eq_iff j k)

abbrev pub one_call : Text → ℕ → Dict Text → ℕ × List Text
one_call prefix cursor d = (0, keys_of prefix d)

pub one_call_complete :
    (prefix k : Text) (states : List (Dict Text))
    → is_iteration (one_call prefix) 0 states ≡ true
    → held_in_all lookup k states ≡ true
    → starts_with prefix k ≡ true
    → mentions k (returned (one_call prefix) 0 states) ≡ true
one_call_complete prefix k [] ends held match = ground arith
one_call_complete prefix k (d ∷ states) ends held match = ground (
  arith,
  mentions-keys_of prefix k d,
  mentions-append k (keys_of prefix d) (returned (one_call prefix) 0 states),
)

pub zero_is_no_suc : (n : ℕ) → 0 ≡ suc n → ⊥
zero_is_no_suc n e = omega arith

abbrev pub scanner : Scan memory
scanner = record {
  scan = one_call;
  complete = one_call_complete;
  sound = λ prefix k cursor d. keys_of_match prefix k d;
  calls = λ prefix cursor. 0;
  progress = λ prefix cursor n d e. absurd (zero_is_no_suc n e);
}
