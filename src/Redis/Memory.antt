-- ===== src/Redis/Memory.antt =====
-- A server that meets the laws: the association list of its keys.
use ticket_genius.Prelude.{ℕ, ◌≡◌, Bool, true, false, none, some, arith, if◌then◌else◌}
use ticket_genius.Prelude.Text.{Text, text_eq}
use ticket_genius.Prelude.Dict.{Dict, lookup, insert, erase, lookup-insert, lookup-erase}
use ticket_genius.Redis.{Redis}

abbrev pub set_if_free : Text → Text → ℕ → Dict Text → Bool × Dict Text
set_if_free k v t d = elim (lookup k d) [ none ↦ (true, insert k v d) | some w ↦ (false, d) ]

pub free_law :
    (k v : Text) (t : ℕ) (d : Dict Text) → lookup k d ≡ none → (set_if_free k v t d).0 ≡ true
free_law k v t d h = ground arith

pub held_law :
    (k v w : Text) (t : ℕ) (d : Dict Text) → lookup k d ≡ some w → (set_if_free k v t d).0 ≡ false
held_law k v w t d h = ground arith

pub set_law :
    (k v : Text) (t : ℕ) (d : Dict Text) (j : Text)
    → lookup j (set_if_free k v t d).1
      ≡ (if (set_if_free k v t d).0 then if text_eq k j then some v else lookup j d else lookup j d)
set_law k v t d j = ground (arith, lookup-insert k j v d)

abbrev pub memory : Redis
memory = record {
  State = Dict Text;
  get = lookup;
  set_nx = set_if_free;
  setex = λ k t v d. insert k v d;
  delete = erase;
  set_nx_free = free_law;
  set_nx_held = held_law;
  get-set_nx = set_law;
  get-setex = λ k v t d j. lookup-insert k j v d;
  get-delete = λ k d j. lookup-erase k j d;
}
