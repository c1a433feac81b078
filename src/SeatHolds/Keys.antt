-- ===== src/SeatHolds/Keys.antt =====
-- The keys of two seats of one plan differ.
use ticket_genius.Prelude.{◌≡◌, refl, Bool, List, [], ◌∷◌, ◌++◌, ◌||◌, any, arith}
use ticket_genius.Prelude.Text.{Text, text_eq}
use ticket_genius.Domain.Values.{Uuid}
use ticket_genius.SeatHolds.{hold_key}

append_cancel : (p s t : Text) → p ++ s ≡ p ++ t → s ≡ t
append_cancel [] s t e = e
append_cancel (c ∷ p) s t e = append_cancel p s t (cc)

pub hold_key_injective :
    (plan_id : Uuid) (s t : Text) → hold_key plan_id s ≡ hold_key plan_id t → s ≡ t
unfolding hold_key
hold_key_injective plan_id s t e = cc (append_cancel plan_id (b':' ∷ s) (b':' ∷ t) (cc))

-- Whether a key is the hold of one of the seats.
abbrev pub is_hold_of : Uuid → List Text → Text → Bool
is_hold_of plan_id seats k = any (λ seat. text_eq (hold_key plan_id seat) k) seats

pub any-append {ℓ} :
    {A : Type ℓ} (p : A → Bool) (xs ys : List A) → any p (xs ++ ys) ≡ (any p xs || any p ys)
any-append p [] ys = refl
any-append p (x ∷ xs) ys = ground (arith, any-append p xs ys)
