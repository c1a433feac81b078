-- ===== src/Ticketmaster/TokenBucket/Laws.antt =====
-- What the limiter bounds, and what it does not.
use native.Mathlib.Nat.{mul-div_cancel, div-mul-le_self}
use ticket_genius.Prelude.{ℕ, ◌+◌, ◌-◌, ◌*◌, ◌≤◌, ◌≡◌, refl, arith}
use ticket_genius.Ticketmaster.TokenBucket.{TokenBucket, refill, consume}

abbrev pub IsValid : TokenBucket → Type 0
IsValid b = b.tokens ≤ b.capacity

-- The bucket never holds more than its capacity.
pub consume-IsValid : (wanted now : ℕ) (b : TokenBucket) → IsValid (consume wanted now b).1
unfolding consume
consume-IsValid wanted now b = ground arith

-- A call that need not wait takes its tokens from what was there and what the time since the
-- last call refilled.
pub consume_free :
    (wanted now : ℕ) (b : TokenBucket)
    → wanted ≤ (refill now b).tokens
    → let (wait, b') = consume wanted now b in
      (wait ≡ 0)
      × (b'.tokens + wanted ≤ b.tokens + (now - b.last_refill) * b.refill_rate)
      × (b'.last_refill ≡ now)
unfolding consume
consume_free wanted now b h = ground arith

-- A wait is no longer than the tokens take to be refilled.
pub consume_wait :
    (wanted now : ℕ) (b : TokenBucket) → (consume wanted now b).0 * b.refill_rate ≤ wanted
unfolding consume
consume_wait wanted now b =
    ground (arith, div-mul-le_self (wanted - (refill now b).tokens) b.refill_rate)

consume_empty :
    (wait now : ℕ) (b : TokenBucket)
    → b.tokens ≡ 0
    → b.last_refill ≡ now
    → 1 ≤ b.refill_rate
    → 1 ≤ wait
    → consume (wait * b.refill_rate) now b ≡ (wait, record b { tokens = 0; last_refill = now })
unfolding consume
consume_empty wait now b empty fresh rate some =
    grind (arith, mul-div_cancel wait {n = b.refill_rate} rate)

consume_refilled :
    (wait now : ℕ) (b : TokenBucket)
    → wait * b.refill_rate ≤ b.capacity
    → (consume (wait * b.refill_rate) (now + wait) (record b { tokens = 0; last_refill = now })).0
      ≡ 0
unfolding consume
consume_refilled wait now b fits = grind arith

-- A call on an empty bucket, for the tokens of a whole wait that fit its capacity, is told to
-- wait that long, but the bucket is not charged for them: after exactly that wait the next call
-- of as many tokens finds them there and need not wait.
pub consume_twice :
    (wait now : ℕ) (b : TokenBucket)
    → b.tokens ≡ 0
    → b.last_refill ≡ now
    → 1 ≤ b.refill_rate
    → 1 ≤ wait
    → wait * b.refill_rate ≤ b.capacity
    → let (first, b') = consume (wait * b.refill_rate) now b in
      (first ≡ wait) × ((consume (wait * b.refill_rate) (now + wait) b').0 ≡ 0)
consume_twice wait now b empty fresh rate some fits = (
  rw (consume_empty wait now b empty fresh rate some) refl,
  rw (consume_empty wait now b empty fresh rate some) (consume_refilled wait now b fits),
)
