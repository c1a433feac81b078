-- ===== src/Ticketmaster/TokenBucket.antt =====
-- `TokenBucket` of adapters/ticketmaster.py. The source counts in floats. Here the clock counts
-- units of a second of any fineness, and `tokens` counts in units of one token over that
-- fineness, so that a unit of time refills `refill_rate` units of tokens; `unit` is the number
-- of such units in a token. A wait is rounded down to whole units of time.
pub mod Laws
use ticket_genius.Prelude.{ℕ, ◌+◌, ◌-◌, ◌*◌, ◌/◌, min, leb, if◌then◌else◌}

pub record TokenBucket : Type 0 where
  pub capacity : ℕ
  pub refill_rate : ℕ
  pub tokens : ℕ
  pub last_refill : ℕ

-- `__init__`, at the time `now`
unfoldable pub make_bucket : ℕ → ℕ → ℕ → TokenBucket
make_bucket capacity refill_rate now = record {
  capacity = capacity;
  refill_rate = refill_rate;
  tokens = capacity;
  last_refill = now;
}

-- the lines up to the test: the clock is monotonic, so `now` is no earlier than the last refill
unfoldable pub refill : ℕ → TokenBucket → TokenBucket
refill now b = record b {
  tokens = min b.capacity (b.tokens + (now - b.last_refill) * b.refill_rate);
  last_refill = now;
}

unfoldable pub take_tokens : ℕ → TokenBucket → ℕ × TokenBucket
take_tokens wanted b =
    if leb wanted b.tokens
    then (0, record b { tokens = b.tokens - wanted })
    else ((wanted - b.tokens) / b.refill_rate, record b { tokens = 0 })

-- `consume`: the time to wait, and the bucket
unfoldable pub consume : ℕ → ℕ → TokenBucket → ℕ × TokenBucket
unfolding refill take_tokens
consume wanted now b = take_tokens wanted (refill now b)
