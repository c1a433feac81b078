-- ===== src/Observability/Metrics.antt =====
-- observability/metrics.py: the business metrics. A counter with labels is a dict of counts.
use ticket_genius.Prelude.{
  ℕ, suc, ◌+◌, ◌≡◌, refl, Bool, true, Option, none, some, List, [], ◌∷◌, arith,
}
use ticket_genius.Prelude.Int.{ℤ, pos, ◌+ℤ◌, ◌-ℤ◌, eqb_ℤ, eqb_ℤ-eq}
use ticket_genius.Prelude.Text.{Text}
use ticket_genius.Prelude.Dict.{Dict, lookup, insert}

pub record Metrics : Type 0 where
  pub orders_created_total : Dict ℕ
  pub payments_succeeded_total : ℕ
  pub payments_failed_total : Dict ℕ
  pub orders_cancelled_total : ℕ
  pub orders_refunded_total : ℕ
  pub plans_synced_total : ℕ
  pub seat_holds_conflicts_total : ℕ
  pub active_orders_gauge : ℤ

abbrev pub no_metrics : Metrics
no_metrics = record {
  orders_created_total = [];
  payments_succeeded_total = 0;
  payments_failed_total = [];
  orders_cancelled_total = 0;
  orders_refunded_total = 0;
  plans_synced_total = 0;
  seat_holds_conflicts_total = 0;
  active_orders_gauge = pos 0;
}

abbrev pub count_of : Option ℕ → ℕ
count_of none = 0
count_of (some n) = n

-- `counter.labels(label).inc()`
unfoldable pub inc_label : Text → Dict ℕ → Dict ℕ
inc_label label d = insert label (count_of (lookup label d) + 1) d

-- The functions `record_...` of the module, as the calls of the program.
pub data Call : Type 0 where
  order_created payment_failed : Text → Call
  order_completed payment_succeeded order_cancelled order_refunded seat_hold_conflict : Call
  plans_synced : ℕ → Call

unfoldable pub record_call : Call → Metrics → Metrics
unfolding inc_label
record_call (order_created status) m = record m {
  orders_created_total = inc_label status m.orders_created_total;
  active_orders_gauge = m.active_orders_gauge +ℤ pos 1;
}
record_call order_completed m = record m { active_orders_gauge = m.active_orders_gauge -ℤ pos 1 }
record_call payment_succeeded m = record m {
  payments_succeeded_total = m.payments_succeeded_total + 1;
}
record_call (payment_failed reason) m = record m {
  payments_failed_total = inc_label reason m.payments_failed_total;
}
record_call order_cancelled m = record m {
  orders_cancelled_total = m.orders_cancelled_total + 1;
  active_orders_gauge = m.active_orders_gauge -ℤ pos 1;
}
record_call order_refunded m = record m { orders_refunded_total = m.orders_refunded_total + 1 }
record_call (plans_synced count) m = record m { plans_synced_total = m.plans_synced_total + count }
record_call seat_hold_conflict m = record m {
  seat_holds_conflicts_total = m.seat_holds_conflicts_total + 1;
}

abbrev pub record_calls : List Call → Metrics → Metrics
record_calls [] m = m
record_calls (c ∷ cs) m = record_calls cs (record_call c m)

-- The sum of the counts of all labels.
abbrev pub total : Dict ℕ → ℕ
total [] = 0
total ((label, n) ∷ d) = n + total d

total-inc_label : (label : Text) (d : Dict ℕ) → total (inc_label label d) ≡ total d + 1
unfolding inc_label insert lookup
total-inc_label label [] = refl
total-inc_label label ((l, m) ∷ d) = ground (arith, total-inc_label label d)

-- The calls that say that an order is completed.
abbrev pub completions : List Call → ℕ
completions [] = 0
completions (order_completed ∷ cs) = suc (completions cs)
completions (c ∷ cs) = completions cs

-- Gauge and counters agree: what was created is what is active, cancelled or completed.
abbrev pub is_balanced : ℕ → Metrics → Bool
is_balanced completed m =
    eqb_ℤ (pos (total m.orders_created_total))
      (m.active_orders_gauge +ℤ pos (m.orders_cancelled_total + completed))

record_call-is_balanced :
    (completed : ℕ) (c : Call) (m : Metrics)
    → is_balanced completed m ≡ true
    → is_balanced (completed + completions (c ∷ [])) (record_call c m) ≡ true
unfolding record_call ◌+ℤ◌ ◌-ℤ◌
record_call-is_balanced completed (order_created status) m h =
    ground (arith, total-inc_label status m.orders_created_total)
record_call-is_balanced completed (payment_failed reason) m h = ground arith
record_call-is_balanced completed order_completed m h = ground arith
record_call-is_balanced completed payment_succeeded m h = ground arith
record_call-is_balanced completed order_cancelled m h = ground arith
record_call-is_balanced completed order_refunded m h = ground arith
record_call-is_balanced completed seat_hold_conflict m h = ground arith
record_call-is_balanced completed (plans_synced n) m h = ground arith

record_calls-is_balanced :
    (completed : ℕ) (cs : List Call) (m : Metrics)
    → is_balanced completed m ≡ true
    → is_balanced (completed + completions cs) (record_calls cs m) ≡ true
record_calls-is_balanced completed [] m h = ground arith
record_calls-is_balanced completed (c ∷ cs) m h = rw (split c cs) (
    record_calls-is_balanced (completed + completions (c ∷ [])) cs (record_call c m)
      (record_call-is_balanced completed c m h))
  where
    split :
        (c : Call) (cs : List Call)
        → completed + completions (c ∷ cs) ≡ completed + completions (c ∷ []) + completions cs
    split (order_created status) cs = omega arith
    split (payment_failed reason) cs = omega arith
    split order_completed cs = omega arith
    split payment_succeeded cs = omega arith
    split order_cancelled cs = omega arith
    split order_refunded cs = omega arith
    split seat_hold_conflict cs = omega arith
    split (plans_synced n) cs = omega arith

-- Whatever calls the program makes, in any order, the number of the orders that were created, of
-- all statuses, is the gauge of the active orders and the orders that were cancelled or completed:
-- a refund alone takes no order off the gauge.
pub active_orders_balance :
    (cs : List Call)
    → let m = record_calls cs no_metrics in
      pos (total m.orders_created_total)
      ≡ m.active_orders_gauge +ℤ pos (m.orders_cancelled_total + completions cs)
unfolding ◌+ℤ◌
active_orders_balance cs =
    let m = record_calls cs no_metrics in
    eqb_ℤ-eq (pos (total m.orders_created_total))
      (m.active_orders_gauge +ℤ pos (m.orders_cancelled_total + completions cs))
      (ground (arith, record_calls-is_balanced 0 cs no_metrics refl))
