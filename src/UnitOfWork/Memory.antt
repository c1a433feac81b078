-- ===== src/UnitOfWork/Memory.antt =====
-- A session that meets the laws: the objects by their ids, and the tables that a commit replaces.
use ticket_genius.Prelude.{◌≡◌, refl, List, [], ◌∷◌, ◌++◌, map}
use ticket_genius.Prelude.Dict.{Dict, lookup, insert}
use ticket_genius.Python.{Exn, Result, ok, err}
use ticket_genius.Domain.Order.{Order}
use ticket_genius.Domain.Payment.{Payment}
use ticket_genius.Domain.Plan.{Plan}
use ticket_genius.UnitOfWork.{Session, OutboxEvent}

pub record Tables : Type 0 where
  pub orders : Dict Order
  pub payments : Dict Payment
  pub plans : Dict Plan
  pub outbox : List OutboxEvent

pub record Memory : Type 0 where
  pub working : Tables
  pub unsaved : Dict Order
  pub committed : Tables

abbrev pub put_order : Order → Memory → Memory
put_order o m = record m {
  working = record m.working { orders = insert o.order_id o m.working.orders };
  unsaved = insert o.order_id o m.unsaved;
}

-- Payments are found by their order.
abbrev pub put_payment : Payment → Memory → Memory
put_payment p m = record m {
  working = record m.working { payments = insert p.order_id p m.working.payments };
}

abbrev pub put_plan : Plan → Memory → Memory
put_plan p m = record m {
  working = record m.working { plans = insert p.plan_id p m.working.plans };
}

abbrev pub add_outbox : OutboxEvent → Memory → Memory
add_outbox e m = record m { working = record m.working { outbox = m.working.outbox ++ e ∷ [] } }

abbrev pub rollback : Memory → Memory
rollback m = record m { working = m.committed; unsaved = [] }

abbrev pub write : Memory → Result (Unit {0}) × Memory
write m = (ok tt, record m { committed = m.working; unsaved = [] })

pub commits : (m : Memory) (e : Exn) → (write m).0 ≡ err e → (write m).1.committed ≡ m.committed
commits m e h = cc h

abbrev pub memory : Session
memory = record {
  State = Memory;
  Stored = Tables;
  stored = λ m. m.committed;
  get_order = λ i m. ok (lookup i m.working.orders);
  get_payment_by_order = λ i m. ok (lookup i m.working.payments);
  get_plan = λ i m. ok (lookup i m.working.plans);
  put_order = put_order;
  put_payment = put_payment;
  put_plan = put_plan;
  unsaved_orders = λ m. map (λ p. p.1) m.unsaved;
  add_outbox = add_outbox;
  commit = write;
  rollback = rollback;
  close = rollback;
  stored-put_order = λ o m. refl;
  stored-put_payment = λ p m. refl;
  stored-put_plan = λ p m. refl;
  stored-commit_failed = commits;
  stored-rollback = λ m. refl;
  stored-close = λ m. refl;
}
