-- ===== src/Cli.antt =====
-- cli/commands.py: the command `create-refund`.
pub mod Ended
pub mod Keys
pub mod Stale
pub mod Health
pub mod Bus
pub mod Outbox
pub mod Laws
use ticket_genius.Prelude.{ℕ, Option, some}
use ticket_genius.Prelude.Int.{ℤ}
use ticket_genius.Prelude.Text.{Text}
use ticket_genius.Python.{Result, ok, err, ◌>>=◌}
use ticket_genius.Domain.Money.{eur, RawAmount, make_money}
use ticket_genius.Handlers.Commands.{RefundOrderCommand}

-- `hundredfold` is `int(float(amount) * 100)`, which raises for what is no number.
unfoldable pub create_refund : (Text → Result ℤ) → Text → Text → Result RefundOrderCommand
unfolding make_money
create_refund hundredfold order_id amount = do
  n ← hundredfold amount
  money ← make_money (RawAmount.integer n) eur
  ok (record { order_id = order_id; amount = some money })
