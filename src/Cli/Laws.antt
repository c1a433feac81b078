-- ===== src/Cli/Laws.antt =====
-- What a refund of the command line asks for.
use ticket_genius.Prelude.{ℕ, ◌*◌, ◌≡◌, some, arith}
use ticket_genius.Prelude.Int.{ℤ, pos}
use ticket_genius.Prelude.Text.{Text}
use ticket_genius.Python.{Result, ok}
use ticket_genius.Domain.Decimal.{of_int, int_hundred, is_negative}
use ticket_genius.Domain.Money.{Money, eur, make_money, check_money, to_decimal}
use ticket_genius.Domain.Money.Laws.{cents}
use ticket_genius.Cli.{create_refund}

-- An amount of `n` cents asks for a refund of a hundred times as many.
pub create_refund_hundredfold :
    (hundredfold : Text → Result ℤ) (order_id amount : Text) (n : ℕ)
    → hundredfold amount ≡ ok (pos n)
    → (m : Money) × (create_refund hundredfold order_id amount
        ≡ ok (record { order_id = order_id; amount = some m }))
      × (cents m ≡ 100 * n)
unfolding create_refund make_money check_money to_decimal is_negative of_int int_hundred
create_refund_hundredfold hundredfold order_id amount n h =
    (record { amount = of_int (pos n); currency = eur }, ground arith, omega arith)
