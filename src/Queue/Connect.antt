-- ===== src/Queue/Connect.antt =====
-- ConnectMQ of center/server/mq.go. How the calls of the AMQP library end is a parameter; `none` is a
-- nil error.
use swarm_compute.Base.{
  ℕ, zero, suc, ◌+◌, Option, none, some, Bool, true, false, Error, Result, ok, err, errorf_wrap,
}

pub record Calls : Type 0 where
  pub dial : ℕ → Option Error  -- in each attempt, from 0
  pub channel : Option Error
  pub queue_declare : Option Error
  pub qos : Option Error

-- What is behind the call: the dials made, what is open, and the result; an MQ holds what is open.
pub record Connected : Type 0 where
  pub dials : ℕ
  pub conn_open : Bool
  pub ch_open : Bool
  pub result : Result (Unit {0})

abbrev pub max_dials : ℕ
max_dials = 30

-- the loop, with the error of the last dial
unfoldable pub dial_loop : (ℕ → Option Error) → ℕ → ℕ → Option Error → ℕ × Option Error
dial_loop dial zero i last = (i, last)
dial_loop dial (suc n) i last = elim (dial i) [
  | none ↦ (i + 1, none)
  | some e ↦ dial_loop dial n (i + 1) (some e)
]

-- What an error leaves: the code closes what is open, and returns.
abbrev pub given_up : ℕ → Error → Connected
given_up n e = record { dials = n; conn_open = false; ch_open = false; result = err e }

-- behind the loop, on an open connection
abbrev pub open_channel : Option Error → Option Error → Option Error → ℕ → Connected
open_channel (some e) declared qos n = given_up n (errorf_wrap "failed to open channel: " e)
open_channel none (some e) qos n = given_up n (errorf_wrap "failed to declare queue: " e)
open_channel none none (some e) n = given_up n (errorf_wrap "failed to set QoS: " e)
open_channel none none none n = record {
  dials = n;
  conn_open = true;
  ch_open = true;
  result = ok tt;
}

-- behind the loop, with the number of dials and the last error
abbrev pub after_dials : Calls → ℕ × Option Error → Connected
after_dials calls (n, some e) =
    given_up n (errorf_wrap "failed to connect to rabbitmq after 30 attempts: " e)
after_dials calls (n, none) = open_channel calls.channel calls.queue_declare calls.qos n

unfoldable pub connect_mq : Calls → Connected
unfolding dial_loop
connect_mq calls = after_dials calls (dial_loop calls.dial max_dials 0 none)

-- Close
abbrev pub close_mq : Connected → Connected
close_mq c = record c { conn_open = false; ch_open = false }
