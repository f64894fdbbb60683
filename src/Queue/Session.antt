-- ===== src/Queue/Session.antt =====
-- citra_queue/queue.py: the commands that the consumer side sends to Redis. Redis is known by its
-- replies alone: a command is applied, or it is not and raises, or it is applied but raises all
-- the same (a lost reply).
use citra_flows.Common.{ℕ, ◌+◌, String, List, [], ◌∷◌}
use citra_flows.Value.{ℤ, Value}

pub data Status : Type 0 where
  queued running done failed : Status

pub data Command : Type 0 where
  -- HSET of the job's hash: its identifier, the status and the number of retries
  hset : Value → Status → ℤ → Command
  -- HSET of the job's hash with the result
  hset_result : Value → Value → Command
  expire : Value → Command
  xack : String → Command
  xdel : String → Command
  -- ZADD to the retry set of a queue, with the delay that it is given
  zadd_retry : Value → String → ℕ → Command
  -- XADD to the dead-letter stream of a queue
  xadd_dlq : Value → String → Command
  -- the transaction of `enqueue`: HSET, EXPIRE and XADD to the stream of a queue
  enqueued : Value → Value → String → Command
  -- SET of the job's result signal
  signal : Value → Command

pub data Reply : Type 0 where
  applied not_applied lost_reply : Reply

-- The applied commands, newest first, and the number of commands sent.
pub record Session : Type 0 where
  pub sent : ℕ
  pub log : List Command

abbrev pub new_session : Session
new_session = record { sent = 0; log = [] }

-- How a function that sends commands ends.
pub data Ended {ℓ} (A : Type ℓ) : Type ℓ where
  returned : A → Session → Ended A
  raised : Session → Ended A

abbrev pub applies : Command → Session → Session
applies c s = record { sent = s.sent + 1; log = c ∷ s.log }

abbrev pub misses : Session → Session
misses s = record s { sent = s.sent + 1 }

module _ {ℓ} {A : Type ℓ} where
  -- Goes on by `next` where the reply is good, and by `fail` where the command raises.
  unfoldable pub on_reply : Reply → Command → (Session → A) → (Session → A) → Session → A
  on_reply applied c next fail s = next (applies c s)
  on_reply not_applied c next fail s = fail (misses s)
  on_reply lost_reply c next fail s = fail (applies c s)

  -- Sends a command to a Redis that answers the commands by `replies`.
  abbrev pub send : (ℕ → Reply) → Command → (Session → A) → (Session → A) → Session → A
  send replies c next fail s = on_reply (replies s.sent) c next fail s

-- A property of the three ways in which a command ends holds of the command.
pub send_ind {ℓ κ} :
    {A : Type ℓ} (P : A → Type κ) (reply : Reply) (c : Command) (next fail : Session → A)
    (s : Session)
    → P (next (applies c s))
    → P (fail (misses s))
    → P (fail (applies c s))
    → P (on_reply reply c next fail s)
unfolding on_reply
send_ind P applied c next fail s p q r = p
send_ind P not_applied c next fail s p q r = q
send_ind P lost_reply c next fail s p q r = r
