-- ===== src/Tests/ActorRef.antt =====
-- Calls of src/actor_ref.rs that time out, fail and panic.
use rsactor.Base.{ℕ, ◌≡◌, none, some, [], true, false}
use rsactor.Error.{tell, tell_priority, blocking_tell, blocking_tell_priority}
use rsactor.ActorRef.Call.{
  full, replied, after_admission, current_thread, multi_thread, Answers, Target,
}
use rsactor.ActorRef.Send.{tell_call, tell_with_timeout, tell_priority_call}
use rsactor.ActorRef.Blocking.{blocking_tell_call, blocking_tell_priority_call}
use rsactor.ActorRef.Letters.{worker_admits, IsAccounted}
use rsactor.ActorRef.Control.{Strong}
use rsactor.ActorRef.Signals.{stop_call}
use rsactor.ActorRef.Signals.Laws.{admissions, letters_of, has_panicked, has_failed, stop_like_tell}
use rsactor.ActorRef.Tells.{tells-IsAccounted}
use rsactor.Tests.Deadlock.{first, third, waiting}

abbrev time_limit : ℕ
time_limit = 10

-- how often the message is in a channel
abbrev none_yet : ℕ
none_yet = 0

abbrev target : Target
target = record { identity = first; message_type = "Ping"; reply_type = "Pong" }

-- The third actor calls the first, which waits on it; the deadline passes with the message in the
-- channel.
abbrev from_third : Answers ℕ ℕ
from_third = record {
  detection = true;
  current_actor = some third;
  wait_for = waiting;
  priority_enabled = true;
  try_send = full;
  send_delivers = true;
  reply = replied 4;
  deadline = after_admission;
  runtime = current_thread;
  can_block = true;
  can_block_in_place = true;
  time_driver = true;
  worker_panic = none;
  panic_text = none;
  spawn_error = none;
  build_error = none;
}

-- The first actor tells itself, on a full mailbox.
abbrev from_itself : Answers ℕ (Unit {0})
from_itself = record {
  detection = true;
  current_actor = some first;
  wait_for = waiting;
  priority_enabled = true;
  try_send = full;
  send_delivers = true;
  reply = replied tt;
  deadline = after_admission;
  runtime = multi_thread;
  can_block = true;
  can_block_in_place = true;
  time_driver = true;
  worker_panic = none;
  panic_text = none;
  spawn_error = none;
  build_error = none;
}

tells-IsAccounted_example :
    IsAccounted 0 target tell (tell_call {Time = ℕ} from_itself target)
    × IsAccounted 0 target tell (tell_with_timeout from_itself target time_limit)
    × IsAccounted 0 target tell_priority (tell_priority_call from_itself target time_limit)
    × IsAccounted
        (worker_admits from_itself)
        target
        blocking_tell
        (blocking_tell_call from_itself target (some time_limit))
    × IsAccounted
        (worker_admits from_itself)
        target
        blocking_tell_priority
        (blocking_tell_priority_call from_itself target time_limit)
tells-IsAccounted_example = tells-IsAccounted ℕ from_itself target time_limit (some time_limit)

stop_like_tell_example :
    (admissions (stop_call {Time = ℕ} from_itself target)
      ≡ admissions (tell_call {Time = ℕ} from_itself target))
    × (has_panicked (stop_call {Time = ℕ} from_itself target)
        ≡ has_panicked (tell_call {Time = ℕ} from_itself target))
    × (has_failed (stop_call {Time = ℕ} from_itself target) ≡ false)
    × (letters_of (stop_call {Time = ℕ} from_itself target) ≡ [])
stop_like_tell_example = stop_like_tell ℕ from_itself target

abbrev strong_first : Strong
strong_first = record {
  identity = first;
  sender = record { is_closed = false };
  terminate_sender = record { is_closed = false };
  priority_sender = some (record { is_closed = true });
  idle_subscribe_sender = none;
}
