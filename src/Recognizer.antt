-- ===== src/Recognizer.antt =====
-- The stream sessions of pkg/asr/deepgram.go and pkg/asr/sarvam.go: their connection, and what they tell
-- the recognizer's circuit breaker. The two have the same code here but for the vendor's URL, header
-- and messages. A push is one step: what happens within it is a loss that the read loop notices; a Close
-- or another push during its dial is not modelled. Recognizer/Shared is a recognizer with all its
-- sessions, which take these steps in any order and share its breaker.
pub mod Languages
pub mod Messages
pub mod Shared
pub mod Settled
pub mod Probed
pub mod Reconnects
use lang_stream.Prelude.{
  ℕ, zero, suc, ◌+◌, ◌-◌, ◌*◌, ◌/◌, ◌%◌, ◌^◌, ◌≤◌, ◌<◌, ◌≡◌, refl, sym, ap, ap₂, subst, ◌∙◌, ◌≢◌,
  ◌↔◌, ◌⊎◌, inl, inr, Bool, Bool-cases, Option-cases, true, false, not, ◌&&◌, ◌||◌, Option, none,
  some, List, [], ◌∷◌, ◌++◌, map, arith, ltb, leb, ◌==◌, if◌then◌else◌, if_cases, length, take,
  ==_iff,
}
use lang_stream.Breaker.{CircuitBreaker, allow, record_success, record_failure, abort}

-- Why a session fails: what PushAudio and the vendor's error messages pass to failAndClose. With an
-- error of the dial comes whether it is the context's.
pub data SessionError : Type 0 where
  session_closed exceeded_attempts wait_canceled bad_url write_failed vendor_error : SessionError
  dial_failed : (canceled : Bool) → SessionError

-- The session's state. `connected` is `conn != nil`.
pub record StreamSession : Type 0 where
  pub connected : Bool
  pub gen : ℕ
  pub closed : Bool
  pub reconnect_attempts : ℕ
  pub fatal_err : Option SessionError
  pub connected_once : Bool
  pub breaker_settled : Bool
  pub cancelled : Bool

-- What a method of a session reads and writes: the session's state and, through `s.r`, the breaker of
-- the recognizer, which is one for all its sessions.
pub record SessionView : Type 0 where
  pub connected : Bool
  pub gen : ℕ
  pub closed : Bool
  pub reconnect_attempts : ℕ
  pub fatal_err : Option SessionError
  pub connected_once : Bool
  pub breaker_settled : Bool
  pub cancelled : Bool
  pub breaker : CircuitBreaker

abbrev pub view : CircuitBreaker → StreamSession → SessionView
view b s = record {
  connected = s.connected;
  gen = s.gen;
  closed = s.closed;
  reconnect_attempts = s.reconnect_attempts;
  fatal_err = s.fatal_err;
  connected_once = s.connected_once;
  breaker_settled = s.breaker_settled;
  cancelled = s.cancelled;
  breaker = b;
}

abbrev pub session_of : SessionView → StreamSession
session_of v = record {
  connected = v.connected;
  gen = v.gen;
  closed = v.closed;
  reconnect_attempts = v.reconnect_attempts;
  fatal_err = v.fatal_err;
  connected_once = v.connected_once;
  breaker_settled = v.breaker_settled;
  cancelled = v.cancelled;
}

abbrev pub new_stream_session : StreamSession
new_stream_session = record {
  connected = false;
  gen = 0;
  closed = false;
  reconnect_attempts = 0;
  fatal_err = none;
  connected_once = false;
  breaker_settled = false;
  cancelled = false;
}

-- StartStream, for a language that the recognizer supports: none when the breaker refuses.
unfoldable pub start_stream : CircuitBreaker → (now : ℕ) → CircuitBreaker × Option StreamSession
start_stream b now =
    let (b', allowed) = allow b now in (b', if allowed then some new_stream_session else none)

-- What a dial meets: whether the session's context ends during the wait before it, whether the URL is
-- good, and the dial's error, with whether it is the context's; none for a connection.
pub record Dialing : Type 0 where
  pub wait_cut : Bool
  pub url_ok : Bool
  pub dial_error : Option Bool

-- The last section of ensureConnected: the connection is made.
unfoldable pub connect : SessionView → SessionView
connect s =
    let first_connect = not s.connected_once && not s.breaker_settled in
    record s {
      connected = true;
      gen = s.gen + 1;
      connected_once = s.connected_once || first_connect;
      breaker_settled = s.breaker_settled || first_connect;
      breaker = if first_connect then record_success s.breaker else s.breaker;
    }

-- The state, and the error if there is one.
unfoldable pub ensure_connected :
    (max_attempts : ℕ) → Dialing → SessionView → SessionView × Option SessionError
unfolding connect
ensure_connected max_attempts d s =
    if s.connected
    then (s, none)
    else if s.closed
    then (s, some session_closed)
    else if leb max_attempts s.reconnect_attempts
    then (s, some exceeded_attempts)
    else if ltb 0 s.reconnect_attempts && d.wait_cut
    then (s, some wait_canceled)
    else if not d.url_ok
    then (s, some bad_url)
    else elim d.dial_error [
      | some canceled ↦
          (record s { reconnect_attempts = s.reconnect_attempts + 1 }, some (dial_failed canceled))
      | none ↦ (connect s, none)
    ]

-- `err == nil || errors.Is(err, context.Canceled) || errors.Is(err, context.DeadlineExceeded)`.
unfoldable pub is_no_signal : Option SessionError → Bool
is_no_signal none = true
is_no_signal (some wait_canceled) = true
is_no_signal (some (dial_failed canceled)) = canceled
is_no_signal (some _) = false

-- At the time `now`.
unfoldable pub settle_breaker : (now : ℕ) → Option SessionError → SessionView → SessionView
unfolding is_no_signal
settle_breaker now err s = if s.breaker_settled then s else record s {
  breaker_settled = true;
  breaker =
      if s.connected_once
      then s.breaker
      else if is_no_signal err
      then abort s.breaker
      else record_failure s.breaker now;
}

unfoldable pub fail_and_close : (now : ℕ) → SessionError → SessionView → SessionView
unfolding settle_breaker
fail_and_close now err s =
    if s.closed
    then s
    else record (settle_breaker now (some err)
        (record s { closed = true; fatal_err = some err; connected = false })) { cancelled = true }

-- Close.
unfoldable pub close : (now : ℕ) → SessionView → SessionView
unfolding settle_breaker
close now s =
    if s.closed
    then s
    else record (settle_breaker now none (record s { closed = true; connected = false })) {
      cancelled = true;
    }

-- onConnLost, called by the read loop of a connection.
unfoldable pub on_conn_lost : (gen : ℕ) → SessionView → SessionView
on_conn_lost gen s = if s.closed || not (gen == s.gen) then s else record s { connected = false }

-- What a PushAudio meets: the caller's context, the dial before the write, whether the read loop has
-- noticed a loss by the write and by the second dial, the writes, and the second dial.
pub record Pushing : Type 0 where
  pub ended : Bool
  pub first_dial : Dialing
  pub lost_before_write : Bool
  pub write_ok : Bool
  pub lost_after_write : Bool
  pub second_dial : Dialing
  pub second_write_ok : Bool
  pub now : ℕ

pub data Pushed : Type 0 where
  accepted : Pushed
  context_done : Pushed
  refused : Option SessionError → Pushed
  failed : SessionError → Pushed

abbrev pub noticed : Bool → SessionView → SessionView
noticed lost s = if lost then on_conn_lost s.gen s else s

-- A write: an error when there is no connection.
abbrev pub wrote : Bool → SessionView → Bool
wrote ok s = s.connected && ok

-- From the second dial on.
unfoldable pub write_again : Pushing → SessionView × Option SessionError → SessionView × Pushed
unfolding fail_and_close
write_again p (s, some err) = (fail_and_close p.now err s, failed err)
write_again p (s, none) =
    if wrote p.second_write_ok s
    then (s, accepted)
    else (fail_and_close p.now write_failed s, failed write_failed)

-- From the first write on.
unfoldable pub write_first :
    (max_attempts : ℕ) → Pushing → SessionView × Option SessionError → SessionView × Pushed
unfolding fail_and_close ensure_connected write_again on_conn_lost
write_first max_attempts p (s, some err) = (fail_and_close p.now err s, failed err)
write_first max_attempts p (s, none) =
    let s' = noticed p.lost_before_write s in
    if wrote p.write_ok s'
    then (s', accepted)
    else write_again p (ensure_connected max_attempts p.second_dial (noticed p.lost_after_write s'))

unfoldable pub push_audio : (max_attempts : ℕ) → Pushing → SessionView → SessionView × Pushed
unfolding ensure_connected write_first
push_audio max_attempts p s =
    if p.ended
    then (s, context_done)
    else if s.closed
    then (s, refused s.fatal_err)
    else write_first max_attempts p (ensure_connected max_attempts p.first_dial s)

-- What happens to a session: a push, a loss noticed by the read loop of a connection, an error message
-- of the vendor, and Close.
pub data Event : Type 0 where
  pushes : Pushing → Event
  loses : (gen : ℕ) → Event
  complains : (now : ℕ) → Event
  closes : (now : ℕ) → Event

unfoldable pub step : (max_attempts : ℕ) → SessionView → Event → SessionView
unfolding push_audio on_conn_lost fail_and_close close
step max_attempts s (pushes p) = (push_audio max_attempts p s).0
step max_attempts s (loses gen) = on_conn_lost gen s
step max_attempts s (complains now) = fail_and_close now vendor_error s
step max_attempts s (closes now) = close now s
