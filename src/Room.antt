-- ===== src/Room.antt =====
-- pkg/webrtcgw/room.go: one room of a manager, and what each section under the room's lock does with
-- it. The WebRTC peers, the session and the timer are the environment: a peer is a number.
use lang_stream.Prelude.{ℕ, Bool, true, false, not, ◌&&◌, ◌||◌, Option, none, some, if◌then◌else◌}
use Prim.Native.String.{String}

pub data PeerRole : Type 0 where
  role_caller role_agent : PeerRole

-- `session_open` until the session's Close, `cancelled` from the context's cancel on.
pub record Room : Type 0 where
  pub id : String
  pub caller : Option ℕ
  pub agent : Option ℕ
  pub closed : Bool
  pub idle_timer : Bool
  pub cancelled : Bool
  pub session_open : Bool

abbrev pub new_room : String → Room
new_room id = record {
  id = id;
  caller = none;
  agent = none;
  closed = false;
  idle_timer = false;
  cancelled = false;
  session_open = true;
}

-- What the section of Join under the room's lock returns.
pub data Entry : Type 0 where
  entered err_role_taken peer_failed : Entry

unfoldable pub peer_in : PeerRole → Room → Option ℕ
peer_in role_caller r = r.caller
peer_in role_agent r = r.agent

unfoldable pub with_peer : PeerRole → Option ℕ → Room → Room
with_peer role_caller p r = record r { caller = p }
with_peer role_agent p r = record r { agent = p }

abbrev pub is_there : Option ℕ → Bool
is_there none = false
is_there (some p) = true

unfoldable pub is_full : Room → Bool
is_full r = is_there r.caller && is_there r.agent

-- The section of Join on its room: `p` is the new peer, or none if newPeer fails.
unfoldable pub enter : Room → PeerRole → Option ℕ → Room × Entry
unfolding peer_in with_peer is_full
enter r role p = if is_there (peer_in role r) then (r, err_role_taken) else elim p [
  | none ↦ (r, peer_failed)
  | some peer ↦
      let r' = with_peer role (some peer) r in
      (if is_full r' then record r' { idle_timer = false } else r', entered)
]

-- The section of expireIncomplete under the room's lock.
unfoldable pub expire : Room → Room
unfolding is_full
expire r =
    if r.closed || is_full r then r else record r { closed = true; caller = none; agent = none }

-- Whether expireIncomplete goes on to remove and tear down the room.
unfoldable pub expires : Room → Bool
unfolding is_full
expires r = not (r.closed || is_full r)

-- The section of leave under the room's lock.
unfoldable pub clear : PeerRole → Room → Room
unfolding with_peer
clear role r =
    let r' = with_peer role none r in
    if r.closed
    then r
    else if is_there r'.caller || is_there r'.agent
    then r'
    else record r' { closed = true }

-- Whether leave goes on to remove and tear down the room.
unfoldable pub emptied : PeerRole → Room → Bool
unfolding with_peer
emptied role r =
    let r' = with_peer role none r in not r.closed && not (is_there r'.caller || is_there r'.agent)

-- The timer's stop, `room.cancel()` and `room.session.Close()`; an expired timer has stopped.
unfoldable pub tear_down : Room → Room
tear_down r = record r { idle_timer = false; cancelled = true; session_open = false }
