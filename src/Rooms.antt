-- ===== src/Rooms.antt =====
-- pkg/webrtcgw/room.go: the rooms of a manager. A *Room is its place in the store, since a room that
-- is closed is still held by the goroutines that found it. Every section under a lock is a step; the
-- WebRTC peers, the sessions and the timers are the environment: a peer is a number.
pub mod Capacity
pub mod Slots
pub mod Teardown
use lang_stream.Prelude.{
  ℕ, zero, suc, ◌+◌, ◌-◌, ◌*◌, ◌/◌, ◌%◌, ◌^◌, ◌≤◌, ◌<◌, ◌≡◌, refl, sym, ap, ap₂, subst, ◌∙◌, ◌≢◌,
  ◌↔◌, ◌⊎◌, inl, inr, Bool, Bool-cases, Option-cases, true, false, not, ◌&&◌, ◌||◌, Option, none,
  some, List, [], ◌∷◌, ◌++◌, map, arith, ltb, leb, ◌==◌, if◌then◌else◌, if_cases, length,
}
use Prim.Native.String.{String}
use text.Mathlib.Text.{◌==◌ as str_eq}
use lang_stream.Prelude.Int.{ℤ, pos, ltb_ℤ, leb_ℤ}
use lang_stream.Room.{
  PeerRole, role_caller, role_agent, Room, new_room, Entry, entered, err_role_taken, peer_failed,
  peer_in, with_peer, is_there, is_full, enter, expire, expires, clear, emptied, tear_down,
}

-- `rooms` is the map from ids to rooms; `store` holds every room that was ever made.
pub record Manager : Type 0 where
  pub idle_timeout : ℤ
  pub max_rooms : ℤ
  pub rooms : List (String × ℕ)
  pub store : List Room

-- 2 min.
abbrev pub default_room_idle_timeout : ℤ
default_room_idle_timeout = pos 120_000_000_000

-- The options: WithIdleTimeout and WithMaxRooms.
pub data ManagerOption : Type 0 where
  with_idle_timeout with_max_rooms : ℤ → ManagerOption

unfoldable pub apply_option : Manager → ManagerOption → Manager
apply_option m (with_idle_timeout d) = record m { idle_timeout = d }
apply_option m (with_max_rooms n) = record m { max_rooms = n }

unfoldable pub apply_options : Manager → List ManagerOption → Manager
unfolding apply_option
apply_options m [] = m
apply_options m (o ∷ os) = apply_options (apply_option m o) os

unfoldable pub new_manager : List ManagerOption → Manager
unfolding apply_options
new_manager opts =
    apply_options
      (record {
        idle_timeout = default_room_idle_timeout;
        max_rooms = pos 0;
        rooms = [];
        store = [];
      })
      opts

unfoldable pub room_of : String → List (String × ℕ) → Option ℕ
room_of k [] = none
room_of k ((i, ref) ∷ rooms) = if str_eq i k then some ref else room_of k rooms

-- `if m.rooms[roomID] == room { delete(m.rooms, roomID) }`.
unfoldable pub without : String → ℕ → List (String × ℕ) → List (String × ℕ)
without k ref [] = []
without k ref ((i, r) ∷ rooms) =
    if str_eq i k
    then (if r == ref then rooms else (i, r) ∷ rooms)
    else (i, r) ∷ without k ref rooms

-- The store after a change of one room.
unfoldable pub modify : ℕ → (Room → Room) → List Room → List Room
modify ref change [] = []
modify zero change (r ∷ rs) = change r ∷ rs
modify (suc ref) change (r ∷ rs) = r ∷ modify ref change rs

abbrev pub changed : Manager → ℕ → (Room → Room) → Manager
changed m ref change = record m { store = modify ref change m.store }

-- What the section of roomFor under the manager's lock finds.
pub data Found : Type 0 where
  existing created : (ref : ℕ) → Found
  max_rooms_reached session_failed : Found

-- That section; `session_ok` is whether the session factory succeeds. What follows for an existing room,
-- the look at `closed` under its own lock, is in `join`.
unfoldable pub look_up : Manager → String → (session_ok : Bool) → Manager × Found
unfolding room_of
look_up m id session_ok = elim (room_of id m.rooms) [
  | some ref ↦ (m, existing ref)
  | none ↦
      if ltb_ℤ (pos 0) m.max_rooms && leb_ℤ m.max_rooms (pos (length m.rooms))
      then (m, max_rooms_reached)
      else if session_ok
      then (
        record m { rooms = (id, length m.store) ∷ m.rooms; store = m.store ++ new_room id ∷ [] },
        created (length m.store),
      )
      else (m, session_failed)
]

-- The section of roomFor that starts the timer of a new room.
unfoldable pub start_timer : Manager → ℕ → Manager
unfolding modify
start_timer m ref =
    if ltb_ℤ (pos 0) m.idle_timeout then changed m ref (λ r. record r { idle_timer = true }) else m

abbrev pub remove : Manager → String → ℕ → Manager
remove m id ref = record m { rooms = without id ref m.rooms }

-- One section of any goroutine, on its arguments.
pub data Action : Type 0 where
  looks_up : String → (session_ok : Bool) → Action
  starts_timer : (ref : ℕ) → Action
  enters : (ref : ℕ) → PeerRole → Option ℕ → Action
  expires_room : (ref : ℕ) → Action
  clears : (ref : ℕ) → PeerRole → Action
  removes : String → (ref : ℕ) → Action
  tears_down : (ref : ℕ) → Action

unfoldable pub step : Manager → Action → Manager
unfolding look_up start_timer enter expire clear tear_down modify without
step m (looks_up id ok) = (look_up m id ok).0
step m (starts_timer ref) = start_timer m ref
step m (enters ref role p) = changed m ref (λ r. (enter r role p).0)
step m (expires_room ref) = changed m ref expire
step m (clears ref role) = changed m ref (clear role)
step m (removes id ref) = remove m id ref
step m (tears_down ref) = changed m ref tear_down

-- Any sections of any goroutines, one after the other.
unfoldable pub run : Manager → List Action → Manager
unfolding step
run m [] = m
run m (a ∷ more) = run (step m a) more

unfoldable pub room_at : ℕ → List Room → Option Room
room_at ref [] = none
room_at zero (r ∷ rs) = some r
room_at (suc ref) (r ∷ rs) = room_at ref rs

unfoldable pub room_count : Manager → ℕ
room_count m = length m.rooms

-- leave, with nothing between its sections.
unfoldable pub leave : Manager → String → PeerRole → Manager
unfolding room_of room_at emptied clear tear_down without modify
leave m id role = elim (room_of id m.rooms) [
  | none ↦ m
  | some ref ↦ elim (room_at ref m.store) [
    | none ↦ m
    | some r ↦
        if emptied role r
        then changed (remove (changed m ref (clear role)) id ref) ref tear_down
        else changed m ref (clear role)
  ]
]

-- expireIncomplete, with nothing between its sections.
unfoldable pub expire_incomplete : Manager → String → ℕ → Manager
unfolding room_at expires expire tear_down without modify
expire_incomplete m id ref = elim (room_at ref m.store) [
  | none ↦ m
  | some r ↦ if expires r then changed (remove (changed m ref expire) id ref) ref tear_down else m
]

-- What Join returns.
pub data Joined : Type 0 where
  joined : (ref : ℕ) → Joined
  refused_role refused_peer refused_full refused_session : Joined

abbrev pub joined_by : ℕ → Entry → Joined
joined_by ref entered = joined ref
joined_by ref err_role_taken = refused_role
joined_by ref peer_failed = refused_peer

-- The sections of Join from a room on that roomFor has returned.
unfoldable pub join_room : Manager → ℕ → PeerRole → Option ℕ → Manager × Joined
unfolding room_at enter modify
join_room m ref role p = elim (room_at ref m.store) [
  | none ↦ (m, refused_peer)
  | some r ↦ (changed m ref (λ r. (enter r role p).0), joined_by ref (enter r role p).1)
]

-- Join, with nothing between its sections: none where roomFor finds a closed room that its goroutine
-- has not removed, since it then looks again until another goroutine has.
unfoldable pub join :
    Manager → String → PeerRole → (session_ok : Bool) → Option ℕ → Option (Manager × Joined)
unfolding look_up start_timer join_room room_at
join m id role session_ok p =
    let (m', found) = look_up m id session_ok in
    elim found [
      | max_rooms_reached ↦ some (m', refused_full)
      | session_failed ↦ some (m', refused_session)
      | created ref ↦ some (join_room (start_timer m' ref) ref role p)
      | existing ref ↦ elim (room_at ref m'.store) [
        | none ↦ none
        | some r ↦ if r.closed then none else some (join_room m' ref role p)
      ]
    ]
