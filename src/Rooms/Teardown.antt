-- ===== src/Rooms/Teardown.antt =====
-- How a room ends (pkg/webrtcgw/room.go), and who can come into it after that.
use lang_stream.Prelude.{ℕ, ◌≡◌, refl, ap, ◌∙◌, true, false, Option, none, some, [], ◌∷◌, arith}
use Prim.Native.String.{String}
use lang_stream.Room.{
  Room, PeerRole, role_caller, role_agent, peer_in, with_peer, is_full, enter, expire, clear,
  emptied, tear_down, entered,
}
use lang_stream.Rooms.{
  Manager, expires_room, removes, tears_down, room_of, without, step, run, room_at, modify, changed,
  remove, leave, join_room, Joined, joined, refused_peer, joined_by,
}
use lang_stream.Rooms.Slots.{room_at-modify}

pub other_role : PeerRole → PeerRole
other_role role_caller = role_agent
other_role role_agent = role_caller

-- A room whose resources are given back.
pub record IsGone (r : Room) : Type 0 where
  pub is_closed : r.closed ≡ true
  pub context_cancelled : r.cancelled ≡ true
  pub session_closed : r.session_open ≡ false
  pub no_timer : r.idle_timer ≡ false

emptied-alone :
    (role : PeerRole) (r : Room)
    → r.closed ≡ false
    → peer_in (other_role role) r ≡ none
    → emptied role r ≡ true
unfolding emptied peer_in other_role with_peer
emptied-alone role_caller r open_still alone = ground (arith, alone, open_still)
emptied-alone role_agent r open_still alone = ground (arith, alone, open_still)

clear-alone :
    (role : PeerRole) (r : Room)
    → r.closed ≡ false
    → peer_in (other_role role) r ≡ none
    → IsGone (tear_down (clear role r))
      × (peer_in role_caller (tear_down (clear role r)) ≡ none)
      × (peer_in role_agent (tear_down (clear role r)) ≡ none)
unfolding clear peer_in other_role with_peer tear_down
clear-alone role_caller r open_still alone = (
  ground (arith, alone, open_still),
  ground (arith, alone, open_still),
  ground (arith, alone, open_still),
)
clear-alone role_agent r open_still alone = (
  ground (arith, alone, open_still),
  ground (arith, alone, open_still),
  ground (arith, alone, open_still),
)

leave-emptied :
    (m : Manager) (id : String) (role : PeerRole) (ref : ℕ) (r : Room)
    → room_of id m.rooms ≡ some ref
    → room_at ref m.store ≡ some r
    → emptied role r ≡ true
    → leave m id role ≡ changed (remove (changed m ref (clear role)) id ref) ref tear_down
unfolding leave
leave-emptied m id role ref r found at last = ground (arith, found, at, last)

-- When the last peer of an open room leaves it, the room is closed and empty, its context cancelled,
-- its timer stopped and its session closed, and the manager's entry for it is removed.
pub last_leave_closes :
    (m : Manager) (id : String) (role : PeerRole) (ref : ℕ) (r : Room)
    → room_of id m.rooms ≡ some ref
    → room_at ref m.store ≡ some r
    → r.closed ≡ false
    → peer_in (other_role role) r ≡ none
    → let m' = leave m id role in
      (gone : Room) × (room_at ref m'.store ≡ some gone)
      × IsGone gone
      × (peer_in role_caller gone ≡ none)
      × (peer_in role_agent gone ≡ none)
      × (m'.rooms ≡ without id ref m.rooms)
last_leave_closes m id role ref r found at open_still alone =
    let e = leave-emptied m id role ref r found at (emptied-alone role r open_still alone) in
    let (gone, no_caller, no_agent) = clear-alone role r open_still alone in
    (
      tear_down (clear role r),
      ap (λ n. room_at ref n.store) e
          ∙ room_at-modify ref tear_down (modify ref (clear role) m.store) (clear role r)
              (room_at-modify ref (clear role) m.store r at),
      gone,
      no_caller,
      no_agent,
      ap (λ n. n.rooms) e,
    )

-- The sections of an expiry of the room `ref`, and of a Join that enters it afterwards.
abbrev pub expired : String → ℕ → Manager → Manager
expired id ref m = run m (expires_room ref ∷ removes id ref ∷ tears_down ref ∷ [])

expire-free :
    (r : Room)
    → r.closed ≡ false
    → is_full r ≡ false
    → tear_down (expire r) ≡ record r {
      caller = none;
      agent = none;
      closed = true;
      idle_timer = false;
      cancelled = true;
      session_open = false;
    }
unfolding expire tear_down
expire-free r open_still free = ground (arith, open_still, free)

enter-empty :
    (r : Room) (role : PeerRole) (p : ℕ)
    → r.caller ≡ none
    → r.agent ≡ none
    → enter r role (some p) ≡ (with_peer role (some p) r, entered)
unfolding enter peer_in with_peer is_full
enter-empty r role_caller p e f = ground (arith, e, f)
enter-empty r role_agent p e f = ground (arith, e, f)

join_empty :
    (m : Manager) (ref : ℕ) (r : Room) (role : PeerRole) (p : ℕ)
    → room_at ref m.store ≡ some r
    → r.caller ≡ none
    → r.agent ≡ none
    → let (m', result) = join_room m ref role (some p) in
      (result ≡ joined ref) × (room_at ref m'.store ≡ some (with_peer role (some p) r))
unfolding join_room
join_empty m ref r role p at e f =
    let seated = enter-empty r role p e f in
    let after = λ (o : Option Room). elim o as (λ _. Manager × Joined) [
      | none ↦ (m, refused_peer)
      | some q ↦
          (changed m ref (λ s. (enter s role (some p)).0), joined_by ref (enter q role (some p)).1)
    ] in
    (
      ap (λ o. (after o).1) at ∙ ap (λ t. joined_by ref t.1) seated,
      ap (λ o. room_at ref (after o).0.store) at
          ∙ room_at-modify ref (λ s. (enter s role (some p)).0) m.store r at
          ∙ ap (λ t. some t.0) seated,
    )

with_peer-IsGone :
    (r : Room) (role : PeerRole) (p : ℕ)
    → IsGone r
    → IsGone (with_peer role (some p) r) × (peer_in role (with_peer role (some p) r) ≡ some p)
unfolding with_peer peer_in
with_peer-IsGone r role_caller p g = (ground arith, refl)
with_peer-IsGone r role_agent p g = (ground arith, refl)

-- When roomFor has returned an open room that is not full, and the room expires before Join has its
-- lock, Join still seats its peer: in a closed room, whose context is cancelled and session closed.
pub expiry_loses_peer :
    (m : Manager) (id : String) (role : PeerRole) (p ref : ℕ) (r : Room)
    → room_at ref m.store ≡ some r
    → r.closed ≡ false
    → is_full r ≡ false
    → let (m', result) = join_room (expired id ref m) ref role (some p) in
      (result ≡ joined ref)
      × (lost : Room) × (room_at ref m'.store ≡ some lost)
      × IsGone lost
      × (peer_in role lost ≡ some p)
unfolding run step
expiry_loses_peer m id role p ref r at open_still free =
    let gone : Room = record r {
      caller = none;
      agent = none;
      closed = true;
      idle_timer = false;
      cancelled = true;
      session_open = false;
    } in
    let at_gone : room_at ref (expired id ref m).store ≡ some gone =
      room_at-modify ref tear_down (modify ref expire m.store) (expire r)
        (room_at-modify ref expire m.store r at)
      ∙ ap some (expire-free r open_still free) in
    let (result, lost_at) = join_empty (expired id ref m) ref gone role p at_gone refl refl in
    let kept = with_peer-IsGone gone role p (record {
      is_closed = refl;
      context_cancelled = refl;
      session_closed = refl;
      no_timer = refl;
    }) in
    (result, with_peer role (some p) gone, lost_at, kept.0, kept.1)
