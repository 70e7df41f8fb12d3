-- ===== src/Rooms/Slots.antt =====
-- Who sits in a room (pkg/webrtcgw/room.go), whatever goroutines do in whatever order.
use lang_stream.Prelude.{
  ℕ, zero, suc, ◌≡◌, refl, ap, subst, ◌∙◌, ◌≢◌, ◌⊎◌, inl, inr, Bool, Bool-cases, Option-cases, true,
  Option, none, some, List, [], ◌∷◌, ◌++◌, arith, ◌==◌, if_cases, ==_iff,
}
use Prim.Native.String.{String}
use lang_stream.Prelude.Int.{pos, ltb_ℤ}
use lang_stream.Room.{
  Room, PeerRole, role_caller, role_agent, peer_in, with_peer, enter, expire, clear, tear_down,
  new_room,
}
use lang_stream.Rooms.{
  Manager, Action, looks_up, starts_timer, enters, expires_room, clears, removes, tears_down,
  look_up, room_of, step, run, room_at, modify, changed,
}

pub room_at-modify :
    (ref : ℕ) (change : Room → Room) (rs : List Room) (r : Room)
    → room_at ref rs ≡ some r
    → room_at ref (modify ref change rs) ≡ some (change r)
unfolding room_at modify
room_at-modify ref change [] r e = ground (arith, e)
room_at-modify zero change (q ∷ rs) r e = ground (arith, e)
room_at-modify (suc ref) change (q ∷ rs) r e = room_at-modify ref change rs r e

room_at-modify_other :
    (ref other : ℕ) (change : Room → Room) (rs : List Room)
    → ref ≢ other
    → room_at ref (modify other change rs) ≡ room_at ref rs
unfolding room_at modify
room_at-modify_other ref other change [] ne = refl
room_at-modify_other zero zero change (q ∷ rs) ne = absurd (ne refl)
room_at-modify_other zero (suc other) change (q ∷ rs) ne = refl
room_at-modify_other (suc ref) zero change (q ∷ rs) ne = refl
room_at-modify_other (suc ref) (suc other) change (q ∷ rs) ne =
    room_at-modify_other ref other change rs (λ e. ne (ap suc e))

room_at-append :
    (ref : ℕ) (rs qs : List Room) (r : Room)
    → room_at ref rs ≡ some r
    → room_at ref (rs ++ qs) ≡ some r
unfolding room_at
room_at-append ref [] qs r e = ground (arith, e)
room_at-append zero (q ∷ rs) qs r e = e
room_at-append (suc ref) (q ∷ rs) qs r e = room_at-append ref rs qs r e

-- The peer p sits in the room under the role.
unfoldable pub Sits : Manager → ℕ → PeerRole → ℕ → Type 0
Sits m ref role p = (r : Room) × (room_at ref m.store ≡ some r) × (peer_in role r ≡ some p)

-- A section that takes nobody of this role out of the room.
unfoldable pub Spares : ℕ → PeerRole → Action → Type 0
Spares ref role (expires_room ref') = ref ≢ ref'
Spares ref role (clears ref' role') = (ref ≢ ref') ⊎ (role ≢ role')
Spares ref role _ = Unit

pub data AllSpare (ref : ℕ) (role : PeerRole) : List Action → Type 0 where
  no_actions : AllSpare ref role []
  spares :
      {a : Action} {acts : List Action}
      → Spares ref role a
      → AllSpare ref role acts
      → AllSpare ref role (a ∷ acts)

enter-kept :
    (r : Room) (role role' : PeerRole) (p : ℕ) (q : Option ℕ)
    → peer_in role r ≡ some p
    → peer_in role (enter r role' q).0 ≡ some p
unfolding enter peer_in with_peer
enter-kept r role_caller role_caller p q e = ground (arith, e)
enter-kept r role_agent role_agent p q e = ground (arith, e)
enter-kept r role_caller role_agent p none e = ground (arith, e)
enter-kept r role_caller role_agent p (some q) e = ground (arith, e)
enter-kept r role_agent role_caller p none e = ground (arith, e)
enter-kept r role_agent role_caller p (some q) e = ground (arith, e)

clear-kept :
    (r : Room) (role role' : PeerRole) (p : ℕ)
    → role ≢ role'
    → peer_in role r ≡ some p
    → peer_in role (clear role' r) ≡ some p
unfolding clear peer_in with_peer
clear-kept r role_caller role_caller p ne e = absurd (ne refl)
clear-kept r role_agent role_agent p ne e = absurd (ne refl)
clear-kept r role_caller role_agent p ne e = ground (arith, e)
clear-kept r role_agent role_caller p ne e = ground (arith, e)

idle_timer-kept :
    (r : Room) (role : PeerRole) (b : Bool)
    → peer_in role (record r { idle_timer = b }) ≡ peer_in role r
unfolding peer_in
idle_timer-kept r role_caller b = refl
idle_timer-kept r role_agent b = refl

tear_down-kept : (r : Room) (role : PeerRole) → peer_in role (tear_down r) ≡ peer_in role r
unfolding peer_in tear_down
tear_down-kept r role_caller = refl
tear_down-kept r role_agent = refl

module _ (ref : ℕ) (role : PeerRole) (p : ℕ) where
  -- A change of the rooms that keeps the peer where it applies.
  Sits-changed :
      (m : Manager) (ref' : ℕ) (change : Room → Room)
      → ((r : Room) → ref ≡ ref' → peer_in role r ≡ some p → peer_in role (change r) ≡ some p)
      → Sits m ref role p
      → Sits (changed m ref' change) ref role p
  unfolding Sits
  Sits-changed m ref' change keeps (r, at, sits) = elim (Bool-cases (ref == ref')) [
    | inl e ↦
        let same : ref ≡ ref' = (==_iff ref ref').0 e in
        (
          change r,
          subst (λ k. room_at ref (modify k change m.store) ≡ some (change r)) same
              (room_at-modify ref change m.store r at),
          keeps r same sits,
        )
    | inr e ↦ (r, room_at-modify_other ref ref' change m.store (λ same. ground arith) ∙ at, sits)
  ]

  look_up-Sits :
      (m : Manager) (id : String) (ok : Bool)
      → Sits m ref role p
      → Sits (look_up m id ok).0 ref role p
  unfolding look_up Sits
  look_up-Sits m id ok (r, at, sits) = (r, stored, sits)
    where
      longer : room_at ref (m.store ++ new_room id ∷ []) ≡ some r
      longer = room_at-append ref m.store (new_room id ∷ []) r at

      stored : room_at ref (look_up m id ok).0.store ≡ some r
      stored = elim (Option-cases (room_of id m.rooms)) [
        | inl e ↦ ground (arith, e, at, longer)
        | inr (found, e) ↦ ground (arith, e, at)
      ]

  step-Sits :
      (m : Manager) (a : Action)
      → Spares ref role a
      → Sits m ref role p
      → Sits (step m a) ref role p
  unfolding step Spares Sits
  step-Sits m (looks_up id ok) spared s = look_up-Sits m id ok s
  step-Sits m (starts_timer ref') spared s =
      if_cases (λ n. Sits n ref role p) (ltb_ℤ (pos 0) m.idle_timeout)
        (changed m ref' (λ r. record r { idle_timer = true })) m
        (λ _.
          Sits-changed m ref' (λ r. record r { idle_timer = true })
            (λ r _ e. idle_timer-kept r role true ∙ e) s)
        (λ _. s)
  step-Sits m (enters ref' role' q) spared s =
      Sits-changed m ref' (λ r. (enter r role' q).0) (λ r _ e. enter-kept r role role' p q e) s
  step-Sits m (expires_room ref') spared s =
      Sits-changed m ref' expire (λ r same _. absurd (spared same)) s
  step-Sits m (clears ref' role') (inl apart) s =
      Sits-changed m ref' (clear role') (λ r same _. absurd (apart same)) s
  step-Sits m (clears ref' role') (inr apart) s =
      Sits-changed m ref' (clear role') (λ r _ e. clear-kept r role role' p apart e) s
  step-Sits m (removes id ref') spared s = s
  step-Sits m (tears_down ref') spared s =
      Sits-changed m ref' tear_down (λ r _ e. tear_down-kept r role ∙ e) s

  -- A peer that has joined a room keeps its seat through all that goroutines do in any order, further
  -- joins under its role included, until its room expires or someone leaves the room under its role.
  pub seat_kept :
      (m : Manager) (acts : List Action)
      → AllSpare ref role acts
      → Sits m ref role p
      → Sits (run m acts) ref role p
  unfolding run
  seat_kept m [] no_actions s = s
  seat_kept m (a ∷ acts) (spares spared more) s =
      seat_kept (step m a) acts more (step-Sits m a spared s)
