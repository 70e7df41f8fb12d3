-- ===== src/Rooms/Capacity.antt =====
-- The number of rooms of a manager (pkg/webrtcgw/room.go), whatever goroutines do in whatever order.
use lang_stream.Prelude.{
  ℕ, ◌≤◌, ◌≡◌, refl, sym, subst, ◌∙◌, inl, inr, Bool, Option-cases, true, List, [], ◌∷◌, arith,
  length,
}
use Prim.Native.String.{String}
use lang_stream.Prelude.Int.{pos, ltb_ℤ, pos_part}
use lang_stream.Rooms.{
  Manager, Action, looks_up, starts_timer, enters, expires_room, clears, removes, tears_down,
  look_up, start_timer, room_of, without, step, run, room_count, remove, new_manager, ManagerOption,
  apply_options, apply_option, with_idle_timeout, with_max_rooms,
}

-- No more rooms than the limit, if there is one.
pub record IsValid (m : Manager) : Type 0 where
  pub within : ltb_ℤ (pos 0) m.max_rooms ≡ true → length m.rooms ≤ pos_part m.max_rooms

length-without :
    (k : String) (ref : ℕ) (rooms : List (String × ℕ)) → length (without k ref rooms) ≤ length rooms
unfolding without
length-without k ref [] = omega arith
length-without k ref ((i, r) ∷ rooms) = ground (arith, length-without k ref rooms)

look_up-IsValid : (m : Manager) (id : String) (ok : Bool) → IsValid m → IsValid (look_up m id ok).0
unfolding look_up
look_up-IsValid m id ok v = elim (Option-cases (room_of id m.rooms)) [
  | inl e ↦ ground (arith, e)
  | inr (ref, e) ↦ ground (arith, e)
]

start_timer-IsValid : (m : Manager) (ref : ℕ) → IsValid m → IsValid (start_timer m ref)
unfolding start_timer
start_timer-IsValid m ref v = ground arith

remove-IsValid : (m : Manager) (id : String) (ref : ℕ) → IsValid m → IsValid (remove m id ref)
remove-IsValid m id ref v = record {
  within = λ h. omega (arith, length-without id ref m.rooms, v.within h);
}

pub step-IsValid : (m : Manager) (a : Action) → IsValid m → IsValid (step m a)
unfolding step
step-IsValid m (looks_up id ok) v = look_up-IsValid m id ok v
step-IsValid m (starts_timer ref) v = start_timer-IsValid m ref v
step-IsValid m (enters ref role p) v = ground arith
step-IsValid m (expires_room ref) v = ground arith
step-IsValid m (clears ref role) v = ground arith
step-IsValid m (removes id ref) v = remove-IsValid m id ref v
step-IsValid m (tears_down ref) v = ground arith

run-IsValid : (m : Manager) (acts : List Action) → IsValid m → IsValid (run m acts)
unfolding run
run-IsValid m [] v = v
run-IsValid m (a ∷ acts) v = run-IsValid (step m a) acts (step-IsValid m a v)

step-max_rooms : (m : Manager) (a : Action) → (step m a).max_rooms ≡ m.max_rooms
unfolding step look_up start_timer
step-max_rooms m (looks_up id ok) = elim (Option-cases (room_of id m.rooms)) [
  | inl e ↦ ground (arith, e)
  | inr (ref, e) ↦ ground (arith, e)
]
step-max_rooms m (starts_timer ref) = ground arith
step-max_rooms m (enters ref role p) = refl
step-max_rooms m (expires_room ref) = refl
step-max_rooms m (clears ref role) = refl
step-max_rooms m (removes id ref) = refl
step-max_rooms m (tears_down ref) = refl

run-max_rooms : (m : Manager) (acts : List Action) → (run m acts).max_rooms ≡ m.max_rooms
unfolding run
run-max_rooms m [] = refl
run-max_rooms m (a ∷ acts) = run-max_rooms (step m a) acts ∙ step-max_rooms m a

apply_options-rooms :
    (m : Manager) (opts : List ManagerOption) → (apply_options m opts).rooms ≡ m.rooms
unfolding apply_options apply_option
apply_options-rooms m [] = refl
apply_options-rooms m (with_idle_timeout d ∷ opts) =
    apply_options-rooms (record m { idle_timeout = d }) opts
apply_options-rooms m (with_max_rooms n ∷ opts) =
    apply_options-rooms (record m { max_rooms = n }) opts

no_rooms-IsValid : (m : Manager) → m.rooms ≡ [] → IsValid m
no_rooms-IsValid m e = record {
  within = λ h. subst (λ rs. length rs ≤ pos_part m.max_rooms) (sym e) (omega arith);
}

new_manager-IsValid : (opts : List ManagerOption) → IsValid (new_manager opts)
unfolding new_manager
new_manager-IsValid opts = no_rooms-IsValid (new_manager opts) (apply_options-rooms _ opts)

-- Whatever goroutines join, leave and expire, with their sections in any order, a manager that is made
-- with any options never has more rooms than the limit it is made with, when that is positive.
pub rooms_within_limit :
    (opts : List ManagerOption) (acts : List Action)
    → ltb_ℤ (pos 0) (new_manager opts).max_rooms ≡ true
    → room_count (run (new_manager opts) acts) ≤ pos_part (new_manager opts).max_rooms
unfolding room_count
rooms_within_limit opts acts h =
    let same = run-max_rooms (new_manager opts) acts in
    let valid = run-IsValid (new_manager opts) acts (new_manager-IsValid opts) in
    subst (λ n. room_count (run (new_manager opts) acts) ≤ pos_part n) same
      (valid.within (subst (λ n. ltb_ℤ (pos 0) n ≡ true) (sym same) h))
