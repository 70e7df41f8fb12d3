-- ===== src/Examples/Clients.antt =====
-- Tests of the retry loop, the breaker around it, the rooms and the registry.
use lang_stream.Prelude.{
  ℕ, zero, suc, ◌≤◌, ◌≡◌, refl, inr, Bool, true, false, some, List, [], ◌∷◌, arith,
}
use lang_stream.Prelude.Int.{pos}
use lang_stream.Breaker.{new_circuit_breaker, allow}
use lang_stream.Client.{Round, answers, fails, attempts, vendor, failed}
use lang_stream.Client.Retry.{IsSettled, attempts_settle}
use lang_stream.Client.Settled.{Served, serve, none_left, one_more, calls_admitted_again}
use lang_stream.Room.{role_caller, role_agent, Room, new_room, peer_in, is_full}
use lang_stream.Rooms.{
  Manager, ManagerOption, with_max_rooms, new_manager, apply_options, apply_option, run, room_count,
  Action, looks_up, enters, removes, clears, joined, join_room, room_at,
}
use lang_stream.Rooms.Capacity.{rooms_within_limit}
use lang_stream.Rooms.Slots.{Sits, Spares, AllSpare, no_actions, spares, seat_kept}
use lang_stream.Rooms.Teardown.{IsGone, expired, expiry_loses_peer}

abbrev worth : Bool → Bool
worth b = b

abbrev flaky : ℕ → Round ℕ Bool
flaky zero = record { wait_cut = false; request = fails true false }
flaky (suc i) = record { wait_cut = false; request = answers 7 }

abbrev down : ℕ → Round ℕ Bool
down i = record { wait_cut = false; request = fails true false }

attempts_settle_example : IsSettled worth 3 (attempts worth 3 flaky 3 0)
attempts_settle_example = attempts_settle worth 3 flaky

abbrev lost_call : Served ℕ Bool
lost_call = record {
  now = 1;
  later = 5;
  made = record { settlement = failed; result = inr (vendor true); requests = 3 };
}

calls_admitted_again_example :
    (allow (serve (new_circuit_breaker (pos 1) (pos 10)) (lost_call ∷ [])) 15).1 ≡ true
unfolding new_circuit_breaker
calls_admitted_again_example =
    calls_admitted_again (pos 1) (pos 10) (lost_call ∷ []) 5 15 (one_more (omega arith) none_left)
      (omega arith)

abbrev one_room : List ManagerOption
one_room = with_max_rooms (pos 1) ∷ []

rooms_within_limit_example :
    room_count (run (new_manager one_room) (looks_up "a" true ∷ looks_up "b" true ∷ [])) ≤ 1
unfolding new_manager apply_options apply_option
rooms_within_limit_example =
    rooms_within_limit one_room (looks_up "a" true ∷ looks_up "b" true ∷ []) refl

abbrev waiting : Room
waiting = record (new_room "a") { caller = some 5 }

abbrev hall : Manager
hall = record {
  idle_timeout = pos 9;
  max_rooms = pos 0;
  rooms = ("a", 0) ∷ [];
  store = waiting ∷ [];
}

abbrev traffic : List Action
traffic = enters 0 role_caller (some 6) ∷ removes "a" 0 ∷ clears 0 role_agent ∷ []

traffic_spares : AllSpare 0 role_caller traffic
unfolding Spares
traffic_spares = spares tt (spares tt (spares (inr (λ e. absurd (cc e))) no_actions))

seated : Sits hall 0 role_caller 5
unfolding Sits room_at peer_in
seated = (waiting, refl, refl)

seat_kept_example : Sits (run hall traffic) 0 role_caller 5
seat_kept_example = seat_kept 0 role_caller 5 hall traffic traffic_spares seated

expiry_loses_peer_example :
    let (m', result) = join_room (expired "a" 0 hall) 0 role_agent (some 6) in
    (result ≡ joined 0)
    × (lost : Room) × (room_at 0 m'.store ≡ some lost)
    × IsGone lost
    × (peer_in role_agent lost ≡ some 6)
unfolding room_at is_full
expiry_loses_peer_example = expiry_loses_peer hall "a" role_agent 6 0 waiting refl refl refl
