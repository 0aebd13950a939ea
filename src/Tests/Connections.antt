-- ===== src/Tests/Connections.antt =====
-- Two localproxies of one tunnel on the manager of misc/server.
use native.Mathlib.Omega.{arith}
use securetunnel.Base.{
  List, length, ◌++◌, ◌<◌, ◌≡◌, refl, [], ◌∷◌, true, false, none, some, text_eqb, codes,
}
use securetunnel.Base.Dict.{lookup, insert}
use securetunnel.Aws.{source, destination, mode_eqb, other_mode, Message, message_data}
use securetunnel.Server.Peers.{
  Key, key_eqb, key_eq, other_key, running, Manager, delivered, dropped, enter, end_run, associate,
  close, closed_con, new_peer_connection, write_to_associated, async_write, write_next,
  send_to_peer, start,
}
use securetunnel.Server.Peers.Sections.{Step, enters, ends, forwards, writes, Reach, starts, later}
use securetunnel.Server.Peers.Entry.{Entry}
use securetunnel.Server.Peers.Association.{Reach-Inv}
use securetunnel.Server.Peers.Relay
use securetunnel.Server.Peers.Relay.{
  Command, first_forwards, second_forwards, second_writes, piped_all, relay_all, IsHealthy,
  relay_all-piped_all,
}
use securetunnel.Server.Peers.Forwarded.{write_rounds, forwarded-written}
use securetunnel.Server.Peers.Delivery.{
  write_to_associated-send_to_peer, write_to_associated-dropped,
}
use securetunnel.Server.Peers.Order.{Step-Grows, Grows, stream}
use securetunnel.Server.Peers.Written.{Recorded, Reach-Recorded}

abbrev source_key : Key
source_key = record { tunnel_id = codes "01"; mode = source }

abbrev destination_key : Key
destination_key = record { tunnel_id = codes "01"; mode = destination }

abbrev data_message : Message
data_message = record {
  type = message_data;
  stream_id = 7;
  ignorable = false;
  payload = 1 ∷ 2 ∷ [];
  service_id = codes "ssh";
  available_service_ids = [];
}

abbrev one_side : Manager
one_side = enter true source_key [] start

abbrev both : Manager
both = enter true destination_key [] one_side

-- The destination has returned from `run`.
abbrev ending : Manager
ending = end_run true true 1 both

Reach-one : Reach one_side
Reach-one = later starts (enters true source_key [] refl)

Reach-both : Reach both
Reach-both = later Reach-one (enters true destination_key [] refl)

next_both : 1 < both.next
unfolding enter close associate new_peer_connection closed_con lookup insert other_mode key_eqb
    mode_eqb text_eqb
next_both = omega arith

running_1 : (both.con 1).phase ≡ running
unfolding enter close associate new_peer_connection closed_con lookup insert other_mode key_eqb
    mode_eqb text_eqb
running_1 = refl

Reach-ending : Reach ending
Reach-ending = later Reach-both (ends true true 1 next_both running_1)

source_one : lookup source_key one_side.peer_con_map ≡ some 0
unfolding enter close associate new_peer_connection closed_con lookup insert other_mode key_eqb
    mode_eqb text_eqb
source_one = refl

destination_one : lookup (other_key source_key) one_side.peer_con_map ≡ none
unfolding enter close associate new_peer_connection closed_con lookup insert other_mode key_eqb
    mode_eqb text_eqb
destination_one = refl

source_both : lookup source_key both.peer_con_map ≡ some 0
unfolding enter close associate new_peer_connection closed_con lookup insert other_mode key_eqb
    mode_eqb text_eqb
source_both = refl

destination_both : lookup (other_key source_key) both.peer_con_map ≡ some 1
unfolding enter close associate new_peer_connection closed_con lookup insert other_mode key_eqb
    mode_eqb text_eqb
destination_both = refl

source_ending : lookup source_key ending.peer_con_map ≡ some 0
unfolding end_run enter close associate new_peer_connection closed_con lookup insert other_mode
    key_eqb mode_eqb text_eqb
source_ending = refl

destination_ending : lookup (other_key source_key) ending.peer_con_map ≡ some 1
unfolding end_run enter close associate new_peer_connection closed_con lookup insert other_mode
    key_eqb mode_eqb text_eqb
destination_ending = refl

Reach-Inv_example : Entry both source_key 0
Reach-Inv_example = Reach-Inv Reach-both source_key 0 source_both

write_to_associated-send_to_peer_example :
    write_to_associated 0 data_message both ≡ send_to_peer (other_key source_key) data_message both
write_to_associated-send_to_peer_example =
    write_to_associated-send_to_peer Reach-both source_key 0 1 data_message source_both
      destination_both

write_to_associated-dropped_example :
    write_to_associated 0 data_message one_side ≡ (dropped, one_side)
write_to_associated-dropped_example =
    write_to_associated-dropped Reach-one source_key 0 data_message source_one destination_one

forwarding : Step both (write_to_associated 0 data_message both).1
unfolding enter close associate new_peer_connection closed_con lookup insert other_mode key_eqb
    mode_eqb text_eqb
forwarding = forwards 0 data_message (omega arith) refl

Step-Grows_example : Grows (stream both 1) (stream (write_to_associated 0 data_message both).1 1)
Step-Grows_example = Step-Grows forwarding 1 next_both

-- The message is forwarded, and writing it fails.
abbrev forwarded : Manager
forwarded = (write_to_associated 0 data_message both).1

next_forwarded : 1 < forwarded.next
unfolding write_to_associated async_write enter close associate new_peer_connection closed_con
    lookup insert other_mode key_eqb mode_eqb text_eqb
next_forwarded = omega arith

running_forwarded : (forwarded.con 1).phase ≡ running
unfolding write_to_associated async_write enter close associate new_peer_connection closed_con
    lookup insert other_mode key_eqb mode_eqb text_eqb
running_forwarded = refl

abbrev failed : Manager
failed = write_next false 1 forwarded

Reach-failed : Reach failed
Reach-failed = later (later Reach-both forwarding) (writes false 1 next_forwarded running_forwarded)

Reach-Recorded_example :
    Recorded (failed.con 1).taken (failed.con 1).written (failed.con 1).write_failed
Reach-Recorded_example = Reach-Recorded Reach-failed 1

accepted : (write_to_associated 0 data_message both).0 ≡ delivered
unfolding write_to_associated async_write enter close associate new_peer_connection closed_con
    lookup insert other_mode key_eqb mode_eqb text_eqb
accepted = refl

unfailed : (both.con 1).write_failed ≡ false
unfolding enter close associate new_peer_connection closed_con lookup insert other_mode key_eqb
    mode_eqb text_eqb
unfailed = refl

empty_channel : (both.con 1).ch_message ≡ []
unfolding enter close associate new_peer_connection closed_con lookup insert other_mode key_eqb
    mode_eqb text_eqb
empty_channel = refl

forwarded-written_example :
    let waiting = (both.con 1).ch_message ++ (data_message ∷ []) in
    ((write_rounds (length waiting) 1 (write_to_associated 0 data_message both).1).con 1).written
    ≡ (both.con 1).written ++ waiting
forwarded-written_example =
    forwarded-written Reach-both source_key 0 1 data_message source_both destination_both unfailed
      accepted

both-IsHealthy_first : IsHealthy both 0
unfolding enter close associate new_peer_connection closed_con lookup insert other_mode key_eqb
    mode_eqb text_eqb
both-IsHealthy_first = (refl, refl)

both-IsHealthy_second : IsHealthy both 1
unfolding enter close associate new_peer_connection closed_con lookup insert other_mode key_eqb
    mode_eqb text_eqb
both-IsHealthy_second = (refl, refl)

abbrev commands : List Command
commands = first_forwards data_message ∷ second_forwards data_message ∷ second_writes ∷ []

relay_all-piped_all_example :
    ((relay_all 0 1 commands both).0 ≡ (piped_all commands (Relay.view 0 1 both)).0)
    × (Relay.view 0 1 (relay_all 0 1 commands both).1
        ≡ (piped_all commands (Relay.view 0 1 both)).1)
relay_all-piped_all_example =
    relay_all-piped_all Reach-both source_key 0 1 commands source_both destination_both
      both-IsHealthy_first both-IsHealthy_second
