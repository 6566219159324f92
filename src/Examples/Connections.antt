-- ===== src/Examples/Connections.antt =====
-- The theorems on the server and its sessions at concrete connections.
use akvirtualcamera.Base.{◌+◌, ℕ, ◌≡◌, refl, true, false, List, [], ◌∷◌, none, some, str_eq}
use akvirtualcamera.Base.StdMap.{find, find_or, ensure, contains, assign}
use akvirtualcamera.Message.{Message, msg_clients, msg_listen, msg_broadcast}
use akvirtualcamera.Message.Broadcast.{MsgBroadcast, broadcast_round_trip}
use akvirtualcamera.Message.Broadcast
use akvirtualcamera.Message.Clients.{MsgClients}
use akvirtualcamera.Message.Clients
use akvirtualcamera.Message.Frames.{received}
use akvirtualcamera.Service.{
  Broadcasts, broadcast_slots, take_frame, remove_client, clients, collect,
}
use akvirtualcamera.Server.{
  MessageHandler, Handlers, Round, find_handler, insert_handler, handle, connection,
}
use akvirtualcamera.Server.Sessions.{session, service_handlers, clients_handler, refused_unanswered}
use akvirtualcamera.Examples.Messages.{zeros, zeros_sized, pixel, sent_pixel, sent_pixel-IsValid}
use akvirtualcamera.Examples.Slots.{two_slots}

-- It counts the messages, and sends each back.
abbrev count_up : MessageHandler ℕ
count_up c m n = some (n + 1, m, true)

abbrev pub counting : Handlers ℕ
counting = (msg_clients, count_up) ∷ []

free : find_handler msg_listen counting ≡ none
unfolding find_handler
free = refl

-- A request for the clients.
abbrev ask : Round
ask = record {
  message = record { id = msg_clients; query_id = 7; data_bytes = [] };
  fresh = 1;
  sendable = true;
}

abbrev closed : Broadcasts
closed = remove_client 2 two_slots

-- Every process that is connected.
abbrev replies : List Message
replies =
    Clients.to_message (record { query_id = 7; client_type = 0; clients = collect 0 two_slots [] })
    ∷ []

asked : session zeros 2 (ask ∷ []) two_slots ≡ some (closed, replies)
unfolding session connection service_handlers handle find_handler insert_handler clients_handler
    clients Clients.from_message
asked = refl

abbrev send : Round
send = record { message = Broadcast.to_message sent_pixel; fresh = 1; sendable = true }

abbrev decoded_pixel : MsgBroadcast
decoded_pixel = record sent_pixel { frame = received zeros (pixel 32) }

send_id : send.message.id ≡ msg_broadcast
unfolding Broadcast.to_message
send_id = refl

not_taken : (broadcast_slots 3 decoded_pixel two_slots).1 ≡ false
unfolding broadcast_slots take_frame find_or ensure contains find assign str_eq
not_taken = refl

refused_unanswered_example :
    session zeros 3 (send ∷ ask ∷ []) two_slots
    ≡ some (remove_client 3 (broadcast_slots 3 decoded_pixel two_slots).0, [])
refused_unanswered_example =
    refused_unanswered zeros 3 send (ask ∷ []) two_slots decoded_pixel send_id
      (broadcast_round_trip zeros zeros_sized sent_pixel sent_pixel-IsValid) not_taken
