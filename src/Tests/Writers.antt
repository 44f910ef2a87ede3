-- ===== src/Tests/Writers.antt =====
-- The coroutine of a client's socket at concrete inputs.
use mydak_server.Base.{◌≡◌, refl, List, [], ◌∷◌, some}
use mydak_server.Slot.{is_empty, get_slot_value}
use mydak_server.Client.{get_client_data}
use mydak_server.Server.{get_client}
use mydak_server.Server.Writer.{
  receiving, Writer, WriterEvent, adds, signalled, written, pointers, socket_and_messages,
  socket_coroutine,
}
use mydak_server.Server.Writer.Order.{InOrder, socket_coroutine-InOrder}
use mydak_server.Tests.Memory.{memory}
use mydak_server.Tests.Fixtures.{bob, hello, one_online}

-- Alice's queue holds one message.
abbrev waiting_writer : Writer memory
waiting_writer = record {
  server = record one_online { queues = (hello ∷ []) ∷ [] };
  stage = receiving;
  sent = [];
}

alice_pointed : socket_and_messages memory 0 waiting_writer.server ≡ some (5, 0)
unfolding socket_and_messages get_client is_empty get_slot_value get_client_data pointers
alice_pointed = refl

waiting_writer-InOrder : InOrder memory 0 5 0 (hello ∷ []) waiting_writer
waiting_writer-InOrder = record {
  pointed = alice_pointed;
  past = [];
  rest = hello ∷ [];
  given = refl;
  held = refl;
  order = refl;
  at = tt;
}

abbrev writer_events : List WriterEvent
writer_events = signalled ∷ adds 0 bob ∷ written ∷ written ∷ []

socket_coroutine-InOrder_example :
    InOrder memory 0 5 0 (hello ∷ bob ∷ []) (socket_coroutine memory 0 writer_events waiting_writer)
socket_coroutine-InOrder_example =
    socket_coroutine-InOrder memory 0 5 0 writer_events (hello ∷ []) waiting_writer
      waiting_writer-InOrder
