-- ===== src/Client/Stream/Tests.antt =====
-- The buffers of a stream and the client's streams on concrete inputs.
use mathlib.Core.List.{Perm}
use mathlib.Core.List.Perm
use pw_capture.Common.{
  ℕ, pos, ◌≡◌, refl, subst, true, false, Option, none, some, List, [], ◌∷◌, arith, new_map, insert,
}
use pw_capture.Client.Tests.{spa, hidden, info}
use pw_capture.Client.Stream.Types.{
  vk_image, BufferHandle, StreamData, PwBuffer, HeaderMeta, SpaData,
}
use pw_capture.Client.Stream.Meta.{spa_buffer_find_meta_data, fill_cursor_meta}
use pw_capture.Client.Stream.Flow.{
  PipeWire, streaming, ProcessBuffer, Stream, on_process_buffer, fill_header, queue_buffer_process,
  process,
}
use pw_capture.Client.Stream.Flow.Owners.{process-owned}
use pw_capture.Client.Thread.{Startup, client_new, pw_thread, client_drop}
use pw_capture.Client.Thread.Dropped.{client_drop-ends}
use pw_capture.Client.Manager.{
  StreamMaker, names_formats, new_stream, create_stream, receive, ClientImpl, client_create_stream,
  stream_terminate, client_terminate, receive_all, new_client,
}
use pw_capture.Client.Manager.Streams.{receive_all-total}

abbrev pop : List BufferHandle → Option BufferHandle × List BufferHandle
pop [] = (none, [])
pop (b ∷ q) = (some b, q)

pop_none : (q : List BufferHandle) → (pop q).0 ≡ none → Perm (pop q).1 q
pop_none [] e = Perm.refl []
pop_none (b ∷ q) e = ground (arith, e)

pop_some : (q : List BufferHandle) (b : BufferHandle) → (pop q).0 ≡ some b → Perm (b ∷ (pop q).1) q
pop_some [] b e = ground (arith, e)
pop_some (c ∷ q) b e =
    let same : c ≡ b = ground (arith, e) in
    subst (λ x. Perm (x ∷ q) (c ∷ q)) same (Perm.refl (c ∷ q))

-- A server whose queue is a list.
abbrev listed : PipeWire
listed = record {
  Queue = List BufferHandle;
  owned = λ q. q;
  dequeue_raw_buffer = pop;
  queue_raw_buffer = λ b q. b ∷ q;
  flush = λ q. q;
  dequeue_none = pop_none;
  dequeue_some = pop_some;
  queue_perm = λ q b. Perm.refl (b ∷ q);
  flush_perm = λ q. Perm.refl q;
}

abbrev plane : SpaData
plane = record {
  fd = pos 0;
  data_null = false;
  mapoffset = 0;
  maxsize = 0;
  kind = 0;
  chunk = record { offset = 0; size = 0; stride = pos 0 };
}

abbrev no_header : HeaderMeta
no_header = record { flags = 0; offset = 0; pts = pos 0; dts_offset = pos 0; seq = 0 }

abbrev buffer_one : PwBuffer
buffer_one = record {
  user_data = some (vk_image 40);
  datas = plane ∷ [];
  metas = record { kind = 1; size = 32 } ∷ record { kind = 5; size = 28 } ∷ [];
  header = no_header;
  cursor = hidden;
  size = 0;
}

abbrev no_cursor : ProcessBuffer
no_cursor = λ handle room. none

abbrev counters : StreamData
counters = record { seq = 5; cursor_id = 2 }

-- The buffer after a frame.
abbrev processed_one : PwBuffer
processed_one = record buffer_one {
  header = record no_header { pts = pos 99; seq = 5 };
  cursor = hidden;
  size = 1;
}

process_one :
    on_process_buffer spa (pos 99) no_cursor counters buffer_one
    ≡ some (record { seq = 6; cursor_id = 2 }, processed_one)
unfolding on_process_buffer spa_buffer_find_meta_data fill_cursor_meta fill_header
process_one = refl

abbrev running : Stream listed
running = record {
  queue = 1 ∷ 2 ∷ [];
  channel = 3 ∷ [];
  buffers = insert 1 buffer_one (insert 3 buffer_one new_map);
  stream_data = counters;
  state = streaming;
  is_driving = true;
}

abbrev sent_two : Stream listed
sent_two = record running { channel = 3 ∷ 2 ∷ [] }

send_two : queue_buffer_process listed 2 running ≡ some sent_two
unfolding queue_buffer_process
send_two = refl

process-owned_example :
    ((process listed spa (pos 99) no_cursor running).channel ≡ [])
    × Perm (process listed spa (pos 99) no_cursor running).queue (3 ∷ 1 ∷ 2 ∷ [])
process-owned_example = process-owned listed spa (pos 99) no_cursor 3 [] running refl

abbrev always : StreamMaker
always = record { make = λ i. true; connect = λ i. true }

info-names : names_formats info.enum_formats ≡ true
unfolding names_formats
info-names = refl

receive_all-total_example :
    (c : ClientImpl) × (receive_all always
        (client_create_stream info
          ∷ stream_terminate 0
          ∷ stream_terminate 0
          ∷ client_terminate
          ∷ [])
        new_client
      ≡ some c)
receive_all-total_example =
    receive_all-total always
      (client_create_stream info ∷ stream_terminate 0 ∷ stream_terminate 0 ∷ client_terminate ∷ [])
      (info-names, (tt, (tt, (tt, tt))))

abbrev all_ready : Startup
all_ready = record { main_loop = true; context = true; connect = true }

abbrev one_stream : ClientImpl
one_stream = record new_client {
  stream_next_id = 1;
  stream_map = insert 0 (record { on_terminate = some 0 }) new_map;
}

started : client_new all_ready ≡ some new_client
unfolding client_new pw_thread
started = refl

handled : receive_all always (client_create_stream info ∷ []) new_client ≡ some one_stream
unfolding receive_all receive create_stream new_stream names_formats
handled = refl

client_drop-ends_example :
    (c : ClientImpl) × (client_drop always (stream_terminate 0 ∷ []) one_stream ≡ some c)
    × (c.running ≡ false)
    × ((i : ℕ) → c.stream_map i ≡ none)
client_drop-ends_example =
    client_drop-ends always all_ready (client_create_stream info ∷ []) (stream_terminate 0 ∷ [])
      new_client one_stream (info-names, tt) (tt, tt) started handled
