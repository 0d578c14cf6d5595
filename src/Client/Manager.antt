-- ===== src/Client/Manager.antt =====
-- The client's thread and its streams: ClientImpl of client/src/client.rs, with
-- StreamImpl::terminate of client/src/stream.rs.
pub mod Streams
use pw_capture.Common.{
  ℕ, ◌+◌, ◌%◌, ◌^◌, Bool, true, false, not, Option, none, some, List, [], ◌∷◌, DashMap, new_map,
  insert, remove, if◌then◌else◌,
}
use pw_capture.Client.Negotiation.{EnumFormatInfo, StreamInfo}

-- What is kept of a stream: `on_terminate`, with the id that the closure has captured.
pub record StreamImpl : Type 0 where
  pub on_terminate : Option ℕ

pub record ClientImpl : Type 0 where
  pub running : Bool
  pub stream_next_id : ℕ
  pub stream_map : DashMap StreamImpl

abbrev pub new_client : ClientImpl
new_client = record { running = true; stream_next_id = 0; stream_map = new_map }

-- `stream_map.clear()` and `mainloop.quit()`.
unfoldable pub terminate : ClientImpl → ClientImpl
terminate c = record c { stream_map = new_map; running = false }

-- Whether PipeWire makes a stream with its listener, and whether that connects.
pub record StreamMaker : Type 0 where
  pub make : StreamInfo → Bool
  pub connect : StreamInfo → Bool

-- Every offer names a pixel format, which `build_format` asserts.
unfoldable pub names_formats : List EnumFormatInfo → Bool
names_formats [] = true
names_formats (e ∷ es) = elim e.formats [ [] ↦ false | f ∷ fs ↦ names_formats es ]

module _ (pw : StreamMaker) where
  -- Whether `StreamImpl::new` succeeds; `none` is the panic of the assertion.
  unfoldable pub new_stream : StreamInfo → Option Bool
  unfolding names_formats
  new_stream info =
      if not (pw.make info)
      then some false
      else if names_formats info.enum_formats
      then some (pw.connect info)
      else none

  abbrev pub next_id : ClientImpl → ClientImpl
  next_id c = record c { stream_next_id = (c.stream_next_id + 1) % 2 ^ 64 }

  -- The id is used up where there is no stream. `usize` is 64 bits wide and wraps.
  unfoldable pub create_stream : StreamInfo → ClientImpl → Option (ClientImpl × Option ℕ)
  unfolding new_stream
  create_stream info c = elim (new_stream info) [
    | none ↦ none
    | some false ↦ some (next_id c, none)
    | some true ↦
        let id = c.stream_next_id in
        some (
          record (next_id c) {
            stream_map = insert id (record { on_terminate = some id }) c.stream_map;
          },
          some id,
        )
  ]

-- The closure given to the stream; `none` is the panic of its `expect`.
unfoldable pub remove_stream : ℕ → ClientImpl → Option ClientImpl
remove_stream id c = elim (c.stream_map id) [
  | none ↦ none
  | some stream ↦ some (record c { stream_map = remove id c.stream_map })
]

-- `StreamImpl::terminate`, of the stream that is under the key `at`: the closure is taken out of
-- the stream before it is called.
unfoldable pub run_on_terminate : ℕ → Option ℕ → ClientImpl → Option ClientImpl
unfolding remove_stream
run_on_terminate at none c = some c
run_on_terminate at (some id) c =
    remove_stream id
      (record c { stream_map = insert at (record { on_terminate = none }) c.stream_map })

pub data Message : Type 0 where
  client_terminate : Message
  client_create_stream : StreamInfo → Message
  stream_terminate : ℕ → Message

-- One message to the thread; `none` is a panic. A stream that is not in the map has no receiver, and a loop that
-- was told to quit takes no message.
module _ (pw : StreamMaker) where
  unfoldable pub receive : Message → ClientImpl → Option ClientImpl
  unfolding terminate create_stream run_on_terminate
  receive client_terminate c = if c.running then some (terminate c) else some c
  receive (client_create_stream info) c =
      let created = create_stream pw info c in
      if c.running then elim created [ none ↦ none | some r ↦ some r.0 ] else some c
  receive (stream_terminate at) c = elim (c.stream_map at) [
    | none ↦ some c
    | some stream ↦ run_on_terminate at stream.on_terminate c
  ]

  unfoldable pub receive_all : List Message → ClientImpl → Option ClientImpl
  receive_all [] c = some c
  receive_all (m ∷ ms) c = elim (receive m c) [ none ↦ none | some c' ↦ receive_all ms c' ]
