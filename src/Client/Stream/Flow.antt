-- ===== src/Client/Stream/Flow.antt =====
-- The way of the buffers: dequeue_buffer, queue_buffer_process, the state and process callbacks
-- and on_process_buffer of client/src/stream.rs.
pub mod Process
pub mod Owners
use pw_capture.Common.{
  ℕ, ℤ, pos, ◌+◌, ◌%◌, ◌^◌, Bool, true, false, not, ◌&&◌, Option, none, some, List, [], ◌∷◌, ◌++◌,
  ◌==◌, ltb, if◌then◌else◌, length, DashMap, insert,
}
use mathlib.Core.List.{Perm}
use pw_capture.Common.{◌≡◌}
use pw_capture.Client.Pod.{SpaSys}
use pw_capture.Client.Stream.Types.{
  BufferHandle, BufferUserHandle, BufferCursorInfo, StreamData, HeaderMeta, PwBuffer,
}
use pw_capture.Client.Stream.Meta.{spa_buffer_find_meta_data, fill_cursor_meta}

-- PipeWire's side of the stream: `Queue` is its state, `owned` lists the buffers that it holds,
-- each as often as it holds it.
pub record PipeWire : Type 1 where
  pub Queue : Type 0
  pub owned : Queue → List BufferHandle
  pub dequeue_raw_buffer : Queue → Option BufferHandle × Queue
  pub queue_raw_buffer : BufferHandle → Queue → Queue
  pub flush : Queue → Queue
  pub dequeue_none :
      (q : Queue)
      → (dequeue_raw_buffer q).0 ≡ none
      → Perm (owned (dequeue_raw_buffer q).1) (owned q)
  pub dequeue_some :
      (q : Queue) (b : BufferHandle)
      → (dequeue_raw_buffer q).0 ≡ some b
      → Perm (b ∷ owned (dequeue_raw_buffer q).1) (owned q)
  pub queue_perm :
      (q : Queue) (b : BufferHandle) → Perm (owned (queue_raw_buffer b q)) (b ∷ owned q)
  pub flush_perm : (q : Queue) → Perm (owned (flush q)) (owned q)

-- The states of a stream, as far as the code tells them apart.
pub data StreamState : Type 0 where
  streaming paused error other : StreamState

abbrev pub max_process_buffers : ℕ
max_process_buffers = 4

unfoldable pub fill_header : ℤ → ℕ → HeaderMeta → HeaderMeta
fill_header now seq h = record h { flags = 0; pts = now; offset = 0; seq = seq; dts_offset = pos 0 }

-- The layer's `process_buffer`: given the handle and whether there is room for a cursor, the
-- cursor that it adds, if any.
abbrev pub ProcessBuffer : Type 0
ProcessBuffer = BufferUserHandle → Bool → Option BufferCursorInfo

abbrev pub cursor_added : Bool → Option BufferCursorInfo → Option BufferCursorInfo
cursor_added true info = info
cursor_added false info = none

module _ (spa : SpaSys) where
  abbrev pub has_header : PwBuffer → Bool
  has_header b = spa_buffer_find_meta_data spa.meta_header spa.sizeof_meta_header b.metas

  abbrev pub has_cursor : PwBuffer → Bool
  has_cursor b = spa_buffer_find_meta_data spa.meta_cursor spa.sizeof_meta_cursor b.metas

  -- The buffer after `on_process_buffer` and the stream's data; `none` is the early return, after
  -- which the buffer is not queued. `now` is `get_pts_nanos()`.
  unfoldable pub on_process_buffer :
      ℤ → ProcessBuffer → StreamData → PwBuffer → Option (StreamData × PwBuffer)
  unfolding fill_header fill_cursor_meta
  on_process_buffer now process data' b = elim b.user_data [
    | none ↦ none
    | some handle ↦
        let (id, cursor) =
          fill_cursor_meta spa data'.cursor_id b.cursor
            (cursor_added (has_cursor b) (process handle (has_cursor b))) in
        some (
          record {
            seq = (data'.seq + 1) % 2 ^ 64;
            cursor_id = if has_cursor b then id else data'.cursor_id;
          },
          record b {
            header = if has_header b then fill_header now data'.seq b.header else b.header;
            cursor = if has_cursor b then cursor else b.cursor;
            size = 1;
          },
        )
  ]

module _ (pw : PipeWire) where
  -- The stream, with the channel from the layer's thread to the process callback.
  pub record Stream : Type 0 where
    pub queue : pw.Queue
    pub channel : List BufferHandle
    pub buffers : DashMap PwBuffer
    pub stream_data : StreamData
    pub state : StreamState
    pub is_driving : Bool

  abbrev pub user_data_of : Option PwBuffer → Option BufferUserHandle
  user_data_of none = none
  user_data_of (some b) = b.user_data

  abbrev pub is_streaming : StreamState → Bool
  is_streaming streaming = true
  is_streaming _ = false

  unfoldable pub take_buffer :
      Option BufferHandle → Stream → Stream × Option (BufferHandle × BufferUserHandle)
  take_buffer none st = (st, none)
  take_buffer (some b) st = elim (user_data_of (st.buffers b)) [
    | none ↦ (record st { queue = pw.queue_raw_buffer b st.queue }, none)
    | some handle ↦ (st, some (b, handle))
  ]

  unfoldable pub dequeue_buffer : Stream → Stream × Option (BufferHandle × BufferUserHandle)
  unfolding take_buffer
  dequeue_buffer st =
      if not (is_streaming st.state)
      then (st, none)
      else if not st.is_driving
      then (st, none)
      else let (b, q) = pw.dequeue_raw_buffer st.queue in take_buffer b (record st { queue = q })

  -- Sending to a full channel waits; `none` is that wait. `trigger_process` only schedules the
  -- process callback.
  unfoldable pub queue_buffer_process : BufferHandle → Stream → Option Stream
  queue_buffer_process b st =
      if st.is_driving
      then if ltb (length st.channel) max_process_buffers
        then some (record st { channel = st.channel ++ b ∷ [] })
        else none
      else some st

  unfoldable pub store : BufferHandle → Option (StreamData × PwBuffer) → Stream → Stream
  store b none st = st
  store b (some (data', buffer)) st = record st {
    stream_data = data';
    buffers = insert b buffer st.buffers;
    queue = pw.queue_raw_buffer b st.queue;
  }

  unfoldable pub receive : SpaSys → ℤ → ProcessBuffer → List BufferHandle → Stream → Stream
  unfolding store
  receive spa now user [] st = st
  receive spa now user (b ∷ rest) st = elim (st.buffers b) [
    | none ↦ record st { channel = rest }
    | some buffer ↦
        store b (on_process_buffer spa now user st.stream_data buffer)
          (record st { channel = rest })
  ]

  -- The `process` callback: `try_recv`, then `on_process_buffer`.
  unfoldable pub process : SpaSys → ℤ → ProcessBuffer → Stream → Stream
  unfolding receive
  process spa now user st = receive spa now user st.channel st

  -- The `state_changed` callback: a pause flushes PipeWire's queue and drains the channel.
  unfoldable pub state_changed : StreamState → Stream → Stream
  state_changed paused st = record st { state = paused; queue = pw.flush st.queue; channel = [] }
  state_changed new st = record st { state = new }
