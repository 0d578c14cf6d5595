-- ===== src/Client/Stream/Flow/Process.antt =====
-- What on_process_buffer of client/src/stream.rs leaves in the buffer and in the stream's data.
use pw_capture.Common.{ℤ, ◌+◌, ◌%◌, ◌^◌, ◌≡◌, ◌↔◌, true, none, some, arith, Option-cases, inl, inr}
use pw_capture.Client.Pod.{SpaSys}
use pw_capture.Client.Stream.Types.{PwBuffer, StreamData, BufferUserHandle}
use pw_capture.Client.Stream.Meta.{fill_cursor_meta}
use pw_capture.Client.Stream.Flow.{
  ProcessBuffer, on_process_buffer, fill_header, has_header, has_cursor,
}

module _ (spa : SpaSys) (now : ℤ) (user : ProcessBuffer) where
  -- A buffer with user data is always queued; one without it never is.
  pub on_process_buffer-none_iff :
      (s : StreamData) (b : PwBuffer)
      → (on_process_buffer spa now user s b ≡ none) ↔ (b.user_data ≡ none)
  unfolding on_process_buffer
  on_process_buffer-none_iff s b = elim (Option-cases b.user_data) [
    | inl n ↦ (ground arith, ground arith)
    | inr (h, u) ↦ (ground arith, ground arith)
  ]

  -- A buffer that is queued with a header has the time and the sequence number of the stream,
  -- which then takes the next number in 64 bits.
  pub on_process_buffer-header :
      (s s' : StreamData) (b b' : PwBuffer)
      → on_process_buffer spa now user s b ≡ some (s', b')
      → has_header spa b ≡ true
      → (b'.header.seq ≡ s.seq)
        × (b'.header.pts ≡ now)
        × (s'.seq ≡ (s.seq + 1) % 2 ^ 64)
        × (b'.size ≡ 1)
        × (b'.user_data ≡ b.user_data)
  unfolding on_process_buffer fill_header
  on_process_buffer-header s s' b b' e h = elim (Option-cases b.user_data) [
    | inl n ↦ ground (arith, n)
    | inr (handle, u) ↦ ground (arith, u)
  ]

  -- A buffer that has room for a cursor, and for which the layer adds none, says that the cursor
  -- is hidden, and the stream's cursor id stays.
  pub on_process_buffer-hidden :
      (s s' : StreamData) (b b' : PwBuffer) (handle : BufferUserHandle)
      → on_process_buffer spa now user s b ≡ some (s', b')
      → b.user_data ≡ some handle
      → has_cursor spa b ≡ true
      → user handle true ≡ none
      → (b'.cursor.id ≡ 0) × (s'.cursor_id ≡ s.cursor_id)
  unfolding on_process_buffer fill_cursor_meta
  on_process_buffer-hidden s s' b b' handle e u c n = ground (arith, e, u, c, n)
