-- ===== src/Client/Stream/Flow/Owners.antt =====
-- Where a stream's buffers are, dequeue_buffer, queue_buffer_process and the state and process
-- callbacks of client/src/stream.rs.
use mathlib.Core.List.{Perm, perm_append_singleton, perm_append_comm, append_assoc, append-nil}
use mathlib.Core.List.Perm
use pw_capture.Common.{
  ℤ, ◌≡◌, refl, sym, subst, false, ◌&&◌, ◌⊎◌, Bool, true, false, Option, none, some, List, [], ◌∷◌,
  ◌++◌, arith, if◌then◌else◌, Option-cases, Bool-cases, inl, inr,
}
use pw_capture.Client.Pod.{SpaSys}
use pw_capture.Client.Stream.Types.{BufferHandle, BufferUserHandle}
use pw_capture.Client.Stream.Flow.{
  PipeWire, StreamState, paused, streaming, error, other, ProcessBuffer, Stream, is_streaming,
  on_process_buffer, take_buffer, dequeue_buffer, queue_buffer_process, store, receive, process,
  state_changed, user_data_of,
}

abbrev pub is_paused : StreamState → Bool
is_paused paused = true
is_paused _ = false

module _ (pw : PipeWire) where
  -- PipeWire's own buffers and those in the channel.
  abbrev pub in_stream : Stream pw → List BufferHandle
  in_stream st = pw.owned st.queue ++ st.channel

  abbrev pub handed : Option (BufferHandle × BufferUserHandle) → List BufferHandle
  handed none = []
  handed (some (b, handle)) = b ∷ []

  one : Option BufferHandle → List BufferHandle
  one none = []
  one (some b) = b ∷ []

  raw-owned :
      (q : pw.Queue)
      → Perm (one (pw.dequeue_raw_buffer q).0 ++ pw.owned (pw.dequeue_raw_buffer q).1) (pw.owned q)
  unfolding one
  raw-owned q = elim (Option-cases (pw.dequeue_raw_buffer q).0) [
    | inl e ↦ rw (e, one) (pw.dequeue_none q e)
    | inr (b, e) ↦ rw (e, one) (pw.dequeue_some q b e)
  ]

  take_buffer-owned :
      (b : Option BufferHandle) (total : List BufferHandle) (st : Stream pw)
      → Perm (one b ++ pw.owned st.queue) total
      → Perm
          (handed (take_buffer pw b st).1 ++ in_stream (take_buffer pw b st).0)
          (total ++ st.channel)
  unfolding take_buffer one
  take_buffer-owned none total st h = Perm.append_right st.channel h
  take_buffer-owned (some b) total st h = elim (Option-cases (user_data_of pw (st.buffers b))) [
    | inl e ↦
        rw (e, take_buffer) (Perm.append_right st.channel (Perm.trans (pw.queue_perm st.queue b) h))
    | inr (handle, e) ↦ rw (e, take_buffer) (Perm.append_right st.channel h)
  ]

  dequeue_running :
      (st : Stream pw)
      → is_streaming pw st.state ≡ true
      → st.is_driving ≡ true
      → dequeue_buffer pw st
        ≡ take_buffer pw
            (pw.dequeue_raw_buffer st.queue).0
            (record st { queue = (pw.dequeue_raw_buffer st.queue).1 })
  unfolding dequeue_buffer
  dequeue_running st e d = simp (e, d)

  dequeue_idle :
      (st : Stream pw)
      → (is_streaming pw st.state && st.is_driving) ≡ false
      → dequeue_buffer pw st ≡ (st, none)
  unfolding dequeue_buffer
  dequeue_idle st e = ground arith

  -- Taking a buffer for the layer moves exactly that buffer out of the stream; where none is
  -- taken, the stream keeps what it has.
  pub dequeue_buffer-owned :
      (st : Stream pw)
      → Perm (handed (dequeue_buffer pw st).1 ++ in_stream (dequeue_buffer pw st).0) (in_stream st)
  dequeue_buffer-owned st = elim (Bool-cases (is_streaming pw st.state && st.is_driving)) [
    | inr e ↦ rw (dequeue_idle st e) (Perm.refl (in_stream st))
    | inl e ↦ rw (dequeue_running st (ground (arith, e)) (ground (arith, e))) (
        take_buffer-owned (pw.dequeue_raw_buffer st.queue).0 (pw.owned st.queue)
          (record st { queue = (pw.dequeue_raw_buffer st.queue).1 }) (raw-owned st.queue))
  ]

  append_one :
      (b : BufferHandle) (xs ys : List BufferHandle) → Perm (xs ++ (ys ++ b ∷ [])) (b ∷ xs ++ ys)
  append_one b xs ys = rw (← append_assoc) (perm_append_singleton b (xs ++ ys))

  abbrev sent : BufferHandle → Stream pw → Stream pw
  sent b st = record st { channel = st.channel ++ b ∷ [] }

  queue_cases :
      (b : BufferHandle) (st st' : Stream pw)
      → queue_buffer_process pw b st ≡ some st'
      → ((st.is_driving ≡ true) × (sent b st ≡ st')) ⊎ ((st.is_driving ≡ false) × (st ≡ st'))
  unfolding queue_buffer_process
  queue_cases b st st' e = ground arith

  abbrev pub kept_out : BufferHandle → Bool → List BufferHandle
  kept_out b true = []
  kept_out b false = b ∷ []

  -- A buffer that the layer gives back goes into the stream while it is driving, and is dropped
  -- otherwise.
  pub queue_buffer_process-owned :
      (b : BufferHandle) (st st' : Stream pw)
      → queue_buffer_process pw b st ≡ some st'
      → Perm (kept_out b st.is_driving ++ in_stream st') (b ∷ in_stream st)
  queue_buffer_process-owned b st st' e = elim (queue_cases b st st' e) [
    | inl (d, s) ↦
        subst (λ t. Perm (kept_out b st.is_driving ++ in_stream t) (b ∷ in_stream st)) s
          (subst (λ o. Perm (kept_out b o ++ in_stream (sent b st)) (b ∷ in_stream st)) (sym d)
            (append_one b (pw.owned st.queue) st.channel))
    | inr (d, s) ↦
        subst (λ t. Perm (kept_out b st.is_driving ++ in_stream t) (b ∷ in_stream st)) s
          (subst (λ o. Perm (kept_out b o ++ in_stream st) (b ∷ in_stream st)) (sym d)
            (Perm.refl (b ∷ in_stream st)))
  ]

  -- What PipeWire is given of the channel's first buffer: that buffer, if the stream has user data
  -- for it.
  abbrev pub given : Option BufferUserHandle → BufferHandle → List BufferHandle
  given none b = []
  given (some handle) b = b ∷ []

  -- The process callback takes the first buffer off the channel and gives it to PipeWire, which has
  -- that one more, or drops it when the stream has no user data for it; the rest of the channel
  -- stays as it is, in its order, and so does every other buffer that PipeWire has.
  pub process-owned :
      (spa : SpaSys) (now : ℤ) (user : ProcessBuffer) (b : BufferHandle) (rest : List BufferHandle)
      (st : Stream pw)
      → st.channel ≡ b ∷ rest
      → ((process pw spa now user st).channel ≡ rest)
        × Perm
            (pw.owned (process pw spa now user st).queue)
            (given (user_data_of pw (st.buffers b)) b ++ pw.owned st.queue)
  unfolding process receive store on_process_buffer
  process-owned spa now user b rest st c = elim (Option-cases (st.buffers b)) [
    | inl n ↦ rw (c, process, receive, n) (refl, Perm.refl (pw.owned st.queue))
    | inr (buffer, k) ↦ elim (Option-cases buffer.user_data) [
      | inl n ↦ rw (c, process, receive, k, n) (refl, Perm.refl (pw.owned st.queue))
      | inr (h, u) ↦ rw (c, process, receive, k, u) (refl, pw.queue_perm st.queue b)
    ]
  ]

  -- A pause drops what is in the channel, and any other new state keeps every buffer.
  pub state_changed-owned :
      (new : StreamState) (st : Stream pw)
      → Perm
          ((if is_paused new then st.channel else []) ++ in_stream (state_changed pw new st))
          (in_stream st)
  unfolding state_changed
  state_changed-owned paused st = rw append-nil (
      Perm.trans (perm_append_comm st.channel (pw.owned (pw.flush st.queue)))
        (Perm.append_right st.channel (pw.flush_perm st.queue)))
  state_changed-owned streaming st = Perm.refl (in_stream st)
  state_changed-owned error st = Perm.refl (in_stream st)
  state_changed-owned other st = Perm.refl (in_stream st)
