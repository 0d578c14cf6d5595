-- ===== src/Client/Manager/Streams.antt =====
-- The stream map of client/src/client.rs: its ids and the `expect` of the terminate closure.
use pw_capture.Common.{
  ℕ, ◌+◌, ◌^◌, ◌<◌, ◌≡◌, refl, none, some, insert, remove, arith, List, [], ◌∷◌, ◌==◌, ◌≢◌, ap,
  subst, All, Option, true, false, ◌⊎◌, ==_refl, ==_iff, Bool-cases, Option-cases, inl, inr,
}
use pw_capture.Client.Negotiation.{StreamInfo}
use pw_capture.Client.Manager.{
  StreamMaker, names_formats, new_stream, next_id, StreamImpl, ClientImpl, new_client, terminate,
  create_stream, remove_stream, run_on_terminate, Message, client_terminate, client_create_stream,
  stream_terminate, receive, receive_all,
}

-- Every stream's closure still removes that stream.
pub IsLinked : ClientImpl → Type 0
IsLinked c =
    (at : ℕ) (stream : StreamImpl) → c.stream_map at ≡ some stream → stream.on_terminate ≡ some at

-- Every id that is in use was given out before the next one.
unfoldable pub IsBelow : ClientImpl → Type 0
IsBelow c = (at : ℕ) (stream : StreamImpl) → c.stream_map at ≡ some stream → at < c.stream_next_id

never_none : {id : ℕ} → none ≢ some id
never_none e = ground (arith, e)

unused : (c : ClientImpl) → IsBelow c → (id : ℕ) → c.stream_next_id ≡ id → c.stream_map id ≡ none
unfolding IsBelow
unused c h id q = elim (Option-cases (c.stream_map id)) [
  | inl n ↦ n
  | inr (s, k) ↦ let below : id < c.stream_next_id = h id s k in ground (arith, below, q)
]

-- The offers of a stream that is asked for name a pixel format each.
abbrev pub NamesFormats : Message → Type 0
NamesFormats (client_create_stream info) = names_formats info.enum_formats ≡ true
NamesFormats client_terminate = Unit
NamesFormats (stream_terminate at) = Unit

module _ (pw : StreamMaker) where
  pub new_stream-answers :
      (info : StreamInfo)
      → names_formats info.enum_formats ≡ true
      → (new_stream pw info ≡ some true) ⊎ (new_stream pw info ≡ some false)
  unfolding new_stream
  new_stream-answers info h = elim (Bool-cases (pw.make info)) [
    | inr m ↦ inr (ground (arith, m))
    | inl m ↦ elim (Bool-cases (pw.connect info)) [
      | inl k ↦ inl (ground (arith, m, h, k))
      | inr k ↦ inr (ground (arith, m, h, k))
    ]
  ]

  added : ClientImpl → ClientImpl
  added c = record (next_id pw c) {
    stream_map =
        insert c.stream_next_id (record { on_terminate = some c.stream_next_id }) c.stream_map;
  }

  added-IsLinked : (c : ClientImpl) → IsLinked c → IsLinked (added c)
  unfolding added IsLinked
  added-IsLinked c h at s k = elim (Bool-cases (at == c.stream_next_id)) [
    | inl a ↦ ground (arith, a, k)
    | inr a ↦ h at s (ground (arith, a, k))
  ]

  create_stream-IsLinked :
      (info : StreamInfo) (c : ClientImpl)
      → IsLinked c
      → names_formats info.enum_formats ≡ true
      → (r : ClientImpl × Option ℕ) × (create_stream pw info c ≡ some r) × IsLinked r.0
  unfolding create_stream added IsLinked
  create_stream-IsLinked info c h n = elim (new_stream-answers info n) [
    | inl e ↦ ((added c, some c.stream_next_id), rw (create_stream, e) refl, added-IsLinked c h)
    | inr e ↦ ((next_id pw c, none), rw (create_stream, e) refl, h)
  ]

  removed : ℕ → ClientImpl → ClientImpl
  removed at c = record c {
    stream_map = remove at (insert at (record { on_terminate = none }) c.stream_map);
  }

  removed-IsLinked : (at : ℕ) (c : ClientImpl) → IsLinked c → IsLinked (removed at c)
  unfolding removed IsLinked
  removed-IsLinked at c h i s k = elim (Bool-cases (i == at)) [
    | inl e ↦ ground (arith, e, k)
    | inr e ↦ h i s (ground (arith, e, k))
  ]

  receive-removed :
      (at : ℕ) (c : ClientImpl) (stream : StreamImpl)
      → c.stream_map at ≡ some stream
      → stream.on_terminate ≡ some at
      → receive pw (stream_terminate at) c ≡ some (removed at c)
  unfolding receive run_on_terminate remove_stream removed
  receive-removed at c stream k o = rw (receive, k, o, remove_stream, ==_refl at) refl

  -- A linked client takes every message whose offers name a pixel format without a panic, and
  -- stays linked.
  pub receive-IsLinked :
      (m : Message) (c : ClientImpl)
      → IsLinked c
      → NamesFormats m
      → (c' : ClientImpl) × (receive pw m c ≡ some c') × IsLinked c'
  unfolding receive terminate IsLinked
  receive-IsLinked client_terminate c h n = elim (Bool-cases c.running) [
    | inl e ↦ (terminate c, ground (arith, e), λ at s k. ground (arith, k))
    | inr e ↦ (c, ground (arith, e), h)
  ]
  receive-IsLinked (client_create_stream info) c h n = elim (Bool-cases c.running) [
    | inl e ↦ let (r, k, l) = create_stream-IsLinked info c h n in (r.0, ground (arith, e, k), l)
    | inr e ↦ (c, ground (arith, e), h)
  ]
  receive-IsLinked (stream_terminate at) c h n = elim (Option-cases (c.stream_map at)) [
    | inl n ↦ (c, rw (receive, n) refl, h)
    | inr (stream, k) ↦
        (removed at c, receive-removed at c stream k (h at stream k), removed-IsLinked at c h)
  ]

  -- A linked client handles every sequence of messages.
  all_from :
      (ms : List Message) (c : ClientImpl)
      → IsLinked c
      → All NamesFormats ms
      → (c' : ClientImpl) × (receive_all pw ms c ≡ some c') × IsLinked c'
  unfolding receive_all
  all_from [] c h n = (c, refl, h)
  all_from (m ∷ ms) c h (n, ns) =
      let (c1, e, h1) = receive-IsLinked m c h n in
      let (c2, e2, h2) = all_from ms c1 h1 ns in (c2, rw (receive_all, e) e2, h2)

  -- From a new client, every sequence of messages whose offers name a pixel format is handled
  -- without a panic: no closure finds its stream gone, and no assertion fails.
  pub receive_all-total :
      (ms : List Message)
      → All NamesFormats ms
      → (c : ClientImpl) × (receive_all pw ms new_client ≡ some c)
  unfolding IsLinked
  receive_all-total ms n =
      let (c, e, h) = all_from ms new_client (λ at s k. ground (arith, k)) n in (c, e)

  create_stream_cases :
      (info : StreamInfo) (c : ClientImpl) (r : ClientImpl × Option ℕ)
      → create_stream pw info c ≡ some r
      → ((next_id pw c, none) ≡ r) ⊎ ((added c, some c.stream_next_id) ≡ r)
  unfolding create_stream added
  create_stream_cases info c r e = elim (Option-cases (new_stream pw info)) [
    | inl n ↦ absurd (ground (arith, e, n))
    | inr (true, k) ↦ inr (ground (arith, e, k))
    | inr (false, k) ↦ inl (ground (arith, e, k))
  ]

  -- While the ids have not used up 64 bits, a stream that is created gets an id that no stream in
  -- the map has, and every id in the map stays below the next one.
  pub create_stream-fresh :
      (info : StreamInfo) (c c' : ClientImpl) (id : ℕ)
      → IsBelow c
      → c.stream_next_id + 1 < 2 ^ 64
      → create_stream pw info c ≡ some (c', some id)
      → (c.stream_map id ≡ none)
        × (c'.stream_map id ≡ some (record { on_terminate = some id }))
        × IsBelow c'
  unfolding added IsBelow
  create_stream-fresh info c c' id h l e = elim (create_stream_cases info c (c', some id) e) [
    | inl q ↦ absurd (never_none (ap (λ r. r.1) q))
    | inr q ↦
        let same : c.stream_next_id ≡ id = ground (arith, ap (λ r. r.1) q) in
        subst
          (λ x.
            (c.stream_map id ≡ none)
            × (x.stream_map id ≡ some (record { on_terminate = some id }))
            × IsBelow x)
          (ap (λ r. r.0) q)
          (
            unused c h id same,
            ground (arith, same, ==_refl id),
            λ at s k. elim (Bool-cases (at == c.stream_next_id)) [
              | inl a ↦ ground (arith, l, a, ==_iff at c.stream_next_id)
              | inr a ↦
                  let below : at < c.stream_next_id = h at s (ground (arith, k, a)) in
                  ground (arith, l, below)
            ],
          )
  ]
