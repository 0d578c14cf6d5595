-- ===== src/Client/Thread/Dropped.antt =====
-- The end of the client's thread, by the drop of a Client of client/src/client.rs.
use pw_capture.Common.{
  ℕ, ◌≡◌, refl, ◌∙◌, insert, if◌then◌else◌, ◌&&◌, subst, sym, ap, Bool, true, false, All, Option,
  none, some, List, [], ◌∷◌, ◌++◌, arith, Bool-cases, Option-cases, inl, inr,
}
use pw_capture.Client.Negotiation.{StreamInfo}
use pw_capture.Client.Manager.{
  StreamMaker, new_stream, ClientImpl, new_client, terminate, create_stream, run_on_terminate,
  remove_stream, Message, client_terminate, client_create_stream, stream_terminate, receive,
  receive_all,
}
use pw_capture.Client.Manager.Streams.{NamesFormats, receive_all-total}
use pw_capture.Client.Thread.{Startup, pw_thread, client_new, client_drop}

-- A client that was told to quit has no stream.
Quiet : ClientImpl → Type 0
Quiet c = c.running ≡ false → (i : ℕ) → c.stream_map i ≡ none

OnSome : (ClientImpl → Type 0) → Option ClientImpl → Type 0
OnSome P none = Unit
OnSome P (some c) = P c

OnSome-if :
    (P : ClientImpl → Type 0) (b : Bool) (x y : Option ClientImpl)
    → (b ≡ true → OnSome P x)
    → (b ≡ false → OnSome P y)
    → OnSome P (if b then x else y)
OnSome-if P true x y h k = h refl
OnSome-if P false x y h k = k refl

remove_stream-Quiet :
    (id : ℕ) (c : ClientImpl) → c.running ≡ true → OnSome Quiet (remove_stream id c)
unfolding remove_stream Quiet OnSome
remove_stream-Quiet id c r = elim (Option-cases (c.stream_map id)) [
  | inl n ↦ rw (remove_stream, n) tt
  | inr (s, k) ↦ rw (remove_stream, k) (λ stopped i. absurd (ground (arith, stopped, r)))
]

-- A stream ends itself only while the client runs.
run_on_terminate-Quiet :
    (at : ℕ) (id : Option ℕ) (c : ClientImpl)
    → c.running ≡ true
    → OnSome Quiet (run_on_terminate at id c)
unfolding run_on_terminate Quiet OnSome
run_on_terminate-Quiet at none c r = λ stopped i. absurd (ground (arith, stopped, r))
run_on_terminate-Quiet at (some id) c r =
    remove_stream-Quiet id
      (record c { stream_map = insert at (record { on_terminate = none }) c.stream_map }) r

started : (s : Startup) (c : ClientImpl) → client_new s ≡ some c → c ≡ new_client
unfolding client_new pw_thread OnSome
started s c e = subst (OnSome (λ x. x ≡ new_client)) e (
    OnSome-if (λ x. x ≡ new_client) (s.main_loop && s.context && s.connect) (some new_client) none
      (λ r. refl) (λ r. tt))

module _ (pw : StreamMaker) where
  and_then : List Message → Option ClientImpl → Option ClientImpl
  and_then rest none = none
  and_then rest (some c) = receive_all pw rest c

  receive_all-append :
      (ms rest : List Message) (c : ClientImpl)
      → receive_all pw (ms ++ rest) c ≡ and_then rest (receive_all pw ms c)
  unfolding receive_all and_then
  receive_all-append [] rest c = refl
  receive_all-append (m ∷ ms) rest c = elim (Option-cases (receive pw m c)) [
    | inl n ↦ rw (receive_all, n) refl
    | inr (c1, k) ↦ rw (receive_all, k) (receive_all-append ms rest c1)
  ]

  created-Quiet :
      (info : StreamInfo) (c : ClientImpl)
      → c.running ≡ true
      → OnSome Quiet (elim (create_stream pw info c) [ none ↦ none | some r ↦ some r.0 ])
  unfolding create_stream Quiet OnSome
  created-Quiet info c r = elim (Option-cases (new_stream pw info)) [
    | inl n ↦ rw (create_stream, n) tt
    | inr (true, k) ↦ rw (create_stream, k) (λ stopped i. absurd (ground (arith, stopped, r)))
    | inr (false, k) ↦ rw (create_stream, k) (λ stopped i. absurd (ground (arith, stopped, r)))
  ]

  All-append :
      (ms rest : List Message)
      → All NamesFormats ms
      → All NamesFormats rest
      → All NamesFormats (ms ++ rest)
  All-append [] rest n k = k
  All-append (m ∷ ms) rest (n, ns) k = (n, All-append ms rest ns k)

  receive-Quiet : (m : Message) (c : ClientImpl) → Quiet c → OnSome Quiet (receive pw m c)
  unfolding receive Quiet OnSome terminate create_stream
  receive-Quiet client_terminate c q =
      OnSome-if Quiet c.running (some (terminate c)) (some c) (λ r stopped i. refl) (λ r. q)
  receive-Quiet (client_create_stream info) c q =
      OnSome-if Quiet c.running _ (some c) (λ r. created-Quiet info c r) (λ r. q)
  receive-Quiet (stream_terminate at) c q = elim (Option-cases (c.stream_map at)) [
    | inl n ↦ rw (receive, n) q
    | inr (s, k) ↦
        let runs : c.running ≡ true = elim (Bool-cases c.running) [
          | inl r ↦ r
          | inr r ↦ absurd (ground (arith, k, q r at))
        ] in
        rw (receive, k) (run_on_terminate-Quiet at s.on_terminate c runs)
  ]

  receive_all-Quiet :
      (ms : List Message) (c : ClientImpl) → Quiet c → OnSome Quiet (receive_all pw ms c)
  unfolding receive_all OnSome
  receive_all-Quiet [] c q = q
  receive_all-Quiet (m ∷ ms) c q = elim (Option-cases (receive pw m c)) [
    | inl n ↦ rw (receive_all, n) tt
    | inr (c1, k) ↦
        rw (receive_all, k) (receive_all-Quiet ms c1 (subst (OnSome Quiet) k (receive-Quiet m c q)))
  ]

  ends :
      (c : ClientImpl)
      → c.running ≡ true
      → receive_all pw (client_terminate ∷ []) c ≡ some (terminate c)
  unfolding receive_all receive terminate
  ends c r = simp (receive_all, receive, r)

  ended : (c : ClientImpl) → c.running ≡ false → receive_all pw (client_terminate ∷ []) c ≡ some c
  unfolding receive_all receive
  ended c r = simp (receive_all, receive, r)

  new_client-Quiet :
      (ms : List Message) (c : ClientImpl) → receive_all pw ms new_client ≡ some c → Quiet c
  unfolding Quiet OnSome
  new_client-Quiet ms c e =
      subst (OnSome Quiet) e
        (receive_all-Quiet ms new_client (λ stopped i. absurd (ground (arith, stopped))))

  -- The thread takes `terminate` behind any messages.
  terminated :
      (handled pending : List Message) (c1 : ClientImpl)
      → All NamesFormats (handled ++ pending)
      → receive_all pw handled new_client ≡ some c1
      → (c2 : ClientImpl) × (receive_all pw (pending ++ client_terminate ∷ []) c1 ≡ some c2)
        × (c2.running ≡ false)
        × ((i : ℕ) → c2.stream_map i ≡ none)
  unfolding and_then Quiet terminate
  terminated handled pending c1 n h =
      let (c3, e) = receive_all-total pw (handled ++ pending) n in
      let passed : receive_all pw pending c1 ≡ some c3 =
        sym (receive_all-append handled pending new_client ∙ ap (and_then pending) h) ∙ e in
      let last : receive_all pw (pending ++ client_terminate ∷ []) c1
          ≡ receive_all pw (client_terminate ∷ []) c3 =
        receive_all-append pending (client_terminate ∷ []) c1
        ∙ ap (and_then (client_terminate ∷ [])) passed in
      elim (Bool-cases c3.running) [
        | inl r ↦ (terminate c3, last ∙ ends c3 r, refl, λ i. refl)
        | inr r ↦ (c3, last ∙ ended c3 r, r, new_client-Quiet (handled ++ pending) c3 e r)
      ]

  -- A client whose thread has started can be dropped after any messages to it whose offers name a
  -- pixel format: with those that are still pending the thread comes to its end, without a panic
  -- and without a stream.
  pub client_drop-ends :
      (s : Startup) (handled pending : List Message) (c c1 : ClientImpl)
      → All NamesFormats handled
      → All NamesFormats pending
      → client_new s ≡ some c
      → receive_all pw handled c ≡ some c1
      → (c2 : ClientImpl) × (client_drop pw pending c1 ≡ some c2)
        × (c2.running ≡ false)
        × ((i : ℕ) → c2.stream_map i ≡ none)
  unfolding client_new client_drop Quiet
  client_drop-ends s handled pending c c1 n n' e h =
      let start : c ≡ new_client = started s c e in
      let h' : receive_all pw handled new_client ≡ some c1 = rw start at h in
      elim (Bool-cases c1.running) [
        | inl r ↦
            let (c2, k, stopped, empty) =
              terminated handled pending c1 (All-append handled pending n n') h' in
            (c2, simp (client_drop, r, k), stopped, empty)
        | inr r ↦ (c1, simp (client_drop, r), r, new_client-Quiet handled c1 h' r)
      ]
