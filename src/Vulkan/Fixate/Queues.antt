-- ===== src/Vulkan/Fixate/Queues.antt =====
-- The queue that on_fixate_format of vulkan/src/lib.rs submits to.
use pw_capture.Common.{
  ℕ, ◌≡◌, refl, Bool, true, false, not, ◌&&◌, ◌||◌, subst, if◌then◌else◌, Option, none, some, List,
  [], ◌∷◌, DashMap, arith, Bool-cases, Option-cases, inl, inr, any,
}
use pw_capture.Vulkan.Layer.{LayerQueue}
use pw_capture.Vulkan.Fixate.{choose_queue}

-- A queue that the layer knows and that can do what is needed: blits need graphics, copies need
-- transfers.
pub suits : DashMap LayerQueue → Bool → ℕ → Bool
suits queue_map need_graphics q = elim (queue_map q) [
  | none ↦ false
  | some lq ↦ if need_graphics then lq.graphics else lq.transfer
]

-- A queue for transfers alone.
unfoldable pub dedicated : DashMap LayerQueue → ℕ → Bool
dedicated queue_map q = elim (queue_map q) [
  | none ↦ false
  | some lq ↦ lq.transfer && not lq.graphics
]

pub Chosen : DashMap LayerQueue → Bool → ℕ × ℕ → Type 0
unfolding suits
Chosen queue_map need_graphics (q, family) =
    (suits queue_map need_graphics q ≡ true)
    × ((lq : LayerQueue) × (queue_map q ≡ some lq) × (lq.family_index ≡ family))

module _ (queue_map : DashMap LayerQueue) where
  this_one :
      (need_graphics : Bool) (q : ℕ) (lq : LayerQueue) (c : ℕ × ℕ)
      → queue_map q ≡ some lq
      → (if need_graphics then lq.graphics else lq.transfer) ≡ true
      → (q, lq.family_index) ≡ c
      → Chosen queue_map need_graphics c
  unfolding Chosen suits
  this_one g q lq c k s e = subst (Chosen queue_map g) e (rw (suits, k) s, (lq, k, refl))

  choose_from :
      (need_graphics : Bool) (queues : List ℕ) (old : Option (ℕ × ℕ)) (c : ℕ × ℕ)
      → ((c' : ℕ × ℕ) → old ≡ some c' → Chosen queue_map need_graphics c')
      → choose_queue queue_map need_graphics queues old ≡ some c
      → Chosen queue_map need_graphics c
  unfolding choose_queue
  choose_from g [] old c h e = h c e
  choose_from g (q ∷ queues) old c h e = elim (Option-cases (queue_map q)) [
    | inl n ↦ choose_from g queues old c h (ground (arith, e, n))
    | inr (lq, k) ↦ elim (Bool-cases (if g then lq.graphics else lq.transfer)) [
      | inr s ↦ choose_from g queues old c h (ground (arith, e, k, s))
      | inl s ↦ elim (Bool-cases (g || not lq.graphics)) [
        | inl stop ↦ this_one g q lq c k s (ground (arith, e, k, s, stop))
        | inr stop ↦
            choose_from g queues (some (q, lq.family_index)) c
              (λ c' e'. this_one g q lq c' k s (ground (arith, e'))) (ground (arith, e, k, s, stop))
      ]
    ]
  ]

  -- The queue that is chosen is one that the layer knows, with the family that the layer has for
  -- it, and it can blit or copy as needed.
  pub choose_queue-Chosen :
      (need_graphics : Bool) (queues : List ℕ) (c : ℕ × ℕ)
      → choose_queue queue_map need_graphics queues none ≡ some c
      → Chosen queue_map need_graphics c
  choose_queue-Chosen g queues c e = choose_from g queues none c (λ c' e'. ground (arith, e')) e

  none_from :
      (need_graphics : Bool) (queues : List ℕ) (old : Option (ℕ × ℕ))
      → choose_queue queue_map need_graphics queues old ≡ none
      → (any (suits queue_map need_graphics) queues ≡ false) × (old ≡ none)
  unfolding choose_queue suits
  none_from g [] old e = (refl, e)
  none_from g (q ∷ queues) old e = elim (Option-cases (queue_map q)) [
    | inl n ↦ rw (suits, n) (none_from g queues old (ground (arith, e, n)))
    | inr (lq, k) ↦ elim (Bool-cases (if g then lq.graphics else lq.transfer)) [
      | inr s ↦
          let (a, b) = none_from g queues old (ground (arith, e, k, s)) in (rw (suits, k, s) a, b)
      | inl s ↦ elim (Bool-cases (g || not lq.graphics)) [
        | inl stop ↦ ground (arith, e, k, s, stop)
        | inr stop ↦
            let (a, b) =
              none_from g queues (some (q, lq.family_index)) (ground (arith, e, k, s, stop)) in
            ground (arith, b)
      ]
    ]
  ]

  -- No queue is chosen only where none of them suits.
  pub choose_queue-none :
      (need_graphics : Bool) (queues : List ℕ)
      → choose_queue queue_map need_graphics queues none ≡ none
      → any (suits queue_map need_graphics) queues ≡ false
  choose_queue-none g queues e = (none_from g queues none e).0

  -- Where the formats agree and a queue for transfers alone is there, such a queue is chosen.
  pub choose_queue-dedicated :
      (queues : List ℕ) (old : Option (ℕ × ℕ)) (c : ℕ × ℕ)
      → any (dedicated queue_map) queues ≡ true
      → choose_queue queue_map false queues old ≡ some c
      → dedicated queue_map c.0 ≡ true
  unfolding choose_queue dedicated
  choose_queue-dedicated [] old c h e = ground (arith, h)
  choose_queue-dedicated (q ∷ queues) old c h e = elim (Option-cases (queue_map q)) [
    | inl n ↦ choose_queue-dedicated queues old c (ground (arith, h, n)) (ground (arith, e, n))
    | inr (lq, k) ↦ elim (Bool-cases lq.transfer) [
      | inr s ↦
          choose_queue-dedicated queues old c (ground (arith, h, k, s)) (ground (arith, e, k, s))
      | inl s ↦ elim (Bool-cases lq.graphics) [
        | inl gr ↦
            choose_queue-dedicated queues (some (q, lq.family_index)) c
              (ground (arith, h, k, s, gr)) (ground (arith, e, k, s, gr))
        | inr gr ↦
            let same : q ≡ c.0 = ground (arith, e, k, s, gr) in
            subst (λ x. dedicated queue_map x ≡ true) same (rw (dedicated, k, s, gr) refl)
      ]
    ]
  ]
