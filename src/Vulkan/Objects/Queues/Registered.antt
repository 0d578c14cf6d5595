-- ===== src/Vulkan/Objects/Queues/Registered.antt =====
-- The queues that register_device of vulkan/src/lib.rs adds are those of its device.
use pw_capture.Common.{
  ℕ, ◌≡◌, sym, ap, ◌⊎◌, inl, inr, true, ◌==◌, ==_refl, ==_iff, zero, suc, ◌+◌, ◌≤◌, ◌<◌, false,
  refl, Option, none, some, List, [], ◌∷◌, ◌++◌, has, DashMap, insert, get_elem?, arith, Bool-cases,
  Option-cases,
}
use pw_capture.Vulkan.Layer.{LayerQueue}
use pw_capture.Vulkan.Objects.{Family, family_queues, insert_queues, register_queues}

-- A queue of the new map is one of the old map, or one of the device's list.
abbrev pub From : DashMap LayerQueue → ℕ → List ℕ → DashMap LayerQueue → Type 0
From m device queues m' =
    (q : ℕ) (l : LayerQueue)
    → m' q ≡ some l
    → (m q ≡ some l) ⊎ ((l.device ≡ device) × (has q queues ≡ true))

has-left : (q : ℕ) (xs ys : List ℕ) → has q xs ≡ true → has q (xs ++ ys) ≡ true
has-left q [] ys h = ground arith
has-left q (x ∷ xs) ys h = ground (arith, has-left q xs ys)

has-right : (q : ℕ) (xs ys : List ℕ) → has q ys ≡ true → has q (xs ++ ys) ≡ true
has-right q [] ys h = h
has-right q (x ∷ xs) ys h = ground (arith, has-right q xs ys h)

insert_queues-From :
    (qs : List ℕ) (l : LayerQueue) (m : DashMap LayerQueue)
    → From m l.device qs (insert_queues qs l m)
unfolding insert_queues
insert_queues-From [] l m q x k = inl k
insert_queues-From (y ∷ qs) l m q x k = elim (insert_queues-From qs l (insert y l m) q x k) [
  | inr (d, h) ↦ inr (d, ground arith)
  | inl k' ↦ elim (Bool-cases (q == y)) [
    | inl e ↦ let same : l ≡ x = ground arith in inr (sym (ap (λ z. z.device) same), ground arith)
    | inr e ↦ inl (ground arith)
  ]
]

abbrev pub RegisteredFrom : DashMap LayerQueue → ℕ → Option (List ℕ × DashMap LayerQueue) → Type 0
RegisteredFrom m device none = Unit
RegisteredFrom m device (some (qs, m')) = From m device qs m'

From-append :
    (m m1 m2 : DashMap LayerQueue) (device : ℕ) (xs ys : List ℕ)
    → From m device xs m1
    → From m1 device ys m2
    → From m device (xs ++ ys) m2
From-append m m1 m2 device xs ys f g q l k = elim (g q l k) [
  | inr (d, h) ↦ inr (d, has-right q xs ys h)
  | inl k' ↦ elim (f q l k') [ inl a ↦ inl a | inr (d, h) ↦ inr (d, has-left q xs ys h) ]
]

pub register_queues-From :
    (queue : ℕ → ℕ → ℕ) (families : List Family) (device : ℕ) (infos : List (ℕ × ℕ))
    (m : DashMap LayerQueue)
    → RegisteredFrom m device (register_queues queue families device infos m)
unfolding register_queues
register_queues-From queue families device [] m = λ q l k. inl k
register_queues-From queue families device ((family, count) ∷ infos) m =
    elim (Option-cases (get_elem? families family)) [
      | inl n ↦ rw (register_queues, n) tt
      | inr (f, k) ↦
          let qs = family_queues (queue family) count 0 in
          let l : LayerQueue = record {
            device = device;
            family_index = family;
            graphics = f.graphics;
            transfer = f.transfer;
          } in
          let m1 = insert_queues qs l m in
          elim (Option-cases (register_queues queue families device infos m1)) [
            | inl n ↦ rw (register_queues, k, n) tt
            | inr ((rest, m2), e) ↦
                rw (register_queues, k, e)
                  (From-append m m1 m2 device qs rest (insert_queues-From qs l m)
                    (rw e at (register_queues-From queue families device infos m1)))
          ]
    ]

-- The queue is in the map as one of the device.
abbrev pub Holds : DashMap LayerQueue → ℕ → ℕ → Type 0
Holds m device q = (l : LayerQueue) × (m q ≡ some l) × (l.device ≡ device)

-- The queue is one that a creation asks for: of a family's entry, below its count.
abbrev pub Asked : (ℕ → ℕ → ℕ) → ℕ → List (ℕ × ℕ) → Type 0
Asked queue q [] = ⊥
Asked queue q ((family, count) ∷ infos) =
    ((index : ℕ) × (index < count) × (queue family index ≡ q)) ⊎ Asked queue q infos

insert-Holds :
    (y : ℕ) (l : LayerQueue) (m : DashMap LayerQueue) (q : ℕ)
    → Holds m l.device q
    → Holds (insert y l m) l.device q
insert-Holds y l m q h = elim (Bool-cases (q == y)) [
  | inl e ↦ (l, rw e refl, refl)
  | inr e ↦ (h.0, rw e h.1, h.2)
]

insert_queues-Holds :
    (qs : List ℕ) (l : LayerQueue) (m : DashMap LayerQueue) (q : ℕ)
    → Holds m l.device q
    → Holds (insert_queues qs l m) l.device q
unfolding insert_queues
insert_queues-Holds [] l m q h = h
insert_queues-Holds (y ∷ qs) l m q h =
    insert_queues-Holds qs l (insert y l m) q (insert-Holds y l m q h)

later : (q y : ℕ) (qs : List ℕ) → has q (y ∷ qs) ≡ true → (q == y) ≡ false → has q qs ≡ true
later q y qs h e = ground arith

insert_queues-own :
    (qs : List ℕ) (l : LayerQueue) (m : DashMap LayerQueue) (q : ℕ)
    → has q qs ≡ true
    → Holds (insert_queues qs l m) l.device q
unfolding insert_queues
insert_queues-own [] l m q h = ground (arith, h)
insert_queues-own (y ∷ qs) l m q h = elim (Bool-cases (q == y)) [
  | inl e ↦ insert_queues-Holds qs l (insert y l m) q (l, rw e refl, refl)
  | inr e ↦ insert_queues-own qs l (insert y l m) q (later q y qs h e)
]

family_queues-has :
    (queue : ℕ → ℕ) (count start k : ℕ)
    → start ≤ k
    → k < start + count
    → has (queue k) (family_queues queue count start) ≡ true
unfolding family_queues
family_queues-has queue zero start k l h = absurd (omega (arith, l, h))
family_queues-has queue (suc count) start k l h = elim (Bool-cases (k == start)) [
  | inl e ↦ rw (← (==_iff k start).0 e, ==_refl (queue k)) refl
  | inr e ↦
      let rest = family_queues-has queue count (suc start) k (ground arith) (omega (arith, h)) in
      ground (arith, rest)
]

abbrev AnyHolds : (ℕ → Type 0) → Option (List ℕ × DashMap LayerQueue) → ℕ → Type 0
AnyHolds P none device = Unit
AnyHolds P (some (ks, m)) device = (q : ℕ) → P q → Holds m device q

module _ (queue : ℕ → ℕ → ℕ) (families : List Family) (device : ℕ) where
  -- A queue that the map has for the device stays.
  registered_stays :
      (infos : List (ℕ × ℕ)) (m : DashMap LayerQueue)
      → AnyHolds (Holds m device) (register_queues queue families device infos m) device
  unfolding register_queues
  registered_stays [] m = λ q h. h
  registered_stays ((family, count) ∷ infos) m = elim (Option-cases (get_elem? families family)) [
    | inl n ↦ rw (register_queues, n) tt
    | inr (f, k) ↦
        let qs = family_queues (queue family) count 0 in
        let l : LayerQueue = record {
          device = device;
          family_index = family;
          graphics = f.graphics;
          transfer = f.transfer;
        } in
        let m1 = insert_queues qs l m in
        elim (Option-cases (register_queues queue families device infos m1)) [
          | inl n ↦ rw (register_queues, k, n) tt
          | inr ((rest, m2), e) ↦
              rw (register_queues, k, e)
                (λ q h. (rw e at (registered_stays infos m1)) q (insert_queues-Holds qs l m q h))
        ]
  ]

  -- Every queue that is asked for is registered for the device.
  pub register_queues-Holds :
      (infos : List (ℕ × ℕ)) (m : DashMap LayerQueue)
      → AnyHolds (λ q. Asked queue q infos) (register_queues queue families device infos m) device
  unfolding register_queues
  register_queues-Holds [] m = λ q a. absurd a
  register_queues-Holds ((family, count) ∷ infos) m =
      elim (Option-cases (get_elem? families family)) [
        | inl n ↦ rw (register_queues, n) tt
        | inr (f, k) ↦
            let qs = family_queues (queue family) count 0 in
            let l : LayerQueue = record {
              device = device;
              family_index = family;
              graphics = f.graphics;
              transfer = f.transfer;
            } in
            let m1 = insert_queues qs l m in
            elim (Option-cases (register_queues queue families device infos m1)) [
              | inl n ↦ rw (register_queues, k, n) tt
              | inr ((rest, m2), e) ↦
                  rw (register_queues, k, e)
                    (λ q a. elim a [
                      | inr b ↦ (rw e at (register_queues-Holds infos m1)) q b
                      | inl (index, below, is) ↦ (rw e at (registered_stays infos m1)) q (
                          insert_queues-own qs l m q (
                            rw is at (
                              family_queues-has (queue family) count 0 index (omega arith)
                                (omega (arith, below)))))
                    ])
            ]
      ]
