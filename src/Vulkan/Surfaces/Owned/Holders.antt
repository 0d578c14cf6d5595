-- ===== src/Vulkan/Surfaces/Owned/Holders.antt =====
-- Owners and what is live, for the handles in the table of surfaces of vulkan/src/lib.rs.
use pw_capture.Common.{
  ℕ, ◌≡◌, ◌≢◌, refl, sym, ap, ◌∙◌, inl, inr, Bool, true, false, ◌==◌, if◌then◌else◌, none, some,
  DashMap, insert, remove, arith, ==_iff, Bool-cases,
}
use pw_capture.Vulkan.Surfaces.{LayerSurface}

-- Owners, by what they hold (0 for nothing), and what is live: each live handle has one owner, and
-- nothing else is owned.
pub record Matched (f : ℕ → ℕ) (live : ℕ → Bool) : Type 0 where
  pub held : (i : ℕ) → f i ≢ 0 → live (f i) ≡ true
  pub apart : (i j : ℕ) → f i ≢ 0 → f i ≡ f j → i ≡ j
  pub kept : (h : ℕ) → live h ≡ true → (i : ℕ) × (f i ≡ h)

module _ (f g : ℕ → ℕ) (live now : ℕ → Bool) (s : ℕ) (m : Matched f live) where
  pub Matched-same : ((i : ℕ) → g i ≡ f i) → ((i : ℕ) → now i ≡ live i) → Matched g now
  Matched-same p q = record {
    held = λ i z. rw (q (g i), p i) (m.held i (λ e. z (p i ∙ e)));
    apart = λ i j z e. m.apart i j (λ k. z (p i ∙ k)) (sym (p i) ∙ e ∙ p j);
    kept = λ h e. let (i, k) = m.kept h (sym (q h) ∙ e) in (i, p i ∙ k);
  }

  pub Matched-add :
      (h : ℕ)
      → f s ≡ 0
      → h ≢ 0
      → live h ≡ false
      → live 0 ≡ false
      → ((i : ℕ) → g i ≡ (if i == s then h else f i))
      → ((i : ℕ) → now i ≡ (if i == h then true else live i))
      → Matched g now
  Matched-add h free z new zero p q = record {
    held = λ i k. ground (arith, p i, q (g i), m.held i);
    apart = λ i j k e. ground (arith, p i, p j, m.apart i j, m.held i, m.held j);
    kept = λ k e. elim (Bool-cases (k == h)) [
      | inl same ↦ (s, ground (arith, p s))
      | inr other ↦
          let was : live k ≡ true = ground (arith, q k, other) in
          let (i, l) = m.kept k was in
          let moved : i ≡ s → live 0 ≡ true = λ a. rw (sym l ∙ ap f a ∙ free) at was in
          (i, ground (arith, p i, l, moved))
    ];
  }

  pub Matched-remove :
      f s ≢ 0
      → ((i : ℕ) → g i ≡ (if i == s then 0 else f i))
      → ((i : ℕ) → now i ≡ (if i == f s then false else live i))
      → Matched g now
  Matched-remove z p q = record {
    held = λ i k. ground (arith, p i, q (g i), m.held i, m.apart i s);
    apart = λ i j k e. ground (arith, p i, p j, m.apart i j);
    kept = λ k e. let (i, l) = m.kept k (ground (arith, q k)) in (i, ground (arith, p i, q k, l));
  }

-- The handle of a surface.
unfoldable pub manager_at : DashMap LayerSurface → ℕ → ℕ
manager_at m i = elim (m i) [ none ↦ 0 | some x ↦ x.wl_cursor_manager ]

pub manager_at-missing : (m : DashMap LayerSurface) (i : ℕ) → m i ≡ none → manager_at m i ≡ 0
unfolding manager_at
manager_at-missing m i e = rw (manager_at, e) refl

pub manager_at-remove :
    (m : DashMap LayerSurface) (s i : ℕ)
    → manager_at (remove s m) i ≡ (if i == s then 0 else manager_at m i)
unfolding manager_at
manager_at-remove m s i = elim (Bool-cases (i == s)) [
  | inl e ↦ rw (manager_at, remove, e) refl
  | inr e ↦ rw (manager_at, remove, e) refl
]

pub manager_at-insert :
    (m : DashMap LayerSurface) (s i : ℕ) (x : LayerSurface)
    → manager_at (insert s x m) i ≡ (if i == s then x.wl_cursor_manager else manager_at m i)
unfolding manager_at
manager_at-insert m s i x = elim (Bool-cases (i == s)) [
  | inl e ↦ rw (manager_at, insert, e) refl
  | inr e ↦ rw (manager_at, insert, e) refl
]

-- Nothing in place of nothing.
pub still_none : (f : ℕ → ℕ) (s i : ℕ) → f s ≡ 0 → (if i == s then 0 else f i) ≡ f i
still_none f s i z = elim (Bool-cases (i == s)) [
  | inl e ↦ rw (e, ap f ((==_iff i s).0 e), z) refl
  | inr e ↦ rw e refl
]
