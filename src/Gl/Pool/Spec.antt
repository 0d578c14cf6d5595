-- ===== src/Gl/Pool/Spec.antt =====
-- What the texture callbacks promise: a queue of free textures and the set of those lent to the
-- stream.
use pw_capture.Common.{
  ℕ, Bool, true, false, ◌==◌, if◌then◌else◌, Option, none, some, List, [], ◌∷◌, ◌++◌,
}

pub data Op : Type 0 where
  lend : Op
  give_back : ℕ → Op

-- What the stream sees of a call.
abbrev pub Answer : Type 0
Answer = Option ℕ

pub record Pool : Type 0 where
  pub free : List ℕ
  pub lent : ℕ → Bool

unfoldable pub set_lent : ℕ → Bool → (ℕ → Bool) → ℕ → Bool
set_lent t b lent i = if i == t then b else lent i

unfoldable pub lend_first : (ℕ → Bool) → List ℕ → Pool × Answer
unfolding set_lent
lend_first lent [] = (record { free = []; lent = lent }, none)
lend_first lent (t ∷ free) = (record { free = free; lent = set_lent t true lent }, some t)

unfoldable pub step : Op → Pool → Pool × Answer
unfolding lend_first set_lent
step lend p = lend_first p.lent p.free
step (give_back t) p =
    if p.lent t
    then (record { free = p.free ++ t ∷ []; lent = set_lent t false p.lent }, some t)
    else (p, none)

unfoldable pub answers : List Op → Pool → List Answer
unfolding step
answers [] p = []
answers (o ∷ ops) p = (step o p).1 ∷ answers ops (step o p).0
