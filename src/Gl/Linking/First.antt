-- ===== src/Gl/Linking/First.antt =====
-- Which object the real dlsym and dlvsym come from, load_dlsym_dlvsym of gl/src/elfhack.rs.
use pw_capture.Common.{
  ◌≡◌, refl, true, Option, none, some, ℕ, List, [], ◌∷◌, ◌++◌, arith, Bool-cases, Option-cases, inl,
  inr, All, String, ◌∙◌, ap, sym, if◌then◌else◌,
}
use pw_capture.Gl.Linking.{
  DlPhdrInfo, Elf, parse_dl_phdr_info, find_symbol_addr, is_libc, look_up, dl_iterate,
  load_dlsym_dlvsym,
}

append_nil : {A : Type 0} (xs : List A) → xs ++ [] ≡ xs
append_nil [] = refl
append_nil (x ∷ xs) = ap (λ ys. x ∷ ys) (append_nil xs)

module _ (elf : Elf) where
  -- The symbol in an object, if it can be read and is libc or libdl.
  unfoldable pub defined : DlPhdrInfo → String → Option ℕ
  defined info name =
      let found : Option ℕ = elim (parse_dl_phdr_info elf info) [
        | none ↦ none
        | some o ↦ find_symbol_addr elf o name
      ] in
      if is_libc info then found else none

  abbrev pub Lacks : DlPhdrInfo → Type 0
  Lacks info = defined info "dlsym" ≡ none

  goes_on :
      (info : DlPhdrInfo) (infos : List DlPhdrInfo) (found : Option ℕ × Option ℕ) (w : Option ℕ)
      → is_libc info ≡ true
      → look_up elf info found ≡ (none, w)
      → dl_iterate elf (info ∷ infos) found ≡ dl_iterate elf infos (none, w)
  unfolding dl_iterate
  goes_on info infos found w e q = ground (arith, e, q)

  breaks :
      (info : DlPhdrInfo) (infos : List DlPhdrInfo) (found : Option ℕ × Option ℕ) (p : ℕ)
      (w : Option ℕ)
      → is_libc info ≡ true
      → look_up elf info found ≡ (some p, w)
      → dl_iterate elf (info ∷ infos) found ≡ (some p, w)
  unfolding dl_iterate
  breaks info infos found p w e q = ground (arith, e, q)

  passes_over :
      (info : DlPhdrInfo) (infos : List DlPhdrInfo) (v : Option ℕ)
      → Lacks info
      → (w : Option ℕ) × (dl_iterate elf (info ∷ infos) (none, v) ≡ dl_iterate elf infos (none, w))
  unfolding dl_iterate look_up defined
  passes_over info infos v h = elim (Bool-cases (is_libc info)) [
    | inr e ↦ (v, rw (dl_iterate, e) refl)
    | inl e ↦ elim (Option-cases (parse_dl_phdr_info elf info)) [
      | inl n ↦
          let looked : look_up elf info (none, v) ≡ (none, v) = rw (look_up, n) refl in
          (v, goes_on info infos (none, v) v e looked)
      | inr (o, k) ↦
          let missing : find_symbol_addr elf o "dlsym" ≡ none = ground (arith, h, k, e) in
          let looked : look_up elf info (none, v) ≡ (none, find_symbol_addr elf o "dlvsym") =
            rw (look_up, k, missing) refl in
          let w = find_symbol_addr elf o "dlvsym" in (w, goes_on info infos (none, v) w e looked)
    ]
  ]

  passes_before :
      (before infos : List DlPhdrInfo) (v : Option ℕ)
      → All Lacks before
      → (w : Option ℕ) × (dl_iterate elf (before ++ infos) (none, v)
          ≡ dl_iterate elf infos (none, w))
  passes_before [] infos v h = (v, refl)
  passes_before (info ∷ before) infos v (h, hs) =
      let (w, e) = passes_over info (before ++ infos) v h in
      let (w', e') = passes_before before infos w hs in (w', e ∙ e')

  stops_at :
      (info : DlPhdrInfo) (infos : List DlPhdrInfo) (v : Option ℕ) (p : ℕ)
      → defined info "dlsym" ≡ some p
      → dl_iterate elf (info ∷ infos) (none, v) ≡ (some p, defined info "dlvsym")
  unfolding dl_iterate look_up defined
  stops_at info infos v p h = elim (Bool-cases (is_libc info)) [
    | inr e ↦ absurd (ground (arith, h, e))
    | inl e ↦ elim (Option-cases (parse_dl_phdr_info elf info)) [
      | inl n ↦ absurd (ground (arith, h, e, n))
      | inr (o, k) ↦
          let there : find_symbol_addr elf o "dlsym" ≡ some p = ground (arith, h, k, e) in
          let looked : look_up elf info (none, v) ≡ (some p, find_symbol_addr elf o "dlvsym") =
            rw (look_up, k, there) refl in
          let same : defined info "dlvsym" ≡ find_symbol_addr elf o "dlvsym" =
            rw (defined, e, k) refl in
          breaks info infos (none, v) p (find_symbol_addr elf o "dlvsym") e looked
          ∙ ap (λ w. (some p, w)) (sym same)
    ]
  ]

  -- The pair comes from one object: the first libdl or libc that can be read and defines dlsym, with
  -- the dlvsym of that object or none, whatever the objects before it define and whatever follows;
  -- where no object defines dlsym, there is none.
  pub load_dlsym_dlvsym-first :
      (before after : List DlPhdrInfo) (info : DlPhdrInfo) (p : ℕ)
      → All Lacks before
      → defined info "dlsym" ≡ some p
      → (load_dlsym_dlvsym elf (before ++ info ∷ after) ≡ (some p, defined info "dlvsym"))
        × ((load_dlsym_dlvsym elf before).0 ≡ none)
  unfolding load_dlsym_dlvsym
  load_dlsym_dlvsym-first before after info p h d =
      let (w, e) = passes_before before (info ∷ after) none h in
      let (w', e') = passes_before before [] none h in
      (e ∙ stops_at info after w p d, rw (← append_nil before) (ap (λ r. r.0) e'))
