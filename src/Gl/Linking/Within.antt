-- ===== src/Gl/Linking/Within.antt =====
-- The memory that the tables of an object are read from, parse_dl_phdr_info of gl/src/elfhack.rs.
use pw_capture.Common.{
  ℕ, ◌^◌, ◌++◌, ◌≢◌, ◌⊎◌, refl, ap, ◌∙◌, All, ◌+◌, ◌-◌, ◌≤◌, ◌<◌, ◌≡◌, subst, Bool, true, false,
  ◌&&◌, leb, ltb, Option, none, some, List, [], ◌∷◌, arith, Bool-cases, Option-cases, inl, inr,
}
use native.Mathlib.Nat.{mod-eq_of_lt}
use pw_capture.Gl.Linking.{
  HeaderKind, pt_load, pt_dynamic, pt_other, Phdr, Tag, dt_gnu_hash, dt_hash, dt_strtab, dt_symtab,
  dt_other, if_ok, DlPhdrInfo, Slice, ObjectInfo, Elf, Found, nothing_found, mem_range,
  dynamic_slice, read_entry, read_entries, object_of, parse_dl_phdr_info,
}

-- The memory starts inside the range and ends with it.
pub IsWithin : ℕ × ℕ → Slice → Type 0
IsWithin range s = (range.0 ≤ s.start) × (s.start < range.1) × (s.start + s.size ≡ range.1)

pub IfWithin : ℕ × ℕ → Option Slice → Type 0
IfWithin range none = Unit
IfWithin range (some s) = IsWithin range s

AllWithin : ℕ × ℕ → Found → Type 0
AllWithin range t =
    IfWithin range t.gnu_hash
    × IfWithin range t.sysv_hash
    × IfWithin range t.strings
    × IfWithin range t.symbols

if_ok-IfWithin :
    (range : ℕ × ℕ) (b : Bool) (s : Slice) → IsWithin range s → IfWithin range (if_ok b s)
unfolding IfWithin
if_ok-IfWithin range true s h = h
if_ok-IfWithin range false s h = tt

in_range :
    (range : ℕ × ℕ) (ptr : ℕ)
    → (leb range.0 ptr && ltb ptr range.1) ≡ true
    → IsWithin range (record { start = ptr; size = range.1 - ptr })
unfolding IsWithin
in_range range ptr e = ground arith

pub InObject : ℕ × ℕ → ObjectInfo → Type 0
InObject range o =
    IfWithin range o.gnu_hash_table
    × IfWithin range o.sysv_hash_table
    × IsWithin range o.string_table
    × IsWithin range o.symbol_table

tables_of :
    (range : ℕ × ℕ) (relocation : ℕ) (gnu sysv strings symbols : Option Slice) (o : ObjectInfo)
    → object_of relocation
        (record { gnu_hash = gnu; sysv_hash = sysv; strings = strings; symbols = symbols })
      ≡ some o
    → IfWithin range gnu
    → IfWithin range sysv
    → IfWithin range strings
    → IfWithin range symbols
    → InObject range o
unfolding object_of IfWithin InObject
tables_of range relocation gnu sysv none symbols o e g v r y = absurd (ground (arith, e))
tables_of range relocation gnu sysv (some strings) none o e g v r y = absurd (ground (arith, e))
tables_of range relocation gnu sysv (some strings) (some symbols) o e g v r y =
    let made : ObjectInfo = record {
      relocation = relocation;
      gnu_hash_table = gnu;
      sysv_hash_table = sysv;
      string_table = strings;
      symbol_table = symbols;
    } in
    let same : made ≡ o = ground (arith, e) in subst (InObject range) same (g, v, r, y)

Kind-cases : (k : HeaderKind) → (k ≢ pt_load) ⊎ (k ≡ pt_load)
Kind-cases pt_load = inr refl
Kind-cases pt_dynamic = inl (λ e. ground (arith, e))
Kind-cases pt_other = inl (λ e. ground (arith, e))

abbrev pub IsNotLoad : Phdr → Type 0
IsNotLoad p = p.p_type ≢ pt_load

mem_range-skip :
    (relocation : ℕ) (q : Phdr) (rest : List Phdr)
    → q.p_type ≢ pt_load
    → mem_range relocation (q ∷ rest) ≡ mem_range relocation rest
unfolding mem_range
mem_range-skip relocation q rest n = go q.p_type refl
  where
    go :
        (k : HeaderKind)
        → q.p_type ≡ k
        → mem_range relocation (q ∷ rest) ≡ mem_range relocation rest
    go pt_load e = absurd (n e)
    go pt_dynamic e = rw (mem_range, e) refl
    go pt_other e = rw (mem_range, e) refl

mem_range-first :
    (relocation : ℕ) (before after : List Phdr) (p : Phdr)
    → All IsNotLoad before
    → p.p_type ≡ pt_load
    → relocation + p.p_paddr + p.p_memsz < 2 ^ 64
    → mem_range relocation (before ++ p ∷ after)
      ≡ (relocation + p.p_paddr, relocation + p.p_paddr + p.p_memsz)
unfolding mem_range
mem_range-first relocation [] after p others e l = rw (
  mem_range,
  e,
  mod-eq_of_lt {n = relocation + p.p_paddr} {m = 2 ^ 64} (omega (arith, l)),
  mod-eq_of_lt {n = relocation + p.p_paddr + p.p_memsz} {m = 2 ^ 64} l,
)
mem_range-first relocation (q ∷ before) after p (n, others) e l =
    mem_range-skip relocation q (before ++ p ∷ after) n
    ∙ mem_range-first relocation before after p others e l

module _ (elf : Elf) where
  read_entry-AllWithin :
      (range : ℕ × ℕ) (tag : Tag) (s : Slice) (t : Found)
      → IsWithin range s
      → AllWithin range t
      → AllWithin range (read_entry elf tag s t)
  unfolding read_entry AllWithin IfWithin
  read_entry-AllWithin range dt_gnu_hash s t h (g, v, r, y) =
      (if_ok-IfWithin range (elf.gnu_ok s) s h, v, r, y)
  read_entry-AllWithin range dt_hash s t h (g, v, r, y) =
      (g, if_ok-IfWithin range (elf.sysv_ok s) s h, r, y)
  read_entry-AllWithin range dt_strtab s t h (g, v, r, y) = (g, v, h, y)
  read_entry-AllWithin range dt_symtab s t h (g, v, r, y) = (g, v, r, h)
  read_entry-AllWithin range dt_other s t h a = a

  read_entries-AllWithin :
      (range : ℕ × ℕ) (entries : List (Tag × ℕ)) (t : Found)
      → AllWithin range t
      → AllWithin range (read_entries elf range entries t)
  unfolding read_entries
  read_entries-AllWithin range [] t a = a
  read_entries-AllWithin range ((tag, ptr) ∷ entries) t a =
      elim (Bool-cases (leb range.0 ptr && ltb ptr range.1)) [
        | inl e ↦
            let s : Slice = record { start = ptr; size = range.1 - ptr } in
            rw (read_entries, e)
              (read_entries-AllWithin range entries _
                (read_entry-AllWithin range tag s t (in_range range ptr e) a))
        | inr e ↦ rw (read_entries, e) (read_entries-AllWithin range entries t a)
      ]

  in_mem_range :
      (info : DlPhdrInfo) (o : ObjectInfo)
      → parse_dl_phdr_info elf info ≡ some o
      → InObject (mem_range info.dlpi_addr info.dlpi_phdr) o
  unfolding parse_dl_phdr_info AllWithin IfWithin InObject
  in_mem_range info o e =
      let range = mem_range info.dlpi_addr info.dlpi_phdr in
      elim (Option-cases (dynamic_slice info.dlpi_addr info.dlpi_phdr)) [
        | inl n ↦ absurd (ground (arith, e, n))
        | inr (dyn, k) ↦
            let t = read_entries elf range (elf.dynamic dyn) nothing_found in
            let (g, v, r, y) =
              read_entries-AllWithin range (elf.dynamic dyn) nothing_found (tt, tt, tt, tt) in
            tables_of range info.dlpi_addr t.gnu_hash t.sysv_hash t.strings t.symbols o
              (ground (arith, e, k)) g v r y
      ]

  -- The tables of an object that is parsed are read from inside its first loadable segment, as the
  -- segment's physical address and size place it in the loaded object: each starts in the segment
  -- and ends where the segment ends. The segment's end does not wrap around.
  pub parse-Within :
      (info : DlPhdrInfo) (o : ObjectInfo) (before after : List Phdr) (p : Phdr)
      → info.dlpi_phdr ≡ before ++ p ∷ after
      → All IsNotLoad before
      → p.p_type ≡ pt_load
      → info.dlpi_addr + p.p_paddr + p.p_memsz < 2 ^ 64
      → parse_dl_phdr_info elf info ≡ some o
      → InObject (info.dlpi_addr + p.p_paddr, info.dlpi_addr + p.p_paddr + p.p_memsz) o
  parse-Within info o before after p split others load l e =
      subst (λ r. InObject r o)
        (ap (mem_range info.dlpi_addr) split
          ∙ mem_range-first info.dlpi_addr before after p others load l)
        (in_mem_range info o e)
