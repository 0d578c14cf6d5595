-- ===== src/Gl/Linking.antt =====
-- The real dlsym and dlvsym, gl/src/elfhack.rs: the tables of a loaded object by its program
-- headers, the address of a symbol in them, and the search over the loaded objects. The memory of
-- the process and the parsers of the `elf` crate are arguments; addresses have 64 bits.
pub mod Within
pub mod First
pub mod Loading
mod Tests
use pw_capture.Common.{
  ℕ, ◌+◌, ◌-◌, ◌%◌, ◌^◌, Bool, true, false, not, ◌&&◌, ◌||◌, ◌==◌, leb, ltb, if◌then◌else◌, Option,
  none, some, List, [], ◌∷◌, String,
}

-- The kinds of program headers and of dynamic entries that the code tells apart.
pub data HeaderKind : Type 0 where
  pt_load pt_dynamic pt_other : HeaderKind

pub data Tag : Type 0 where
  dt_gnu_hash dt_hash dt_strtab dt_symtab dt_other : Tag

pub record Phdr : Type 0 where
  pub p_type : HeaderKind
  pub p_paddr : ℕ
  pub p_memsz : ℕ

-- `dl_phdr_info`, its name by its bytes.
pub record DlPhdrInfo : Type 0 where
  pub dlpi_addr : ℕ
  pub dlpi_name : List ℕ
  pub dlpi_phdr : List Phdr

-- Memory from an address on, by `slice::from_raw_parts`.
pub record Slice : Type 0 where
  pub start : ℕ
  pub size : ℕ

-- A table is the memory that it was made from.
pub record ObjectInfo : Type 0 where
  pub relocation : ℕ
  pub gnu_hash_table : Option Slice
  pub sysv_hash_table : Option Slice
  pub string_table : Slice
  pub symbol_table : Slice

-- The dynamic entries of a piece of memory with their tags and addresses, whether memory holds a
-- hash table, and the value of a symbol by a hash table, the symbols and the strings: `none` is an
-- error, and `some none` a symbol that is not there.
pub record Elf : Type 0 where
  pub dynamic : Slice → List (Tag × ℕ)
  pub gnu_ok : Slice → Bool
  pub sysv_ok : Slice → Bool
  pub gnu_find : Slice → Slice → Slice → String → Option (Option ℕ)
  pub sysv_find : Slice → Slice → Slice → String → Option (Option ℕ)

-- The tables while the dynamic entries are read.
pub record Found : Type 0 where
  pub gnu_hash : Option Slice
  pub sysv_hash : Option Slice
  pub strings : Option Slice
  pub symbols : Option Slice

abbrev pub nothing_found : Found
nothing_found = record { gnu_hash = none; sysv_hash = none; strings = none; symbols = none }

abbrev pub add_addr : ℕ → ℕ → ℕ
add_addr a b = (a + b) % 2 ^ 64

-- The first loadable segment, from its start to its end, or an empty range.
unfoldable pub mem_range : ℕ → List Phdr → ℕ × ℕ
mem_range relocation [] = (0, 0)
mem_range relocation (p ∷ phdrs) = elim p.p_type [
  | pt_load ↦ (add_addr relocation p.p_paddr, add_addr (add_addr relocation p.p_paddr) p.p_memsz)
  | pt_dynamic ↦ mem_range relocation phdrs
  | pt_other ↦ mem_range relocation phdrs
]

unfoldable pub dynamic_slice : ℕ → List Phdr → Option Slice
dynamic_slice relocation [] = none
dynamic_slice relocation (p ∷ phdrs) = elim p.p_type [
  | pt_load ↦ dynamic_slice relocation phdrs
  | pt_dynamic ↦ some (record { start = add_addr relocation p.p_paddr; size = p.p_memsz })
  | pt_other ↦ dynamic_slice relocation phdrs
]

-- `.ok()`.
abbrev pub if_ok : Bool → Slice → Option Slice
if_ok true s = some s
if_ok false s = none

module _ (elf : Elf) where
  -- The table that one entry inside the range gives.
  unfoldable pub read_entry : Tag → Slice → Found → Found
  read_entry dt_gnu_hash data_ t = record t { gnu_hash = if_ok (elf.gnu_ok data_) data_ }
  read_entry dt_hash data_ t = record t { sysv_hash = if_ok (elf.sysv_ok data_) data_ }
  read_entry dt_strtab data_ t = record t { strings = some data_ }
  read_entry dt_symtab data_ t = record t { symbols = some data_ }
  read_entry dt_other data_ t = t

  unfoldable pub read_entries : ℕ × ℕ → List (Tag × ℕ) → Found → Found
  unfolding read_entry
  read_entries range [] t = t
  read_entries range ((tag, ptr) ∷ entries) t =
      let next = read_entry tag (record { start = ptr; size = range.1 - ptr }) t in
      let inside = read_entries range entries next in
      let outside = read_entries range entries t in
      if leb range.0 ptr && ltb ptr range.1 then inside else outside

unfoldable pub object_of : ℕ → Found → Option ObjectInfo
object_of relocation t = elim t.strings [
  | none ↦ none
  | some strings ↦ elim t.symbols [
    | none ↦ none
    | some symbols ↦ some (record {
      relocation = relocation;
      gnu_hash_table = t.gnu_hash;
      sysv_hash_table = t.sysv_hash;
      string_table = strings;
      symbol_table = symbols;
    })
  ]
]

unfoldable pub has_hash : Found → Bool
has_hash t = elim t.gnu_hash [
  | some s ↦ true
  | none ↦ elim t.sysv_hash [ some s ↦ true | none ↦ false ]
]

module _ (elf : Elf) where
  unfoldable pub parse_dl_phdr_info : DlPhdrInfo → Option ObjectInfo
  unfolding mem_range dynamic_slice read_entries object_of has_hash
  parse_dl_phdr_info info =
      let range = mem_range info.dlpi_addr info.dlpi_phdr in
      elim (dynamic_slice info.dlpi_addr info.dlpi_phdr) [
        | none ↦ none
        | some dyn ↦
            let t = read_entries elf range (elf.dynamic dyn) nothing_found in
            let object = object_of info.dlpi_addr t in
            if ltb range.0 range.1 && has_hash t then object else none
      ]

  -- `.ok()??`.
  abbrev pub joined : Option (Option ℕ) → Option ℕ
  joined none = none
  joined (some none) = none
  joined (some (some v)) = some v

  unfoldable pub symbol_value : ObjectInfo → String → Option ℕ
  symbol_value o name = elim o.gnu_hash_table [
    | some table ↦ joined (elf.gnu_find table o.symbol_table o.string_table name)
    | none ↦ elim o.sysv_hash_table [
      | some table ↦ joined (elf.sysv_find table o.symbol_table o.string_table name)
      | none ↦ none
    ]
  ]

  unfoldable pub find_symbol_addr : ObjectInfo → String → Option ℕ
  unfolding symbol_value
  find_symbol_addr o name = elim (symbol_value o name) [
    | none ↦ none
    | some v ↦ let addr = add_addr o.relocation v in if addr == 0 then none else some addr
  ]

-- `contains` of a string, by bytes.
unfoldable pub is_prefix : List ℕ → List ℕ → Bool
is_prefix [] s = true
is_prefix (x ∷ xs) [] = false
is_prefix (x ∷ xs) (y ∷ ys) = let rest = is_prefix xs ys in if x == y then rest else false

unfoldable pub contains : List ℕ → List ℕ → Bool
unfolding is_prefix
contains needle [] = is_prefix needle []
contains needle (y ∷ ys) = is_prefix needle (y ∷ ys) || contains needle ys

-- The bytes of "libdl.so".
abbrev pub libdl_so : List ℕ
libdl_so = 108 ∷ 105 ∷ 98 ∷ 100 ∷ 108 ∷ 46 ∷ 115 ∷ 111 ∷ []

-- The bytes of "libc.so".
abbrev pub libc_so : List ℕ
libc_so = 108 ∷ 105 ∷ 98 ∷ 99 ∷ 46 ∷ 115 ∷ 111 ∷ []

-- Whether the object is libdl or libc.
unfoldable pub is_libc : DlPhdrInfo → Bool
unfolding contains
is_libc info = contains libdl_so info.dlpi_name || contains libc_so info.dlpi_name

module _ (elf : Elf) where
  -- The closure's assignments for one object.
  unfoldable pub look_up : DlPhdrInfo → Option ℕ × Option ℕ → Option ℕ × Option ℕ
  look_up info found = elim (parse_dl_phdr_info elf info) [
    | none ↦ found
    | some o ↦ (find_symbol_addr elf o "dlsym", find_symbol_addr elf o "dlvsym")
  ]

  -- The iteration over the objects that are loaded, in their order.
  unfoldable pub dl_iterate : List DlPhdrInfo → Option ℕ × Option ℕ → Option ℕ × Option ℕ
  dl_iterate [] found = found
  dl_iterate (info ∷ infos) found =
      let next = look_up info found in
      let skipped = dl_iterate infos found in
      let continued = dl_iterate infos next in
      if not (is_libc info) then skipped else elim next.0 [ none ↦ continued | some p ↦ next ]

  unfoldable pub load_dlsym_dlvsym : List DlPhdrInfo → Option ℕ × Option ℕ
  unfolding dl_iterate
  load_dlsym_dlvsym infos = dl_iterate infos (none, none)
