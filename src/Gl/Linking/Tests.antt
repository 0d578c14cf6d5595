-- ===== src/Gl/Linking/Tests.antt =====
-- The search for dlsym, the managers of cursors and the client's thread on concrete inputs.
use pw_capture.Common.{◌≡◌, refl, arith, true, false, none, some, [], ◌∷◌}
use pw_capture.Gl.Linking.{
  DlPhdrInfo, ObjectInfo, Elf, pt_load, pt_dynamic, dt_gnu_hash, dt_strtab, dt_symtab, mem_range,
  dynamic_slice, read_entry, read_entries, object_of, has_hash, parse_dl_phdr_info, symbol_value,
  find_symbol_addr, is_prefix, contains, is_libc, libc_so, load_dlsym_dlvsym,
}
use pw_capture.Gl.Linking.Within.{InObject, parse-Within}
use pw_capture.Gl.Linking.First.{defined, Lacks, load_dlsym_dlvsym-first}

abbrev elf : Elf
elf = record {
  dynamic = λ s. (dt_gnu_hash, 4200) ∷ (dt_strtab, 4300) ∷ (dt_symtab, 4400) ∷ [];
  gnu_ok = λ s. true;
  sysv_ok = λ s. false;
  gnu_find = λ table symbols strings name. some (some 50);
  sysv_find = λ table symbols strings name. none;
}

abbrev libc : DlPhdrInfo
libc = record {
  dlpi_addr = 4096;
  dlpi_name = 47 ∷ libc_so;
  dlpi_phdr =
      record { p_type = pt_load; p_paddr = 0; p_memsz = 1000 }
      ∷ record { p_type = pt_dynamic; p_paddr = 100; p_memsz = 64 }
      ∷ [];
}

abbrev program : DlPhdrInfo
program = record libc { dlpi_name = [] }

abbrev tables : ObjectInfo
tables = record {
  relocation = 4096;
  gnu_hash_table = some (record { start = 4200; size = 896 });
  sysv_hash_table = none;
  string_table = record { start = 4300; size = 796 };
  symbol_table = record { start = 4400; size = 696 };
}

parsed : parse_dl_phdr_info elf libc ≡ some tables
unfolding parse_dl_phdr_info mem_range dynamic_slice read_entries read_entry object_of has_hash
parsed = refl

parse-Within_example : InObject (4096, 5096) tables
parse-Within_example =
    parse-Within elf libc tables []
      (record { p_type = pt_dynamic; p_paddr = 100; p_memsz = 64 } ∷ [])
      (record { p_type = pt_load; p_paddr = 0; p_memsz = 1000 }) refl tt refl (omega arith) parsed

program-Lacks : Lacks elf program
unfolding defined is_libc contains is_prefix
program-Lacks = refl

libc-defined : defined elf libc "dlsym" ≡ some 4146
unfolding defined is_libc contains is_prefix parse_dl_phdr_info mem_range dynamic_slice read_entries
    read_entry object_of has_hash find_symbol_addr symbol_value
libc-defined = refl

load_dlsym_dlvsym-first_example :
    (load_dlsym_dlvsym elf (program ∷ libc ∷ program ∷ []) ≡ (some 4146, defined elf libc "dlvsym"))
    × ((load_dlsym_dlvsym elf (program ∷ [])).0 ≡ none)
load_dlsym_dlvsym-first_example =
    load_dlsym_dlvsym-first elf (program ∷ []) (program ∷ []) libc 4146 (program-Lacks, tt)
      libc-defined
