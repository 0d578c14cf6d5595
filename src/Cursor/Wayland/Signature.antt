-- ===== src/Cursor/Wayland/Signature.antt =====
-- Message signatures and the forwarded call: `WlSignatureIter`, the conversions of `WlSig` and
-- `WlArg` of cursor/src/wayland/wl_lib.rs, and `dispatch_event` of cursor/src/wayland/mod.rs.
use pw_capture.Common.{
  ℤ, ◌%◌, ◌^◌, as_i32, i32_as_u32, ℕ, zero, suc, ◌+◌, ◌≤◌, ◌≡◌, refl, ◌∙◌, Option, none, some, List,
  [], ◌∷◌, map, arith, ◌==◌, if◌then◌else◌, length, get_or,
}

pub data WlSig : Type 0 where
  int uint fixed string object new_id array fd : WlSig

-- The match of `next` on one byte: an argument, or none for an unknown byte.
unfoldable pub sig_of_byte : ℕ → Option WlSig
sig_of_byte ch =
    if ch == b'i'
    then some int
    else if ch == b'u'
    then some uint
    else if ch == b'f'
    then some fixed
    else if ch == b's'
    then some string
    else if ch == b'o'
    then some object
    else if ch == b'n'
    then some new_id
    else if ch == b'a'
    then some array
    else if ch == b'h'
    then some fd
    else none

-- The signature is the bytes before the terminating NUL; the result carries the new position.
unfoldable pub next : List ℕ → Option (WlSig × List ℕ)
next [] = none
next (ch ∷ signature) =
    let rest = next signature in
    elim (sig_of_byte ch) [ some arg ↦ some (arg, signature) | none ↦ rest ]

-- All that the iterator yields, on fuel for the number of items.
unfoldable pub yields : ℕ → List ℕ → List WlSig
yields zero signature = []
yields (suc fuel) signature = elim (next signature) [
  | none ↦ []
  | some (arg, rest) ↦ arg ∷ yields fuel rest
]

unfoldable pub collect : List ℕ → List WlSig
collect signature = yields (length signature) signature

-- The byte of an argument, as the protocol writes it.
pub byte_of_sig : WlSig → ℕ
byte_of_sig int = b'i'
byte_of_sig uint = b'u'
byte_of_sig fixed = b'f'
byte_of_sig string = b's'
byte_of_sig object = b'o'
byte_of_sig new_id = b'n'
byte_of_sig array = b'a'
byte_of_sig fd = b'h'

-- The arguments that the bytes name, the other bytes (versions, `?`) left out.
pub named_args : List ℕ → List WlSig
named_args [] = []
named_args (ch ∷ signature) = elim (sig_of_byte ch) [
  | some arg ↦ arg ∷ named_args signature
  | none ↦ named_args signature
]

yields-named : (fuel : ℕ) (s : List ℕ) → length s ≤ fuel → yields fuel s ≡ named_args s
unfolding yields named_args next
yields-named zero [] h = refl
yields-named (suc fuel) [] h = refl
yields-named zero (ch ∷ s) h = absurd (omega arith)
yields-named (suc fuel) (ch ∷ s) h =
    ground (arith, yields-named fuel s (omega arith), yields-named (suc fuel) s (omega arith))

-- The iterator yields exactly the arguments that the bytes name, in order, and then ends.
pub collect-named : (signature : List ℕ) → collect signature ≡ named_args signature
unfolding collect
collect-named signature = yields-named (length signature) signature (omega arith)

sig_of_byte-byte_of_sig : (a : WlSig) → sig_of_byte (byte_of_sig a) ≡ some a
unfolding sig_of_byte byte_of_sig
sig_of_byte-byte_of_sig int = refl
sig_of_byte-byte_of_sig _ = refl

named_args-bytes : (args : List WlSig) → named_args (map byte_of_sig args) ≡ args
unfolding named_args
named_args-bytes [] = refl
named_args-bytes (a ∷ args) = ground (arith, sig_of_byte-byte_of_sig a, named_args-bytes args)

-- A signature written with one byte for each argument reads back as these arguments.
pub collect-bytes : (args : List WlSig) → collect (map byte_of_sig args) ≡ args
collect-bytes args = collect-named (map byte_of_sig args) ∙ named_args-bytes args

-- The C types that libffi passes an argument as, and a value of one.
pub data FfiType : Type 0 where
  i32 u32 pointer : FfiType

pub data FfiArg : Type 0 where
  i32_value : ℤ → FfiArg
  u32_value pointer_value : ℕ → FfiArg

unfoldable pub type_from_sig : WlSig → FfiType
type_from_sig int = i32
type_from_sig uint = u32
type_from_sig fixed = i32
type_from_sig string = pointer
type_from_sig object = pointer
type_from_sig new_id = pointer
type_from_sig array = pointer
type_from_sig fd = i32

-- The member of the `wl_argument` union that is read, from its 64 bits.
unfoldable pub arg_from_wl : WlSig → ℕ → FfiArg
arg_from_wl int value = i32_value (as_i32 value)
arg_from_wl uint value = u32_value (value % 2 ^ 32)
arg_from_wl fixed value = i32_value (as_i32 value)
arg_from_wl string value = pointer_value value
arg_from_wl object value = pointer_value value
arg_from_wl new_id value = pointer_value value
arg_from_wl array value = pointer_value value
arg_from_wl fd value = i32_value (as_i32 value)

pub type_of_arg : FfiArg → FfiType
type_of_arg (i32_value n) = i32
type_of_arg (u32_value n) = u32
type_of_arg (pointer_value n) = pointer

-- How an event goes on to the application: through its own dispatcher, or as a C call.
pub data Forward : Type 0 where
  to_dispatcher : ℕ → ℕ → ℕ → ℕ → List ℕ → Forward
  to_callback : ℕ → List FfiType → List FfiArg → Forward

unfoldable pub event_args : List WlSig → List ℕ → ℕ → List FfiArg
event_args [] args i = []
event_args (sig ∷ sigs) args i = arg_from_wl sig (get_or args i 0) ∷ event_args sigs args (i + 1)

-- `callbacks` reads the listener's table; `none` is the panic on an empty entry.
unfoldable pub dispatch_event :
    Option ℕ → ℕ → (ℕ → Option ℕ) → ℕ → ℕ → ℕ → List ℕ → List ℕ → Option Forward
dispatch_event (some raw_dispatcher) raw_implementation callbacks user_data proxy opcode signature
      args =
    some (to_dispatcher raw_dispatcher raw_implementation proxy opcode args)
dispatch_event none raw_implementation callbacks user_data proxy opcode signature args =
    elim (callbacks opcode) [
      | none ↦ none
      | some callback ↦ some (
          to_callback callback (pointer ∷ pointer ∷ map type_from_sig (collect signature))
            (pointer_value user_data ∷ pointer_value proxy ∷ event_args (collect signature) args 0))
    ]

-- The word of a value, an i32 by its bits.
pub word_of : FfiArg → ℕ
word_of (i32_value n) = i32_as_u32 n
word_of (u32_value n) = n
word_of (pointer_value n) = n

-- An argument's word at the width of its C type.
pub cut : FfiType → ℕ → ℕ
cut pointer v = v
cut _ v = v % 2 ^ 32

-- The arguments side by side with the signature's types; the array ends with zeros.
pub words : List FfiType → List ℕ → List ℕ
words [] args = []
words (t ∷ ts) [] = cut t 0 ∷ words ts []
words (t ∷ ts) (v ∷ args) = cut t v ∷ words ts args
