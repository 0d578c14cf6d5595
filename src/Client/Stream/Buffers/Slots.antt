-- ===== src/Client/Stream/Buffers/Slots.antt =====
-- What an added buffer tells PipeWire and what its removal gives back, on_add_buffer and
-- on_remove_buffer of client/src/stream.rs.
use pw_capture.Common.{
  ℕ, ◌≡◌, refl, true, none, some, List, [], ◌∷◌, map, arith, ==_refl, if◌then◌else◌, length,
  length-map, All, negsuc,
}
use pw_capture.Client.Pod.{SpaSys}
use pw_capture.Client.Stream.Types.{BufferPlaneInfo, BufferInfo, SpaData, PwBuffer}
use pw_capture.Client.Stream.Buffers.{invalidate, fill_planes, on_add_buffer, on_remove_buffer}

-- The descriptor, the kind and the extent of each plane, as PipeWire passes them to the consumer.
abbrev pub PlaneOf : SpaData → BufferPlaneInfo → ℕ → Type 0
PlaneOf d p kind =
    (d.fd ≡ p.fd)
    × (d.kind ≡ kind)
    × (d.mapoffset ≡ p.offset)
    × (d.maxsize ≡ p.size)
    × (d.chunk.offset ≡ p.offset)
    × (d.chunk.size ≡ p.size)

abbrev pub Carry : ℕ → List SpaData → List BufferPlaneInfo → Type 0
Carry kind [] [] = Unit {0}
Carry kind (d ∷ ds) (p ∷ ps) = PlaneOf d p kind × Carry kind ds ps
Carry kind [] (p ∷ ps) = ⊥
Carry kind (d ∷ ds) [] = ⊥

fill_planes-Carry :
    (spa : SpaSys) (kind : ℕ) (ds : List SpaData) (ps : List BufferPlaneInfo)
    → length ds ≡ length ps
    → Carry kind (fill_planes spa kind ds ps) ps
unfolding fill_planes
fill_planes-Carry spa kind [] [] e = tt
fill_planes-Carry spa kind (d ∷ ds) (p ∷ ps) e =
    ((refl, refl, refl, refl, refl, refl), fill_planes-Carry spa kind ds ps (omega arith))
fill_planes-Carry spa kind [] (p ∷ ps) e = absurd (omega arith)
fill_planes-Carry spa kind (d ∷ ds) [] e = absurd (omega arith)

abbrev pub IsInvalid : SpaSys → SpaData → Type 0
IsInvalid spa d = (d.fd ≡ negsuc 0) × (d.data_null ≡ true) × (d.kind ≡ spa.data_invalid)

invalidate-All : (spa : SpaSys) (ds : List SpaData) → All (IsInvalid spa) (map (invalidate spa) ds)
unfolding invalidate
invalidate-All spa [] = tt
invalidate-All spa (d ∷ ds) = ((refl, refl, refl), invalidate-All spa ds)

-- A buffer with as many planes as the layer allocated carries them in order, with the kind of
-- memory that the layer says; removing it gives the layer its own handle back.
pub on_add_buffer-Carry :
    (spa : SpaSys) (info : BufferInfo) (buffer : PwBuffer)
    → length buffer.datas ≡ length info.planes
    → (added : PwBuffer) × (on_add_buffer spa (some info) buffer ≡ some added)
      × Carry
          (if info.is_dma_buf then spa.data_dma_buf else spa.data_mem_fd)
          added.datas
          info.planes
      × (on_remove_buffer added ≡ some info.user_handle)
unfolding on_add_buffer on_remove_buffer
on_add_buffer-Carry spa info buffer e =
    let kind = if info.is_dma_buf then spa.data_dma_buf else spa.data_mem_fd in
    (
      record buffer {
        user_data = some info.user_handle;
        datas = fill_planes spa kind buffer.datas info.planes;
      },
      ground (arith, ==_refl (length buffer.datas)),
      fill_planes-Carry spa kind buffer.datas info.planes e,
      refl,
    )

-- A buffer that the layer cannot allocate is marked invalid plane by plane, and its removal calls
-- nothing.
pub on_add_buffer-refused :
    (spa : SpaSys) (buffer : PwBuffer)
    → (added : PwBuffer) × (on_add_buffer spa none buffer ≡ some added)
      × All (IsInvalid spa) added.datas
      × (length added.datas ≡ length buffer.datas)
      × (on_remove_buffer added ≡ none)
unfolding on_add_buffer on_remove_buffer
on_add_buffer-refused spa buffer =
    (_, refl, invalidate-All spa buffer.datas, length-map (invalidate spa) buffer.datas, refl)
