-- ===== src/Vulkan/Commands/Exec.antt =====
-- What a queue does with the commands of a copy, as the Vulkan specification has it: an image is in
-- one layout, belongs to one queue family, and is open to the accesses of the last barrier on it; a
-- command on an image in another layout, of another family or not open to it is not allowed. A
-- barrier that names two families is half of a transfer between their queues, which one queue alone
-- cannot execute.
use pw_capture.Common.{
  ℕ, Bool, true, ◌==◌, ◌&&◌, ◌||◌, ltb, if◌then◌else◌, Option, none, some, List, [], ◌∷◌,
}
use pw_capture.Vulkan.Commands.{
  ImageLayout, undefined, general, present_src, transfer_src_optimal, transfer_dst_optimal,
  AccessFlags, no_access, memory_read, transfer_read, transfer_write, PipelineStage, transfer,
  bottom_of_pipe, ImageBarrier, Transfer, Command, pipeline_barrier, copy_image, blit_image,
}

-- The content by columns and rows; `access` is the kind of access that may follow.
pub record Image : Type 0 where
  pub layout : ImageLayout
  pub owner : ℕ
  pub access : AccessFlags
  pub content : ℕ → ℕ → ℕ

abbrev pub Images : Type 0
Images = ℕ → Image

abbrev pub set_image : ℕ → Image → Images → Images
set_image i x m = λ j. if j == i then x else m j

abbrev pub layout_number : ImageLayout → ℕ
layout_number undefined = 0
layout_number general = 1
layout_number present_src = 2
layout_number transfer_src_optimal = 3
layout_number transfer_dst_optimal = 4

unfoldable pub same_layout : ImageLayout → ImageLayout → Bool
same_layout a b = layout_number a == layout_number b

abbrev pub access_number : AccessFlags → ℕ
access_number no_access = 0
access_number memory_read = 1
access_number transfer_read = 2
access_number transfer_write = 3

unfoldable pub same_access : AccessFlags → AccessFlags → Bool
same_access a b = access_number a == access_number b

-- Transfers access an image in their own stage; the other accesses may stand with any stage.
unfoldable pub waits_for : PipelineStage → AccessFlags → Bool
unfolding same_access
waits_for transfer a = true
waits_for bottom_of_pipe a = same_access a memory_read || same_access a no_access

-- A barrier from the undefined layout takes any. The families are the same, or ignored. The
-- accesses belong to the stages before and after it.
unfoldable pub is_allowed : PipelineStage → PipelineStage → ImageBarrier → Image → Bool
unfolding same_layout waits_for
is_allowed before after b x =
    (same_layout b.old_layout undefined || same_layout b.old_layout x.layout)
    && b.src_queue_family == b.dst_queue_family
    && waits_for before b.src_access
    && waits_for after b.dst_access

unfoldable pub moved : ImageBarrier → Image → Image
moved b x = record x { layout = b.new_layout; access = b.dst_access }

unfoldable pub run_barrier : PipelineStage → PipelineStage → ImageBarrier → Images → Option Images
unfolding is_allowed moved
run_barrier before after b m =
    let x = m b.image in
    if is_allowed before after b x then some (set_image b.image (moved b x) m) else none

unfoldable pub run_barriers :
    PipelineStage → PipelineStage → List ImageBarrier → Images → Option Images
unfolding run_barrier
run_barriers before after [] m = some m
run_barriers before after (b ∷ bs) m = elim (run_barrier before after b m) [
  | none ↦ none
  | some m' ↦ run_barriers before after bs m'
]

-- The area from the corner on is the source's, and the rest stays.
abbrev pub copied : ℕ → ℕ → (ℕ → ℕ → ℕ) → (ℕ → ℕ → ℕ) → ℕ → ℕ → ℕ
copied width height from to = λ x y. if ltb x width && ltb y height then from x y else to x y

-- The queue's family owns the source, and both images are open to the transfer.
unfoldable pub run_transfer : ℕ → Transfer → Images → Option Images
unfolding same_layout same_access
run_transfer family t m =
    let src = m t.src_image in
    let dst = m t.dst_image in
    if same_layout src.layout t.src_layout
      && same_layout dst.layout t.dst_layout
      && same_access src.access transfer_read
      && same_access dst.access transfer_write
      && src.owner == family
    then some (
        set_image t.dst_image
          (record dst { content = copied t.width t.height src.content dst.content }) m)
    else none

unfoldable pub run_command : ℕ → Command → Images → Option Images
unfolding run_barriers run_transfer
run_command family (pipeline_barrier before after bs) m = run_barriers before after bs m
run_command family (copy_image t) m = run_transfer family t m
run_command family (blit_image t) m = run_transfer family t m

unfoldable pub run_commands : ℕ → List Command → Images → Option Images
unfolding run_command
run_commands family [] m = some m
run_commands family (c ∷ cs) m = elim (run_command family c m) [
  | none ↦ none
  | some m' ↦ run_commands family cs m'
]
