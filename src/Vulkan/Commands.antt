-- ===== src/Vulkan/Commands.antt =====
-- The commands that copy a frame: record_copy_image of vulkan/src/utils/vk_helper.rs, as the list of
-- what it records.
pub mod Exec
pub mod Copied
use pw_capture.Common.{ℕ, Bool, true, false, ◌==◌, if◌then◌else◌, Option, none, some, List, [], ◌∷◌}

pub data ImageLayout : Type 0 where
  undefined general present_src transfer_src_optimal transfer_dst_optimal : ImageLayout

unfoldable pub queue_family_ignored : ℕ
queue_family_ignored = 4294967295

pub data AccessFlags : Type 0 where
  no_access memory_read transfer_read transfer_write : AccessFlags

pub data PipelineStage : Type 0 where
  transfer bottom_of_pipe : PipelineStage

pub record ImageBarrier : Type 0 where
  pub src_access : AccessFlags
  pub dst_access : AccessFlags
  pub old_layout : ImageLayout
  pub new_layout : ImageLayout
  pub src_queue_family : ℕ
  pub dst_queue_family : ℕ
  pub image : ℕ

-- A copy or a blit of an area: the source and its layout, the target and its layout, the extent.
pub record Transfer : Type 0 where
  pub src_image : ℕ
  pub src_layout : ImageLayout
  pub dst_image : ℕ
  pub dst_layout : ImageLayout
  pub width : ℕ
  pub height : ℕ

pub data Command : Type 0 where
  pipeline_barrier : PipelineStage → PipelineStage → List ImageBarrier → Command
  copy_image blit_image : Transfer → Command

abbrev pub image_barrier :
    AccessFlags → AccessFlags → ImageLayout → ImageLayout → ℕ → ℕ → ℕ → ImageBarrier
image_barrier src_access dst_access old_layout new_layout src_family dst_family image = record {
  src_access = src_access;
  dst_access = dst_access;
  old_layout = old_layout;
  new_layout = new_layout;
  src_queue_family = src_family;
  dst_queue_family = dst_family;
  image = image;
}

unfoldable pub to_transfer : ℕ → ℕ → ℕ → ℕ → Command
to_transfer src_image export_image src_family dst_family =
    pipeline_barrier bottom_of_pipe transfer (
      (image_barrier memory_read transfer_read present_src transfer_src_optimal src_family
        dst_family src_image)
      ∷ (image_barrier no_access transfer_write general transfer_dst_optimal queue_family_ignored
          queue_family_ignored export_image)
      ∷ [])

unfoldable pub from_transfer : ℕ → ℕ → ℕ → ℕ → Command
from_transfer src_image export_image src_family dst_family =
    pipeline_barrier transfer bottom_of_pipe (
      (image_barrier transfer_read memory_read transfer_src_optimal present_src dst_family
        src_family src_image)
      ∷ (image_barrier transfer_write no_access transfer_dst_optimal general queue_family_ignored
          queue_family_ignored export_image)
      ∷ [])

unfoldable pub transfer_of : ℕ → ℕ → ℕ → ℕ → Transfer
transfer_of src_image export_image width height = record {
  src_image = src_image;
  src_layout = transfer_src_optimal;
  dst_image = export_image;
  dst_layout = transfer_dst_optimal;
  width = width;
  height = height;
}

unfoldable pub commands : ℕ → ℕ → ℕ → ℕ → ℕ → ℕ → Bool → List Command
unfolding to_transfer from_transfer transfer_of
commands src_image export_image src_family dst_family width height need_blit =
    let t = transfer_of src_image export_image width height in
    to_transfer src_image export_image src_family dst_family
    ∷ (if need_blit then blit_image t else copy_image t)
    ∷ from_transfer src_image export_image src_family dst_family
    ∷ []

-- The flags are whether beginning and ending the command buffer succeed.
unfoldable pub record_copy_image :
    Bool → Bool → ℕ → ℕ → ℕ → ℕ → ℕ → ℕ → Bool → Option (List Command)
unfolding commands queue_family_ignored
record_copy_image begin_ok end_ok src_image export_image src_family dst_family width height
      need_blit =
    let ignored =
      commands src_image export_image queue_family_ignored queue_family_ignored width height
        need_blit in
    let other = commands src_image export_image src_family dst_family width height need_blit in
    if begin_ok
    then (if end_ok then some (if src_family == dst_family then ignored else other) else none)
    else none
