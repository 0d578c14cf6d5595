-- ===== src/Vulkan/Commands/Copied.antt =====
-- A recorded copy copies, and leaves the images as a present and an export want them.
use pw_capture.Common.{
  ℕ, ◌≡◌, refl, Bool, true, false, ◌==◌, ==_refl, if◌then◌else◌, some, List, [], ◌∷◌, arith,
}
use pw_capture.Vulkan.Commands.{
  general, present_src, transfer_src_optimal, transfer_dst_optimal, no_access, memory_read,
  transfer_read, transfer_write, PipelineStage, bottom_of_pipe, transfer, queue_family_ignored,
  ImageBarrier, image_barrier, Transfer, Command, copy_image, blit_image, to_transfer,
  from_transfer, transfer_of, commands, record_copy_image,
}
use pw_capture.Vulkan.Commands.Exec.{
  Image, Images, set_image, same_layout, same_access, waits_for, is_allowed, moved, copied,
  run_barrier, run_barriers, run_transfer, run_command, run_commands,
}

other_way : (a b : ℕ) → (a == b) ≡ false → (b == a) ≡ false
other_way a b q = ground arith

module _ (src export : ℕ) (apart : (src == export) ≡ false) where
  apart' : (export == src) ≡ false
  apart' = other_way src export apart

  -- The two images of a copy.
  Have : Images → Image → Image → Type 0
  Have m a b = (m src ≡ a) × (m export ≡ b)

  two_barriers :
      (before after : PipelineStage) (b1 b2 : ImageBarrier) (m : Images) (x y : Image)
      → b1.image ≡ src
      → b2.image ≡ export
      → Have m x y
      → is_allowed before after b1 x ≡ true
      → is_allowed before after b2 y ≡ true
      → (m' : Images) × (run_barriers before after (b1 ∷ b2 ∷ []) m ≡ some m')
        × Have m' (moved b1 x) (moved b2 y)
  unfolding run_barriers run_barrier Have
  two_barriers before after b1 b2 m x y p q (h, k) u v = (
    set_image export (moved b2 y) (set_image src (moved b1 x) m),
    rw (run_barriers, run_barrier, p, h, u, q, apart', k, v) refl,
    (rw (apart, ==_refl src) refl, rw (==_refl export) refl),
  )

  transferred :
      (family width height : ℕ) (m : Images) (x y : Image)
      → Have m x y
      → x.layout ≡ transfer_src_optimal
      → y.layout ≡ transfer_dst_optimal
      → x.access ≡ transfer_read
      → y.access ≡ transfer_write
      → x.owner ≡ family
      → (m' : Images) × (run_transfer family (transfer_of src export width height) m ≡ some m')
        × Have m' x (record y { content = copied width height x.content y.content })
  unfolding run_transfer transfer_of same_layout same_access Have
  transferred family width height m x y (h, k) a b c d o = (
    set_image export (record y { content = copied width height x.content y.content }) m,
    rw (run_transfer, h, k, a, b, c, d, o, ==_refl family) refl,
    (rw apart h, rw (==_refl export) refl),
  )

  either_command :
      (blit : Bool) (family : ℕ) (t : Transfer) (m : Images)
      → run_command family (if blit then blit_image t else copy_image t) m ≡ run_transfer family t m
  unfolding run_command
  either_command true family t m = refl
  either_command false family t m = refl

  commands-run :
      (family width height owner' : ℕ) (content content' : ℕ → ℕ → ℕ) (blit : Bool) (m : Images)
      → Have m
          (record { layout = present_src; owner = family; access = memory_read; content = content })
          (record { layout = general; owner = owner'; access = no_access; content = content' })
      → (m' : Images) × (run_commands family
            (commands src export queue_family_ignored queue_family_ignored width height blit)
            m
          ≡ some m')
        × Have m'
            (record {
              layout = present_src;
              owner = family;
              access = memory_read;
              content = content;
            })
            (record {
              layout = general;
              owner = owner';
              access = no_access;
              content = copied width height content content';
            })
  unfolding commands run_commands run_command to_transfer from_transfer transfer_of is_allowed moved
      same_layout same_access waits_for queue_family_ignored Have
  commands-run family width height owner' content content' blit m h =
      let ignored = queue_family_ignored in
      let x : Image = record {
        layout = present_src;
        owner = family;
        access = memory_read;
        content = content;
      } in
      let y : Image = record {
        layout = general;
        owner = owner';
        access = no_access;
        content = content';
      } in
      let b1 =
        image_barrier memory_read transfer_read present_src transfer_src_optimal ignored ignored
          src in
      let b2 =
        image_barrier no_access transfer_write general transfer_dst_optimal ignored ignored
          export in
      let b3 =
        image_barrier transfer_read memory_read transfer_src_optimal present_src ignored ignored
          src in
      let b4 =
        image_barrier transfer_write no_access transfer_dst_optimal general ignored ignored
          export in
      let (m1, r1, h1) = two_barriers bottom_of_pipe transfer b1 b2 m x y refl refl h refl refl in
      let (m2, r2, h2) =
        transferred family width height m1 (moved b1 x) (moved b2 y) h1 refl refl refl refl refl in
      let (m3, r3, h3) =
        two_barriers transfer bottom_of_pipe b3 b4 m2 (moved b1 x)
          (record (moved b2 y) { content = copied width height content content' }) refl refl h2 refl
          refl in
      (
        m3,
        rw
            (
              run_commands,
              r1,
              either_command blit family (transfer_of src export width height) m1,
              r2,
              r3,
            )
            refl,
        h3,
      )

  -- Where the presenting queue is of the export's family, the recorded commands of a copy or a blit
  -- are all allowed on a queue of that family, on a source that is presented and owned by it and an
  -- export image in the general layout: they put the source's area of the given width and height
  -- into the export image, whose other pixels stay, and leave the source and the layouts and owners
  -- as they were, open to the accesses that follow a present and an export.
  pub record_copy_image-copies :
      (family width height owner' : ℕ) (content content' : ℕ → ℕ → ℕ) (blit : Bool) (m : Images)
      → m src
        ≡ record { layout = present_src; owner = family; access = memory_read; content = content }
      → m export
        ≡ record { layout = general; owner = owner'; access = no_access; content = content' }
      → (cs : List Command) × (m' : Images) × (record_copy_image true true src export family family
            width height blit
          ≡ some cs)
        × (run_commands family cs m ≡ some m')
        × (m' src ≡ record {
          layout = present_src;
          owner = family;
          access = memory_read;
          content = content;
        })
        × (m' export ≡ record {
          layout = general;
          owner = owner';
          access = no_access;
          content = copied width height content content';
        })
  unfolding record_copy_image Have
  record_copy_image-copies family width height owner' content content' blit m h k =
      let (m', r, (h', k')) =
        commands-run family width height owner' content content' blit m (h, k) in
      (
        commands src export queue_family_ignored queue_family_ignored width height blit,
        m',
        rw (==_refl family) refl,
        r,
        h',
        k',
      )
