-- ===== src/Vulkan/Fixate/Usable.antt =====
-- The export data that on_fixate_format of vulkan/src/lib.rs leaves for the captures.
use pw_capture.Common.{
  ℕ, ◌≤◌, ◌≡◌, refl, subst, Bool, true, false, not, ◌&&◌, ◌==◌, ==_refl, leb, Option, none, some,
  List, [], ◌∷◌, length, any, keep, arith, Bool-cases, Option-cases, inl, inr, ◌⊎◌,
}
use pw_capture.Client.Format.{Format}
use pw_capture.Client.Negotiation.{EnumFormatInfo, FixateFormat}
use pw_capture.Vulkan.Formats.{
  VkFormats, VkFormatInfo, client_format_get_info, vk_format_get_transfer,
}
use pw_capture.Vulkan.Offers.{
  PhysicalDevice, ModifierProps, get_supported_modifiers, no_usage, transfer_dst,
}
use pw_capture.Vulkan.Layer.{LayerDevice, ExportData, LayerSwapchain, Layer}
use pw_capture.Vulkan.Fixate.{
  CommandDriver, fixated, new_commands, commands, shared_modifiers, choose_queue, fixate_commands,
  put, export_of, fixate_format, on_fixate_format,
}
use pw_capture.Vulkan.Fixate.Queues.{Chosen, choose_queue-Chosen}

first_format :
    (fs : List Format) → (fs ≡ []) ⊎ ((f : Format) × (rest : List Format) × (fs ≡ f ∷ rest))
first_format [] = inl refl
first_format (f ∷ fs) = inr (f, fs, refl)

module _ (vk : VkFormats) (phy_devices : ℕ → PhysicalDevice) (driver : CommandDriver)
    (counted : (pool n : ℕ) (bs : List ℕ)
      → driver.allocate_command_buffers pool n ≡ some bs
      → length bs ≡ n) where
  enough_new :
      (family n pool : ℕ) (bs : List ℕ)
      → new_commands vk phy_devices driver family n ≡ some (pool, bs)
      → n ≤ length bs
  unfolding new_commands
  enough_new family n pool bs e = elim (Option-cases (driver.create_command_pool family)) [
    | inl k ↦ ground (arith, e, k)
    | inr (p, k) ↦ elim (Option-cases (driver.allocate_command_buffers p n)) [
      | inl a ↦ ground (arith, e, k, a)
      | inr (xs, a) ↦ ground (arith, e, k, a, counted p n xs a)
    ]
  ]

  enough :
      (old : Option ExportData) (queue family n pool : ℕ) (bs : List ℕ)
      → commands vk phy_devices driver old queue family n ≡ some (pool, bs)
      → n ≤ length bs
  unfolding commands
  enough none queue family n pool bs e = enough_new family n pool bs e
  enough (some d) queue family n pool bs e =
      elim (Bool-cases ((d.queue == queue) && leb n (length d.command_buffers))) [
        | inl k ↦ ground (arith, e, k)
        | inr k ↦ enough_new family n pool bs (ground (arith, e, k))
      ]

  -- What the captures need of the swapchain's entry.
  pub Usable : ℕ → List ℕ → FixateFormat → Layer → Type 0
  Usable swapchain modifiers out layer =
      (s : LayerSwapchain) × (d : ExportData) × (layer.swapchain_map swapchain ≡ some s)
      × (s.export_data ≡ some d)
      × (length s.images ≤ length d.command_buffers)
      × (d.modifier ≡ out.modifier)
      × (d.num_planes ≡ out.num_planes)
      × ((m : ℕ) × (d.modifier ≡ some m) × (any (λ k. k == m) modifiers ≡ true))
      × Chosen layer.queue_map (not (d.format == s.format)) (d.queue, d.queue_family_index)

  put-Usable :
      (swapchain : ℕ) (s : LayerSwapchain) (vk_format : ℕ) (props : ModifierProps)
      (modifiers : List ℕ) (queue family pool : ℕ) (buffers : List ℕ) (layer : Layer)
      → Chosen layer.queue_map (not (vk_format == s.format)) (queue, family)
      → length s.images ≤ length buffers
      → any (λ k. k == props.drm_format_modifier) modifiers ≡ true
      → Usable swapchain modifiers
          (record { modifier = some props.drm_format_modifier; num_planes = props.plane_count })
          (put vk phy_devices driver swapchain
            (record s {
              export_data =
                  some (export_of vk phy_devices driver vk_format props queue family pool buffers);
            })
            layer)
  unfolding Usable
  put-Usable w s f props ms queue family pool buffers layer c l a = (
    record s {
      export_data = some (export_of vk phy_devices driver f props queue family pool buffers);
    },
    export_of vk phy_devices driver f props queue family pool buffers,
    rw (==_refl w) refl,
    refl,
    l,
    refl,
    refl,
    (props.drm_format_modifier, refl, a),
    c,
  )

  commands-Usable :
      (swapchain : ℕ) (s : LayerSwapchain) (vk_format : ℕ) (props : ModifierProps)
      (modifiers : List ℕ) (chosen : Option (ℕ × ℕ)) (layer layer' : Layer) (out : FixateFormat)
      → ((c : ℕ × ℕ) → chosen ≡ some c → Chosen layer.queue_map (not (vk_format == s.format)) c)
      → any (λ k. k == props.drm_format_modifier) modifiers ≡ true
      → fixate_commands vk phy_devices driver swapchain s vk_format props chosen layer
        ≡ (layer', fixated out)
      → Usable swapchain modifiers out layer'
  unfolding fixate_commands
  commands-Usable w s f props ms none layer layer' out h a e = ground (arith, e)
  commands-Usable w s f props ms (some (queue, family)) layer layer' out h a e =
      elim (Option-cases
        (commands vk phy_devices driver s.export_data queue family (length s.images))) [
          | inl n ↦ ground (arith, e, n)
          | inr ((pool, buffers), k) ↦
              let new =
                put vk phy_devices driver w
                  (record s {
                    export_data =
                        some (export_of vk phy_devices driver f props queue family pool buffers);
                  })
                  layer in
              let done : FixateFormat = record {
                modifier = some props.drm_format_modifier;
                num_planes = props.plane_count;
              } in
              let l : new ≡ layer' = ground (arith, e, k) in
              let o : done ≡ out = ground (arith, e, k) in
              let r =
                put-Usable w s f props ms queue family pool buffers layer (h (queue, family) refl)
                  (enough s.export_data queue family (length s.images) pool buffers k) a in
              subst (λ x. Usable w ms x layer') o (subst (λ x. Usable w ms done x) l r)
        ]

  first_kept :
      (p : ModifierProps → Bool) (xs ys : List ModifierProps) (x : ModifierProps)
      → keep p xs ≡ x ∷ ys
      → p x ≡ true
  first_kept p [] ys x e = ground (arith, e)
  first_kept p (z ∷ zs) ys x e = elim (Bool-cases (p z)) [
    | inl t ↦ let q : z ≡ x = ground (arith, e, t) in subst (λ y. p y ≡ true) q t
    | inr t ↦ first_kept p zs ys x (ground (arith, e, t))
  ]

  module _ (device : LayerDevice) (w : ℕ) (s : LayerSwapchain) (f : Format) (layer layer' : Layer)
      (out : FixateFormat) where
    abbrev info : VkFormatInfo
    info = client_format_get_info vk f (vk_format_get_transfer vk s.format)

    abbrev chosen : Option (ℕ × ℕ)
    chosen = choose_queue layer.queue_map (not (info.vk_format == s.format)) device.queues none

    from_shared :
        (m : ℕ) (ms : List ℕ) (shared : List ModifierProps)
        → shared_modifiers vk phy_devices driver device.phy_device info (m ∷ ms) ≡ shared
        → fixate_format vk phy_devices driver device w s f (m ∷ ms) layer ≡ (layer', fixated out)
        → (info.vk_format == vk.undefined) ≡ false
        → Usable w (m ∷ ms) out layer'
    unfolding fixate_format shared_modifiers
    from_shared m ms [] k e u = ground (arith, e, u, k)
    from_shared m ms (props ∷ others) k e u =
        commands-Usable w s info.vk_format props (m ∷ ms) chosen layer layer' out
          (choose_queue-Chosen layer.queue_map (not (info.vk_format == s.format)) device.queues)
          (first_kept (λ p. any (λ k. k == p.drm_format_modifier) (m ∷ ms))
            (get_supported_modifiers vk (phy_devices device.phy_device) info.vk_format no_usage
              transfer_dst)
            others props k)
          (ground (arith, e, u, k))

    format-Usable :
        (ms : List ℕ)
        → fixate_format vk phy_devices driver device w s f ms layer ≡ (layer', fixated out)
        → Usable w ms out layer'
    unfolding fixate_format
    format-Usable [] e = elim (Bool-cases (info.vk_format == vk.undefined)) [
      | inl u ↦ ground (arith, e, u)
      | inr u ↦ ground (arith, e, u)
    ]
    format-Usable (m ∷ ms) e = elim (Bool-cases (info.vk_format == vk.undefined)) [
      | inl u ↦ ground (arith, e, u)
      | inr u ↦ from_shared m ms _ refl e u
    ]

  -- Where a pool gives as many buffers as it is asked for, a format that is fixed leaves a modifier
  -- of the offer, a queue that the layer knows and that can blit or copy as needed, with its
  -- family, and a command buffer for each image of the swapchain.
  pub on_fixate_format-Usable :
      (device swapchain : ℕ) (offer : EnumFormatInfo) (layer layer' : Layer) (out : FixateFormat)
      → on_fixate_format vk phy_devices driver device swapchain offer layer ≡ (layer', fixated out)
      → Usable swapchain offer.modifiers out layer'
  unfolding on_fixate_format
  on_fixate_format-Usable device w offer layer layer' out e =
      elim (Option-cases (layer.device_map device)) [
        | inl n ↦ ground (arith, e, n)
        | inr (d, kd) ↦ elim (Option-cases (layer.instance_map d.instance')) [
          | inl n ↦ ground (arith, e, kd, n)
          | inr (i, ki) ↦ elim (Option-cases (layer.swapchain_map w)) [
            | inl n ↦ elim (Bool-cases i.valid) [
              | inl v ↦ ground (arith, e, kd, ki, n, v)
              | inr v ↦ ground (arith, e, kd, ki, n, v)
            ]
            | inr (s, ks) ↦ elim (Bool-cases i.valid) [
              | inr v ↦ ground (arith, e, kd, ki, ks, v)
              | inl v ↦ elim (first_format offer.formats) [
                | inl n ↦ ground (arith, e, kd, ki, ks, v, n)
                | inr (f, fs, n) ↦
                    format-Usable d w s f layer layer' out offer.modifiers
                      (ground (arith, e, kd, ki, ks, v, n))
              ]
            ]
          ]
        ]
      ]
