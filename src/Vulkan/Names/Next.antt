-- ===== src/Vulkan/Names/Next.antt =====
-- The layer's own calls go to the next layer, never back to itself.
use pw_capture.Common.{ℕ, ◌≢◌, Option, String, arith, DashMap}
use pw_capture.Vulkan.Names.{
  Handler, ours, Lookup, next_or_null, dispatch_next_get_instance_proc_addr,
  dispatch_next_get_device_proc_addr,
}

not_ours : (h : Handler) (lookup : Lookup) (name : String) → next_or_null lookup name ≢ ours h
unfolding next_or_null
not_ours h lookup name q = ground arith

-- The functions that the layer loads for its own use, of instances and of devices, are never its
-- own interceptions, whatever the next layer's lookups answer.
pub dispatch_next-others :
    (gipa : Lookup) (gdpa : DashMap (String → Option ℕ)) (device : ℕ) (name : String) (h : Handler)
    → (dispatch_next_get_instance_proc_addr gipa name ≢ ours h)
      × (dispatch_next_get_device_proc_addr gdpa device name ≢ ours h)
unfolding dispatch_next_get_instance_proc_addr dispatch_next_get_device_proc_addr
dispatch_next-others gipa gdpa device name h =
    (λ q. ground (arith, not_ours h gipa name), λ q. ground (arith, not_ours h (gdpa device) name))
