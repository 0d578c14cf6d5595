-- ===== src/Vulkan/Names.antt =====
-- The names that the Vulkan layer answers for: pwcap_vkGetInstanceProcAddr,
-- pwcap_vkGetDeviceProcAddr and the lookups of the next layer's functions, of vulkan/src/lib.rs.
pub mod Next
use pw_capture.Common.{Option, none, some, List, [], ◌∷◌, String, str_eq, if◌then◌else◌, ℕ, DashMap}

-- The functions of the layer, and the two lookups that it loads the next layer's functions with.
pub data Handler : Type 0 where
  pwcap_get_instance_proc_addr pwcap_create_instance pwcap_destroy_instance : Handler
  pwcap_get_device_proc_addr pwcap_create_device pwcap_destroy_device : Handler
  pwcap_create_xlib_surface pwcap_create_xcb_surface pwcap_create_wayland_surface : Handler
  pwcap_destroy_surface pwcap_create_swapchain pwcap_destroy_swapchain : Handler
  pwcap_acquire_next_image pwcap_acquire_next_image2 pwcap_queue_present : Handler

pub data Address : Type 0 where
  null dispatch_instance dispatch_device : Address
  next : ℕ → Address
  ours : Handler → Address

unfoldable pub match_name : {A : Type 0} → String → List (String × A) → Option A
match_name name [] = none
match_name name ((n, h) ∷ arms) = if str_eq name n then some h else match_name name arms

abbrev pub instance_arms : List (String × Handler)
instance_arms =
    ("vkGetInstanceProcAddr", pwcap_get_instance_proc_addr)
    ∷ ("vkCreateInstance", pwcap_create_instance)
    ∷ ("vkDestroyInstance", pwcap_destroy_instance)
    ∷ ("vkGetDeviceProcAddr", pwcap_get_device_proc_addr)
    ∷ ("vkCreateDevice", pwcap_create_device)
    ∷ ("vkDestroyDevice", pwcap_destroy_device)
    ∷ []

abbrev pub surface_arms : List (String × Handler)
surface_arms =
    ("vkCreateXlibSurfaceKHR", pwcap_create_xlib_surface)
    ∷ ("vkCreateXcbSurfaceKHR", pwcap_create_xcb_surface)
    ∷ ("vkCreateWaylandSurfaceKHR", pwcap_create_wayland_surface)
    ∷ ("vkDestroySurfaceKHR", pwcap_destroy_surface)
    ∷ []

abbrev pub device_arms : List (String × Handler)
device_arms =
    ("vkGetDeviceProcAddr", pwcap_get_device_proc_addr)
    ∷ ("vkCreateDevice", pwcap_create_device)
    ∷ ("vkDestroyDevice", pwcap_destroy_device)
    ∷ []

abbrev pub swapchain_arms : List (String × Handler)
swapchain_arms =
    ("vkCreateSwapchainKHR", pwcap_create_swapchain)
    ∷ ("vkDestroySwapchainKHR", pwcap_destroy_swapchain)
    ∷ ("vkAcquireNextImageKHR", pwcap_acquire_next_image)
    ∷ ("vkAcquireNextImage2KHR", pwcap_acquire_next_image2)
    ∷ ("vkQueuePresentKHR", pwcap_queue_present)
    ∷ []

-- The next layer's lookup, if it is known: a function's number, or null.
abbrev pub Lookup : Type 0
Lookup = Option (String → Option ℕ)

-- An extension's function, where the next layer has it.
unfoldable pub or_next : Option Handler → ℕ → Address
or_next none f = next f
or_next (some h) f = ours h

unfoldable pub answer_supported : Lookup → List (String × Handler) → String → Address
unfolding or_next match_name
answer_supported none arms name = null
answer_supported (some lookup) arms name = elim (lookup name) [
  | none ↦ null
  | some f ↦ or_next (match_name name arms) f
]

unfoldable pub get_instance_proc_addr : Lookup → String → Address
unfolding match_name answer_supported
get_instance_proc_addr gipa name = elim (match_name name instance_arms) [
  | some h ↦ ours h
  | none ↦ answer_supported gipa surface_arms name
]

unfoldable pub get_device_proc_addr : DashMap (String → Option ℕ) → ℕ → String → Address
unfolding match_name answer_supported
get_device_proc_addr gdpa device name = elim (match_name name device_arms) [
  | some h ↦ ours h
  | none ↦ answer_supported (gdpa device) swapchain_arms name
]

-- What the layer loads its own table with: itself for the lookups, and nothing for the functions
-- that are global.
abbrev pub dispatch_arms : List (String × Address)
dispatch_arms =
    ("vkGetInstanceProcAddr", dispatch_instance)
    ∷ ("vkGetDeviceProcAddr", dispatch_device)
    ∷ ("vkEnumerateInstanceExtensionProperties", null)
    ∷ ("vkEnumerateInstanceLayerProperties", null)
    ∷ ("vkEnumerateInstanceVersion", null)
    ∷ []

unfoldable pub next_or_null : Lookup → String → Address
next_or_null none name = null
next_or_null (some lookup) name = elim (lookup name) [ none ↦ null | some f ↦ next f ]

unfoldable pub dispatch_next_get_instance_proc_addr : Lookup → String → Address
unfolding match_name next_or_null
dispatch_next_get_instance_proc_addr gipa name = elim (match_name name dispatch_arms) [
  | some a ↦ a
  | none ↦ next_or_null gipa name
]

unfoldable pub dispatch_next_get_device_proc_addr :
    DashMap (String → Option ℕ) → ℕ → String → Address
unfolding next_or_null
dispatch_next_get_device_proc_addr gdpa device name =
    if str_eq name "vkGetDeviceProcAddr" then dispatch_device else next_or_null (gdpa device) name
