-- ===== src/Cursor/Wayland/Methods/Frames.antt =====
-- What a commit makes active: the double-buffered state of a surface, m_surface_attach,
-- m_surface_set_buffer_scale and m_surface_commit of cursor/src/wayland/mod.rs.
use pw_capture.Common.{ℤ, pos, ◌≡◌, refl, ◌∙◌, ap, none, some, List, [], ◌∷◌, arith, ==_refl}
use pw_capture.Cursor.Wayland.State.{WlHandle, SurfaceState, WlIntercept}
use pw_capture.Cursor.Wayland.Methods.{
  m_surface_attach, m_surface_set_buffer_scale, m_surface_commit,
}

-- The requests that write pending state.
pub data SurfaceRequest : Type 0 where
  attaches : WlHandle → SurfaceRequest
  scales : ℤ → SurfaceRequest

pub request : WlHandle → SurfaceRequest → WlIntercept → WlIntercept
request surface (attaches buffer) st = (m_surface_attach surface buffer st).0
request surface (scales scale) st = (m_surface_set_buffer_scale surface scale st).0

pub requests : WlHandle → List SurfaceRequest → WlIntercept → WlIntercept
requests surface [] st = st
requests surface (r ∷ rs) st = requests surface rs (request surface r st)

pub last_attached : WlHandle → List SurfaceRequest → WlHandle
last_attached buffer [] = buffer
last_attached buffer (attaches b ∷ rs) = last_attached b rs
last_attached buffer (scales k ∷ rs) = last_attached buffer rs

pub last_scale : ℤ → List SurfaceRequest → ℤ
last_scale scale [] = scale
last_scale scale (attaches b ∷ rs) = last_scale scale rs
last_scale scale (scales k ∷ rs) = last_scale k rs

abbrev with_pending : SurfaceState → WlHandle → ℤ → SurfaceState
with_pending s buffer scale = record s {
  pending_buffer = some (record { buffer = buffer; scale = scale });
}

request_first :
    (surface : WlHandle) (r : SurfaceRequest) (s : SurfaceState) (st : WlIntercept)
    → st.surface_map surface ≡ some s
    → s.pending_buffer ≡ none
    → (request surface r st).surface_map surface
      ≡ some (with_pending s 0 (last_scale (pos 1) (r ∷ [])))
unfolding request m_surface_attach m_surface_set_buffer_scale last_scale
request_first surface (attaches b) s st e p = ground (arith, ==_refl surface)
request_first surface (scales k) s st e p = ground (arith, ==_refl surface)

request_next :
    (surface : WlHandle) (r : SurfaceRequest) (s : SurfaceState) (b : WlHandle) (k : ℤ)
    (st : WlIntercept)
    → st.surface_map surface ≡ some (with_pending s b k)
    → (request surface r st).surface_map surface
      ≡ some (with_pending s (last_attached b (r ∷ [])) (last_scale k (r ∷ [])))
unfolding request m_surface_attach m_surface_set_buffer_scale last_scale last_attached
request_next surface (attaches b') s b k st e = ground (arith, ==_refl surface)
request_next surface (scales k') s b k st e = ground (arith, ==_refl surface)

requests_later :
    (surface : WlHandle) (rs : List SurfaceRequest) (s : SurfaceState) (b : WlHandle) (k : ℤ)
    (st : WlIntercept)
    → st.surface_map surface ≡ some (with_pending s b k)
    → (requests surface rs st).surface_map surface
      ≡ some (with_pending s (last_attached b rs) (last_scale k rs))
unfolding requests last_attached last_scale
requests_later surface [] s b k st e = e
requests_later surface (attaches b' ∷ rs) s b k st e =
    requests_later surface rs s b' k _ (request_next surface (attaches b') s b k st e)
requests_later surface (scales k' ∷ rs) s b k st e =
    requests_later surface rs s b k' _ (request_next surface (scales k') s b k st e)

last_scale-cons :
    (k : ℤ) (r : SurfaceRequest) (rs : List SurfaceRequest)
    → last_scale (last_scale k (r ∷ [])) rs ≡ last_scale k (r ∷ rs)
unfolding last_scale
last_scale-cons k (attaches b) rs = refl
last_scale-cons k (scales k') rs = refl

requests_all :
    (surface : WlHandle) (r : SurfaceRequest) (rs : List SurfaceRequest) (s : SurfaceState)
    (st : WlIntercept)
    → st.surface_map surface ≡ some s
    → s.pending_buffer ≡ none
    → (requests surface (r ∷ rs) st).surface_map surface
      ≡ some (with_pending s (last_attached 0 rs) (last_scale (pos 1) (r ∷ rs)))
unfolding requests
requests_all surface r rs s st e p =
    requests_later surface rs s 0 _ _ (request_first surface r s st e p)
    ∙ ap (λ k. some (with_pending s (last_attached 0 rs) k)) (last_scale-cons (pos 1) r rs)

-- On a known surface with nothing pending, after any non-empty run of attach and
-- set_buffer_scale requests and a commit, the active buffer has the handle of the last attach
-- after the first request, or the null handle if there is none (so a buffer that only the first
-- request attaches is lost), and the scale of the last set_buffer_scale, or 1; nothing is pending
-- and the rest of the surface is as before.
pub commit-requests :
    (surface : WlHandle) (r : SurfaceRequest) (rs : List SurfaceRequest) (s : SurfaceState)
    (st : WlIntercept)
    → st.surface_map surface ≡ some s
    → s.pending_buffer ≡ none
    → (m_surface_commit surface (requests surface (r ∷ rs) st)).0.surface_map surface
      ≡ some (record s {
        active_buffer =
            some (record { buffer = last_attached 0 rs; scale = last_scale (pos 1) (r ∷ rs) });
        pending_buffer = none;
      })
unfolding m_surface_commit
commit-requests surface r rs s st e p =
    ground (arith, ==_refl surface, requests_all surface r rs s st e p)

-- A commit on a known surface with nothing pending clears the active buffer.
pub commit_idle :
    (surface : WlHandle) (s : SurfaceState) (st : WlIntercept)
    → st.surface_map surface ≡ some s
    → s.pending_buffer ≡ none
    → (m_surface_commit surface st).0.surface_map surface
      ≡ some (record s { active_buffer = none; pending_buffer = none })
unfolding m_surface_commit
commit_idle surface s st e p = ground (arith, ==_refl surface)
