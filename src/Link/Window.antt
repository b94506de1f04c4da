-- ===== src/Link/Window.antt =====
-- Flow control: how many frames are in flight.
use qemu_vcs.Base.{◌^◌, ◌≤◌, ◌<◌, ◌≡◌, ◌⊎◌, arith, if◌then◌else◌}
use qemu_vcs.Link.{LinkModel, fc_can_send, inc_outstanding, dec_outstanding}

-- What the two sides do to the window, in any order: a frame is sent if it may be, or one is
-- reported as consumed.
pub data Event : Type 0 where
  attempt complete : Event

unfoldable pub account : LinkModel → Event → LinkModel
account m attempt = if fc_can_send m then inc_outstanding m else m
account m complete = dec_outstanding m

-- At most the window's number of frames is outstanding, where there is a window.
abbrev pub InWindow : LinkModel → Type 0
InWindow m = (m.fc_window ≡ 0) ⊎ (m.outstanding ≤ m.fc_window)

-- The window is never exceeded: a frame that is sent when `link_model_fc_can_send` allows it, and
-- one that is completed, keep the number of outstanding frames within a 32-bit window.
pub account-InWindow :
    (m : LinkModel) (e : Event) → m.fc_window < 2 ^ 32 → InWindow m → InWindow (account m e)
unfolding account fc_can_send inc_outstanding dec_outstanding
account-InWindow m attempt small w = ground arith
account-InWindow m complete small w = ground arith
