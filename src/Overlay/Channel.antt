-- ===== src/Overlay/Channel.antt =====
-- A buffered Go channel of overlay frames, and the sends that the code makes on it.
use vk_turn_proxy_go.Base.{
  ℕ, ◌≤◌, Bool, true, false, List, [], ◌∷◌, ◌++◌, arith, ltb, ◌==◌, if◌then◌else◌, length,
  length-append,
}
use vk_turn_proxy_go.Overlay.Frame.{Frame}

pub record Channel : Type 0 where
  pub buffer : List Frame
  pub capacity : ℕ

-- `select { case c <- f: … default: … }`: whether the frame was taken.
unfoldable pub try_send : Frame → Channel → Channel × Bool
try_send f c =
    if ltb (length c.buffer) c.capacity
    then (record c { buffer = c.buffer ++ f ∷ [] }, true)
    else (c, false)

-- All channels, by number.
abbrev pub Channels : Type 0
Channels = ℕ → Channel

unfoldable pub update : ℕ → Channel → Channels → Channels
update n c cs m = if n == m then c else cs m

unfoldable pub send_to : ℕ → Frame → Channels → Channels × Bool
unfolding try_send update
send_to n f cs = let (c, sent) = try_send f (cs n) in (update n c cs, sent)

-- No channel holds more than it has room for.
abbrev pub HaveRoom : Channels → Type 0
HaveRoom cs = (n : ℕ) → length (cs n).buffer ≤ (cs n).capacity

pub send_to-HaveRoom :
    (n : ℕ) (f : Frame) (cs : Channels) → HaveRoom cs → HaveRoom (send_to n f cs).0
unfolding send_to
send_to-HaveRoom n f cs h m = ground (arith, h m, h n, length-append (cs n).buffer (f ∷ []))
