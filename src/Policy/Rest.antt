-- ===== src/Policy/Rest.antt =====
-- What the intersection permits of storage, clipboard, files and audio.
use q_browser.Base.{Bool, false, ◌&&◌, Option, none, some, ◌≡◌, refl, arith, if◌then◌else◌}
use q_browser.Base.Int.{ℤ, pos}
use q_browser.Base.Text.{Text}
use q_browser.Policy.{
  HostClipboardPolicy, HostFilePolicy, HostPolicy, ManifestPermissions, in_range, validated_storage,
  validated_file, maximum_storage_bytes, maximum_broker_bytes,
}
use q_browser.Policy.Engine.{intersect_clipboard, intersect_storage, intersect_file, intersect}

abbrev pub may_write : Option HostClipboardPolicy → Bool
may_write none = false
may_write (some c) = c.write

abbrev pub may_read : Option HostClipboardPolicy → Bool
may_read none = false
may_read (some c) = c.read_with_user_gesture

-- The bytes of storage, 0 without any
abbrev pub quota : Option ℤ → ℤ
quota none = pos 0
quota (some n) = n

abbrev pub may_open : Option HostFilePolicy → Bool
may_open none = false
may_open (some f) = f.can_open

-- The bytes of a file that is opened, 0 where none is
abbrev pub file_limit : Option HostFilePolicy → ℤ
file_limit none = pos 0
file_limit (some f) = f.maximum_bytes

clipboard_exact :
    (m : ManifestPermissions) (host : Option HostClipboardPolicy)
    → (may_write (intersect_clipboard m host) ≡ (m.clipboard_write && may_write host))
      × (may_read (intersect_clipboard m host) ≡ (m.clipboard_user_gesture && may_read host))
unfolding intersect_clipboard
clipboard_exact m none = ground arith
clipboard_exact m (some c) = ground arith

storage_exact :
    (m : ManifestPermissions) (host : Option ℤ)
    → quota (intersect_storage m host) ≡ (
        if m.app_private_storage && in_range maximum_storage_bytes (quota host)
        then quota host
        else pos 0)
unfolding intersect_storage validated_storage
storage_exact m none = ground arith
storage_exact m (some n) = ground arith

file_exact :
    (m : ManifestPermissions) (host : Option HostFilePolicy)
    → file_limit (intersect_file m host) ≡ (
        if m.file_user_brokered && may_open host && in_range maximum_broker_bytes (file_limit host)
        then file_limit host
        else pos 0)
unfolding intersect_file validated_file
file_exact m none = ground arith
file_exact m (some f) = ground arith

-- Of the capabilities apart from the network the package gets what manifest and host both grant,
-- and no more: each use of the clipboard, the audio playback, and the bytes that the host sets for
-- storage and for files, where these are positive and not above 16 MiB and 1 MiB.
pub intersect_exact :
    (to_ace : Text → Option Text) (is_hostname_pattern is_numeric_component : Text → Bool)
    (m : ManifestPermissions) (host : HostPolicy)
    → (may_write (intersect to_ace is_hostname_pattern is_numeric_component m host).clipboard
        ≡ (m.clipboard_write && may_write host.clipboard))
      × (may_read (intersect to_ace is_hostname_pattern is_numeric_component m host).clipboard
          ≡ (m.clipboard_user_gesture && may_read host.clipboard))
      × ((intersect to_ace is_hostname_pattern is_numeric_component m host).audio_playback
          ≡ (m.audio_playback && host.audio_playback))
      × (quota (intersect to_ace is_hostname_pattern is_numeric_component m host).storage ≡ (
          if m.app_private_storage && in_range maximum_storage_bytes (quota host.storage)
          then quota host.storage
          else pos 0))
      × (file_limit (intersect to_ace is_hostname_pattern is_numeric_component m host).file ≡ (
          if m.file_user_brokered
            && may_open host.file
            && in_range maximum_broker_bytes (file_limit host.file)
          then file_limit host.file
          else pos 0))
unfolding intersect
intersect_exact to_ace is_hostname_pattern is_numeric_component m host = (
  (clipboard_exact m host.clipboard).0,
  (clipboard_exact m host.clipboard).1,
  refl,
  storage_exact m host.storage,
  file_exact m host.file,
)
