-- ===== src/Release/Sentinel.antt =====
-- scripts/firmware-image.mjs: the startup sentinel in the vector table of an image.
use frogalert.Prelude.{
  ℕ, ◌+◌, not, ◌&&◌, List, length, Result, ok, throw_if, ◌>>=◌, ◌>>◌, ltb, ◌==◌,
}
use frogalert.Config.Codec.{get_uint32, set_uint32}

pub data SentinelError : Type 0 where
  image_too_short sentinel_missing vector_not_reserved : SentinelError

abbrev pub user_option_offset : ℕ
user_option_offset = 0x14

abbrev pub user_option_magic : ℕ
user_option_magic = 0xf5f9bda9

unfoldable pub as_image_bytes : List ℕ → Result SentinelError (List ℕ)
as_image_bytes bytes = do
  throw_if (ltb (length bytes) (user_option_offset + 4)) image_too_short
  ok bytes

unfoldable pub read_user_option_magic : List ℕ → Result SentinelError ℕ
read_user_option_magic bytes = do
  image ← as_image_bytes bytes
  ok (get_uint32 image user_option_offset)

unfoldable pub assert_user_option_magic : List ℕ → Result SentinelError (Unit {0})
assert_user_option_magic bytes = do
  magic ← read_user_option_magic bytes
  throw_if (not (magic == user_option_magic)) sentinel_missing

unfoldable pub finalize_firmware : List ℕ → Result SentinelError (List ℕ)
finalize_firmware bytes = do
  image ← as_image_bytes bytes
  existing ← read_user_option_magic image
  throw_if (not (existing == 0) && not (existing == user_option_magic)) vector_not_reserved
  let final = set_uint32 image user_option_offset user_option_magic
  assert_user_option_magic final
  ok final
