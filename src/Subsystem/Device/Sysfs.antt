-- ===== src/Subsystem/Device/Sysfs.antt =====
-- `chrdev_bin_read` and `chrdev_bin_write` of subsystem/genz_device.c: the callbacks of a file for which
-- the driver gives none.
use emer_gen_z.Base.{ℕ, ◌+◌, ◌-◌, ◌%◌, ◌^◌, ◌≤◌, ◌<◌, ◌≡◌, refl, Option, List, length}
use emer_gen_z.Text.{codes}
use emer_gen_z.Text.Buffer.{clear, snprintf, end_text, IsFilled, filled}

unfoldable pub chrdev_bin_read : (buf : List ℕ) → (size : ℕ) → ℕ × List ℕ
chrdev_bin_read buf size = (
  size,
  snprintf ((size + 2 ^ 64 - 1) % 2 ^ 64)
      (codes "You're in a maze of twisty little passages, all alike.\n") (clear size buf),
)

abbrev pub chrdev_bin_write : (buf : List ℕ) → (size : ℕ) → Option (ℕ × List ℕ)
chrdev_bin_write = end_text

-- A read of one byte or more into a buffer that has them returns its size and writes nothing behind it,
-- and the last byte is a NUL.
pub chrdev_bin_read-IsFilled :
    (buf : List ℕ) (size : ℕ)
    → 1 ≤ size
    → size ≤ length buf
    → size < 2 ^ 64
    → ((chrdev_bin_read buf size).0 ≡ size) × IsFilled size buf (chrdev_bin_read buf size).1
unfolding chrdev_bin_read
chrdev_bin_read-IsFilled buf size some_byte fits small = (
  refl,
  filled (codes "You're in a maze of twisty little passages, all alike.\n") buf size some_byte fits
      small,
)
