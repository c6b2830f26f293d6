-- ===== src/Bridge/Sysfs.antt =====
-- `gf_bridge_sysfs_read` and `gf_bridge_sysfs_write`: the file "core" of a device, and the files of its
-- interfaces.
use emer_gen_z.Base.{
  ℕ, ◌+◌, ◌-◌, ◌%◌, ◌^◌, ◌≤◌, ◌<◌, ◌≡◌, refl, not, Option, none, some, List, ◌++◌, length,
  if◌then◌else◌, pos, Bool-cases, inl, inr,
}
use emer_gen_z.Text.{codes, streq}
use emer_gen_z.Text.Buffer.{clear, snprintf, end_text, IsFilled, filled}
use emer_gen_z.Text.Decimal.{decimal_int}
use emer_gen_z.Fee.{Core}

-- "SID0=%d\nCID0=%d\nMaxInterface=%d\n"
unfoldable pub core_text : Core → List ℕ
core_text c =
    codes "SID0="
    ++ (decimal_int c.sid0
        ++ (codes "\nCID0="
            ++ (decimal_int c.cid0
                ++ (codes "\nMaxInterface=" ++ (decimal_int (pos c.max_interface) ++ codes "\n")))))

-- The limit `size - 1` is unsigned. `core` is what `brdev->core` points at; `none` is a fault.
unfoldable pub gf_bridge_sysfs_read :
    (name : List ℕ) → (core : Option Core) → (buf : List ℕ) → (size : ℕ) → Option (ℕ × List ℕ)
gf_bridge_sysfs_read name core buf size =
    let limit = (size + 2 ^ 64 - 1) % 2 ^ 64 in
    if not (streq name (codes "core"))
    then some (size, snprintf limit (codes "You are in the bridge driver.\n") (clear size buf))
    else elim core [
      | none ↦ none
      | some c ↦ some (size, snprintf limit (core_text c) (clear size buf))
    ]

-- the write only ends the text
abbrev pub gf_bridge_sysfs_write : (buf : List ℕ) → (size : ℕ) → Option (ℕ × List ℕ)
gf_bridge_sysfs_write = end_text

-- A read of one byte or more into a buffer that has them, from a file that is not "core" or of a device
-- with a core structure, returns its size and writes nothing behind it, and the last byte is a NUL.
pub gf_bridge_sysfs_read-IsFilled :
    (name : List ℕ) (c : Core) (buf : List ℕ) (size : ℕ)
    → 1 ≤ size
    → size ≤ length buf
    → size < 2 ^ 64
    → (buf' : List ℕ) × (gf_bridge_sysfs_read name (some c) buf size ≡ some (size, buf'))
      × IsFilled size buf buf'
unfolding gf_bridge_sysfs_read
gf_bridge_sysfs_read-IsFilled name c buf size some_byte fits small =
    elim (Bool-cases (streq name (codes "core"))) [
      | inl core ↦ (
        snprintf ((size + 2 ^ 64 - 1) % 2 ^ 64) (core_text c) (clear size buf),
        rw core refl,
        filled (core_text c) buf size some_byte fits small,
      )
      | inr other ↦ (
        snprintf ((size + 2 ^ 64 - 1) % 2 ^ 64) (codes "You are in the bridge driver.\n")
            (clear size buf),
        rw other refl,
        filled (codes "You are in the bridge driver.\n") buf size some_byte fits small,
      )
    ]
