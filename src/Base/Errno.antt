-- ===== src/Base/Errno.antt =====
-- The error numbers of the Linux kernel that the sources return, as positive numbers.
use Prim.Native.Nat.{ℕ}

abbrev pub enomem : ℕ
enomem = 12

abbrev pub efault : ℕ
efault = 14

abbrev pub ebusy : ℕ
ebusy = 16

abbrev pub enodev : ℕ
enodev = 19

abbrev pub einval : ℕ
einval = 22

abbrev pub enospc : ℕ
enospc = 28

abbrev pub edom : ℕ
edom = 33

abbrev pub e2big : ℕ
e2big = 7

abbrev pub eio : ℕ
eio = 5

abbrev pub eagain : ℕ
eagain = 11

abbrev pub ebadf : ℕ
ebadf = 9

abbrev pub ebadslt : ℕ
ebadslt = 57

abbrev pub enodata : ℕ
enodata = 61

abbrev pub ebadmsg : ℕ
ebadmsg = 74

abbrev pub enetunreach : ℕ
enetunreach = 101

abbrev pub etimedout : ℕ
etimedout = 110

abbrev pub ealready : ℕ
ealready = 114

abbrev pub erestartsys : ℕ
erestartsys = 512
