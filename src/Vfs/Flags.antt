-- ===== src/Vfs/Flags.antt =====
-- The values of `FSNodeFlags` in src/kernel/fs.cpp.
use swish_kernel.Prelude.{ℕ}

abbrev pub file : ℕ
file = 1

abbrev pub directory : ℕ
directory = 2

abbrev pub chardevice : ℕ
chardevice = 3

abbrev pub blockdevice : ℕ
blockdevice = 4

abbrev pub pipe : ℕ
pipe = 5

abbrev pub symlink : ℕ
symlink = 6

abbrev pub mountpoint : ℕ
mountpoint = 7
