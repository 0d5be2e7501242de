-- ===== src/Ustar/Field.antt =====
-- The offsets of the fields of `struct ustar_header` of lib/ustar.c.
use projectmod.Base.{ℕ}

abbrev pub mode : ℕ
mode = 100

abbrev pub uid : ℕ
uid = 108

abbrev pub gid : ℕ
gid = 116

abbrev pub size : ℕ
size = 124

abbrev pub mtime : ℕ
mtime = 136

abbrev pub chksum : ℕ
chksum = 148

abbrev pub typeflag : ℕ
typeflag = 156

abbrev pub magic : ℕ
magic = 257

abbrev pub version : ℕ
version = 263

abbrev pub uname : ℕ
uname = 265

abbrev pub gname : ℕ
gname = 297

abbrev pub prefix : ℕ
prefix = 345
