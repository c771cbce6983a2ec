-- ===== src/Memory/Tests.antt =====
-- Runs of memcpy, memset and memcmp of src/utils/string.c, and their theorems at concrete buffers.
use xenon_os.Base.{◌%◌, ◌^◌, ◌≡◌, inr, refl, arith, pos}
use xenon_os.Memory.{Bytes, memcpy, memcmp, rep_movsl, rep_movsb, store32, load32, repe_cmpsb}
use xenon_os.Memory.Copy.{IsBytes, memcpy-at}

-- The byte at an address is the address, modulo 256.
abbrev ramp : Bytes
ramp a = a % 2 ^ 8

ramp-IsBytes : IsBytes ramp
ramp-IsBytes a = omega arith

memcpy-ramp : memcpy 100 10 7 ramp 106 ≡ 16
unfolding memcpy rep_movsl rep_movsb store32 load32
memcpy-ramp = refl

memcpy-at_example : memcpy 100 10 7 ramp 106 ≡ 16
memcpy-at_example = memcpy-at 100 10 7 106 ramp ramp-IsBytes (inr (omega arith))

memcmp-ramp : memcmp 3 0 2 ramp ≡ pos 3
unfolding memcmp repe_cmpsb
memcmp-ramp = refl
