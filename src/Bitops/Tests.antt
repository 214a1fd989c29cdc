-- ===== src/Bitops/Tests.antt =====
-- The laws of the bit routines at a word.
use mk_os.Base.{◌-◌, ◌^◌, ◌≤◌, ◌<◌, ◌≡◌, refl, arith}
use mk_os.Bitops.{leading_zeros, clz, ntohl}
use mk_os.Bitops.Laws.{clz_top, ntohl-ntohl}

clz_top_run : (clz 40 < 64) × (2 ^ (63 - clz 40) ≤ 40) × (40 < 2 ^ (64 - clz 40))
clz_top_run = clz_top 40 (omega arith) (omega arith)

ntohl-ntohl_run : ntohl (ntohl 0x27051956) ≡ 0x27051956
ntohl-ntohl_run = ntohl-ntohl 0x27051956 (omega arith)

clz_run : clz 40 ≡ 58
unfolding clz leading_zeros
clz_run = refl

ntohl_run : ntohl 0x27051956 ≡ 0x56190527
unfolding ntohl
ntohl_run = refl
