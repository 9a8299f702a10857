-- ===== src/Ethertype.antt =====
-- src/ethertype.h: the Ethernet protocols that the program tells apart.
use bismark_passive.Prelude.{ℕ}

abbrev pub ip : ℕ
ip = 0x0800

abbrev pub arp : ℕ
arp = 0x0806

abbrev pub revarp : ℕ
revarp = 0x8035

abbrev pub atalk : ℕ
atalk = 0x809b

abbrev pub aarp : ℕ
aarp = 0x80f3

abbrev pub ipx : ℕ
ipx = 0x8137

abbrev pub ipv6 : ℕ
ipv6 = 0x86dd
