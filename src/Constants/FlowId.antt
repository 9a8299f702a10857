-- ===== src/Constants/FlowId.antt =====
-- src/constants.h, `enum reserved_flow_indices`: the ids below the first unreserved one stand for
-- other network protocols.
use bismark_passive.Prelude.{ℕ}

abbrev pub error : ℕ
error = 0

abbrev pub aarp : ℕ
aarp = 1

abbrev pub arp : ℕ
arp = 2

abbrev pub at : ℕ
at = 3

abbrev pub ipv6 : ℕ
ipv6 = 4

abbrev pub ipx : ℕ
ipx = 5

abbrev pub revarp : ℕ
revarp = 6

abbrev pub first_unreserved : ℕ
first_unreserved = 7

abbrev pub last_unreserved : ℕ
last_unreserved = 65535
