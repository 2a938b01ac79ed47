-- ===== src/Diag/Stats.antt =====
-- The operating system's network statistics, as src/diagnostic/diag_report.c reads them.
use cedar_switch_3i3o_power.Common.{ℕ, Bool, Option, List, map, ℤ, pos}
use cedar_switch_3i3o_power.Common.CString.{Bytes}

-- The members of `net_stats` that the report prints; those of `bytes` have 64 bits, the others 32.
pub record IpStats : Type 0 where
  pub recv : ℕ
  pub sent : ℕ
  pub drop : ℕ
  pub forwarded : ℕ

pub record IpErrors : Type 0 where
  pub vhlerr : ℕ
  pub hblenerr : ℕ
  pub lblenerr : ℕ
  pub fragerr : ℕ
  pub chkerr : ℕ
  pub protoerr : ℕ

pub record IcmpStats : Type 0 where
  pub recv : ℕ
  pub sent : ℕ
  pub drop : ℕ
  pub typeerr : ℕ
  pub chkerr : ℕ

pub record UdpStats : Type 0 where
  pub recv : ℕ
  pub sent : ℕ
  pub drop : ℕ
  pub chkerr : ℕ

pub record ByteStats : Type 0 where
  pub received : ℕ
  pub sent : ℕ

pub record TcpStats : Type 0 where
  pub bytes : ByteStats
  pub recv : ℕ
  pub sent : ℕ
  pub drop : ℕ
  pub resent : ℕ
  pub chkerr : ℕ
  pub ackerr : ℕ
  pub rsterr : ℕ
  pub rst : ℕ
  pub rexmit : ℕ
  pub conndrop : ℕ
  pub connrst : ℕ

pub record NetStats : Type 0 where
  pub ipv4 : IpStats
  pub ip_errors : IpErrors
  pub icmp : IcmpStats
  pub udp : UdpStats
  pub tcp : TcpStats
  pub bytes : ByteStats
  pub processing_error : ℕ

-- memset(&stats, 0, sizeof(stats))
abbrev pub zero_stats : NetStats
zero_stats = record {
  ipv4 = record { recv = 0; sent = 0; drop = 0; forwarded = 0 };
  ip_errors = record {
    vhlerr = 0;
    hblenerr = 0;
    lblenerr = 0;
    fragerr = 0;
    chkerr = 0;
    protoerr = 0;
  };
  icmp = record { recv = 0; sent = 0; drop = 0; typeerr = 0; chkerr = 0 };
  udp = record { recv = 0; sent = 0; drop = 0; chkerr = 0 };
  tcp = record {
    bytes = record { received = 0; sent = 0 };
    recv = 0;
    sent = 0;
    drop = 0;
    resent = 0;
    chkerr = 0;
    ackerr = 0;
    rsterr = 0;
    rst = 0;
    rexmit = 0;
    conndrop = 0;
    connrst = 0;
  };
  bytes = record { received = 0; sent = 0 };
  processing_error = 0;
}

-- A pair of counters of `net_stats_eth`.
pub record RxTx : Type 0 where
  pub rx : ℕ
  pub tx : ℕ

pub record EthStats : Type 0 where
  pub bytes : ByteStats
  pub pkts : RxTx
  pub broadcast : RxTx
  pub multicast : RxTx

-- An interface: its address in memory, its number, its own statistics, and what net_mgmt answers:
-- the code, and the caller's structure afterwards. `all_stats` is what net_if_get_stats gives.
pub record Iface : Type 0 where
  pub address : ℕ
  pub index : ℕ
  pub is_up : Bool
  pub mtu : ℕ
  pub is_ethernet : Bool
  pub stats : NetStats
  pub all_stats : Option NetStats
  pub get_all : NetStats → ℤ × NetStats
  pub get_ethernet : ℤ × EthStats

-- A line of the log: its format and its arguments.
pub record Line : Type 0 where
  pub format : Bytes
  pub args : List ℤ

abbrev pub line : Bytes → List ℕ → Line
line format args = record { format = format; args = map pos args }
