-- ===== src/Diag/Print.antt =====
-- src/diagnostic/diag_report.c: the functions that print statistics, in the configuration of the
-- program: IPv4 without IPv6, UDP, TCP and the statistics of interfaces and of Ethernet.
use cedar_switch_3i3o_power.Common.{Option, none, some, List, [], ◌∷◌, ◌++◌}
use cedar_switch_3i3o_power.Common.CString.{codes}
use cedar_switch_3i3o_power.Diag.Stats.{NetStats, EthStats, Iface, Line, line}

-- GET_STAT: `data` is read only where there is no interface.
abbrev pub stats_of : Option Iface → NetStats → NetStats
stats_of none data_of = data_of
stats_of (some iface) data_of = iface.stats

abbrev head_line : Option Iface → Line
head_line none = line (codes "Global network statistics\n") []
head_line (some iface) =
    line (codes "Statistics for interface %p [%d]\n") (iface.address ∷ iface.index ∷ [])

abbrev ip_lines : NetStats → List Line
ip_lines s =
    line (codes "IPv4 recv      %u\tsent\t%u\tdrop\t%u\tforwarded\t%u\n")
      (s.ipv4.recv ∷ s.ipv4.sent ∷ s.ipv4.drop ∷ s.ipv4.forwarded ∷ [])
    ∷ line (codes "IP vhlerr      %u\thblener\t%u\tlblener\t%u\n")
        (s.ip_errors.vhlerr ∷ s.ip_errors.hblenerr ∷ s.ip_errors.lblenerr ∷ [])
    ∷ line (codes "IP fragerr     %u\tchkerr\t%u\tprotoer\t%u\n")
        (s.ip_errors.fragerr ∷ s.ip_errors.chkerr ∷ s.ip_errors.protoerr ∷ [])
    ∷ line (codes "ICMP recv      %u\tsent\t%u\tdrop\t%u\n")
        (s.icmp.recv ∷ s.icmp.sent ∷ s.icmp.drop ∷ [])
    ∷ line (codes "ICMP typeer    %u\tchkerr\t%u\n") (s.icmp.typeerr ∷ s.icmp.chkerr ∷ [])
    ∷ line (codes "UDP recv       %u\tsent\t%u\tdrop\t%u\n")
        (s.udp.recv ∷ s.udp.sent ∷ s.udp.drop ∷ [])
    ∷ line (codes "UDP chkerr     %u\n") (s.udp.chkerr ∷ [])
    ∷ []

abbrev tcp_lines : NetStats → List Line
tcp_lines s =
    line (codes "TCP bytes recv %llu\tsent\t%llu\n") (s.tcp.bytes.received ∷ s.tcp.bytes.sent ∷ [])
    ∷ line (codes "TCP seg recv   %u\tsent\t%u\tdrop\t%u\n")
        (s.tcp.recv ∷ s.tcp.sent ∷ s.tcp.drop ∷ [])
    ∷ line (codes "TCP seg resent %u\tchkerr\t%u\tackerr\t%u\n")
        (s.tcp.resent ∷ s.tcp.chkerr ∷ s.tcp.ackerr ∷ [])
    ∷ line (codes "TCP seg rsterr %u\trst\t%u\tre-xmit\t%u\n")
        (s.tcp.rsterr ∷ s.tcp.rst ∷ s.tcp.rexmit ∷ [])
    ∷ line (codes "TCP conn drop  %u\tconnrst\t%u\n") (s.tcp.conndrop ∷ s.tcp.connrst ∷ [])
    ∷ []

abbrev byte_lines : NetStats → List Line
byte_lines s =
    line (codes "Bytes received %llu\n") (s.bytes.received ∷ [])
    ∷ line (codes "Bytes sent     %llu\n") (s.bytes.sent ∷ [])
    ∷ line (codes "Processing err %u\n") (s.processing_error ∷ [])
    ∷ []

unfoldable pub print_stats : Option Iface → NetStats → List Line
print_stats iface data_of =
    let s = stats_of iface data_of in
    head_line iface ∷ (ip_lines s ++ (tcp_lines s ++ byte_lines s))

unfoldable pub print_eth_stats : Iface → EthStats → List Line
print_eth_stats iface s =
    line (codes "Statistics for Ethernet interface %p [%d]\n") (iface.address ∷ iface.index ∷ [])
    ∷ line (codes "Bytes received   : %llu\n") (s.bytes.received ∷ [])
    ∷ line (codes "Bytes sent       : %llu\n") (s.bytes.sent ∷ [])
    ∷ line (codes "Packets received : %u\n") (s.pkts.rx ∷ [])
    ∷ line (codes "Packets sent     : %u\n") (s.pkts.tx ∷ [])
    ∷ line (codes "Bcast received   : %u\n") (s.broadcast.rx ∷ [])
    ∷ line (codes "Bcast sent       : %u\n") (s.broadcast.tx ∷ [])
    ∷ line (codes "Mcast received   : %u\n") (s.multicast.rx ∷ [])
    ∷ line (codes "Mcast sent       : %u\n") (s.multicast.tx ∷ [])
    ∷ []

abbrev short_lines : NetStats → List Line
short_lines s =
    line (codes "IPv4 recv %u sent %u drop %u fwd %u")
      (s.ipv4.recv ∷ s.ipv4.sent ∷ s.ipv4.drop ∷ s.ipv4.forwarded ∷ [])
    ∷ line (codes "IP vhlerr %u hblener %u lblener %u")
        (s.ip_errors.vhlerr ∷ s.ip_errors.hblenerr ∷ s.ip_errors.lblenerr ∷ [])
    ∷ line (codes "IP fragerr %u chkerr %u protoer %u")
        (s.ip_errors.fragerr ∷ s.ip_errors.chkerr ∷ s.ip_errors.protoerr ∷ [])
    ∷ line (codes "UDP recv %u sent %u drop %u chkerr %u")
        (s.udp.recv ∷ s.udp.sent ∷ s.udp.drop ∷ s.udp.chkerr ∷ [])
    ∷ line (codes "TCP bytes recv %llu sent %llu") (s.tcp.bytes.received ∷ s.tcp.bytes.sent ∷ [])
    ∷ line (codes "TCP seg recv %u sent %u drop %u") (s.tcp.recv ∷ s.tcp.sent ∷ s.tcp.drop ∷ [])
    ∷ line (codes "TCP seg resent %u chkerr %u ackerr %u")
        (s.tcp.resent ∷ s.tcp.chkerr ∷ s.tcp.ackerr ∷ [])
    ∷ line (codes "TCP seg rsterr %u rst %u re-xmit %u")
        (s.tcp.rsterr ∷ s.tcp.rst ∷ s.tcp.rexmit ∷ [])
    ∷ line (codes "TCP conn drop %u connrst %u") (s.tcp.conndrop ∷ s.tcp.connrst ∷ [])
    ∷ line (codes "Bytes received %llu") (s.bytes.received ∷ [])
    ∷ line (codes "Bytes sent     %llu") (s.bytes.sent ∷ [])
    ∷ line (codes "Processing err %u") (s.processing_error ∷ [])
    ∷ []

unfoldable pub print_stats_for_iface : Iface → List Line
print_stats_for_iface iface = elim iface.all_stats [
  | none ↦
      line (codes "Stats unavailable for iface %p [%d]") (iface.address ∷ iface.index ∷ []) ∷ []
  | some s ↦
      line (codes "Statistics for interface %p [%d]") (iface.address ∷ iface.index ∷ [])
      ∷ short_lines s
]
