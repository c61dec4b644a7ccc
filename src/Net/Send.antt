-- ===== src/Net/Send.antt =====
-- ptpd_netif_sendto of lib/net.c. `vlan` is wrc_vlan_number, 0 for none, `prio` the socket's priority,
-- and an ethertype is given by its value. A MAC address is six bytes.
pub mod Link
pub mod Words
pub mod Wire
use wrpc_sw.Prelude.{ℕ, ◌*◌, ◌%◌, ◌^◌, bit_or, Bool, true, false, List, ◌++◌, ◌==◌, if◌then◌else◌}
use wrpc_sw.Ip.Bytes.{be16}
use wrpc_sw.Minic.{FifoWord, Minic, HwTimestamp, minic_tx_frame}
use wrpc_sw.Net.Demux.{Socket}

-- The tag: the VLAN's number and, in the upper three bits, the priority.
abbrev pub vlan_tag : ℕ → ℕ → ℕ
vlan_tag vlan prio = bit_or vlan (prio * 2 ^ 13) % 2 ^ 16

unfoldable pub eth_header : ℕ → ℕ → ℕ → List ℕ → List ℕ → List ℕ
eth_header vlan prio ethertype dstmac srcmac =
    dstmac
    ++ (srcmac
        ++ (if vlan == 0
            then be16 ethertype
            else (be16 0x8100 ++ (be16 (vlan_tag vlan prio) ++ be16 ethertype))))

-- The result, the words written, and the driver afterwards. It always asks for a timestamp.
unfoldable pub ptpd_netif_sendto :
    ℕ → ℕ → Socket → List ℕ → List ℕ → Minic → List ℕ → ℕ → ℕ × (List FifoWord × Minic)
unfolding eth_header minic_tx_frame
ptpd_netif_sendto vlan prio sock to_mac mac_addr nic payload size =
    minic_tx_frame nic (eth_header vlan prio sock.ethertype to_mac mac_addr) payload size true
