-- ===== src/Kernel/Types.antt =====
-- The kernel's types that calls carry: message levels, buses, transfers, and packet headers.
use linux_device_drivers.Base.{ℕ, List}
use linux_device_drivers.Machine.{Ptr}

-- KERN_INFO and KERN_ERR.
pub data Level : Type 0 where
  info error : Level

pub data Bus : Type 0 where
  i2c spi usb uart : Bus

-- The vendor and product of a USB device.
pub record UsbId : Type 0 where
  pub id_vendor : ℕ
  pub id_product : ℕ

-- `struct spi_transfer`: the addresses of the buffers, NULL for none, and their length.
pub record Transfer : Type 0 where
  pub tx_buf : Ptr
  pub rx_buf : Ptr
  pub len : ℕ

-- The entries of a `struct file_operations`, with the count that `read` and `write` are given.
pub data FileOp : Type 0 where
  open_file release_file : FileOp
  read_file write_file : ℕ → FileOp

-- `struct ethhdr`, `struct iphdr` and `struct tcphdr`, field by field.
pub record EthHdr : Type 0 where
  pub h_dest : List ℕ
  pub h_source : List ℕ
  pub h_proto : ℕ

pub record IpHdr : Type 0 where
  pub version : ℕ
  pub ihl : ℕ
  pub tos : ℕ
  pub tot_len : ℕ
  pub id : ℕ
  pub frag_off : ℕ
  pub ttl : ℕ
  pub protocol : ℕ
  pub saddr : ℕ
  pub daddr : ℕ
  pub check : ℕ

pub record TcpHdr : Type 0 where
  pub source : ℕ
  pub dest : ℕ
  pub seq : ℕ
  pub ack_seq : ℕ
  pub doff : ℕ
  pub fin : ℕ
  pub syn : ℕ
  pub rst : ℕ
  pub psh : ℕ
  pub ack : ℕ
  pub urg : ℕ
  pub ece : ℕ
  pub cwr : ℕ
  pub window : ℕ
  pub check : ℕ

-- A packet that is built header by header; `len` counts the bytes put so far.
pub record Packet : Type 0 where
  pub len : ℕ
  pub eth : EthHdr
  pub ip : IpHdr
  pub tcp : TcpHdr
  pub payload : List ℕ
