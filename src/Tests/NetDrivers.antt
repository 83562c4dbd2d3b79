-- ===== src/Tests/NetDrivers.antt =====
-- The network drivers at concrete packets and answers.
use linux_device_drivers.Base.{refl, false, [], ◌∷◌, ◌++◌, arith, replicate}
use linux_device_drivers.Machine.{St, null, addr, out_of_bounds, Returns, Faults}
use linux_device_drivers.Machine.Resources.{held, nested}
use linux_device_drivers.Machine.Resources.Tally.{count}
use linux_device_drivers.Kernel.{Call, kernel_tracked}
use linux_device_drivers.Kernel.Lifecycle.{fresh, insmod, rmmod, operate}
use linux_device_drivers.NetDriver.Eth
use linux_device_drivers.NetDriver.Eth.{SkBuff}
use linux_device_drivers.NetDriver.Eth.Receive
use linux_device_drivers.NetDriver.Eth.Receive.{my_netdev_rx-Ends, my_netdev_rx-out_of_bounds}
use linux_device_drivers.NetDriver.Eth.Lives as EthLives
use linux_device_drivers.NetDriver.Eth.Lives.{eth_module-Counts}
use linux_device_drivers.NetDriver.Spi
use linux_device_drivers.NetDriver.Spi.Lives
use linux_device_drivers.NetDriver.Spi.Sessions
use linux_device_drivers.NetDriver.Spi.Lives.{net_module-Counts}
use linux_device_drivers.NetDriver.Spi.Packets.{Queues, my_netdev_rx-Sends}
use linux_device_drivers.Tests.Support.{granting, state_of, start, success}

-- 34 bytes whose protocol is ICMPv6, and a packet of 40 bytes.
abbrev cut_off : SkBuff
cut_off = record { address = addr 9; bytes = replicate 23 1 ++ (58 ∷ replicate 10 2) }

abbrev pub whole : SkBuff
whole = record { address = addr 9; bytes = replicate 22 1 ++ (0 ∷ 6 ∷ replicate 16 2) }

abbrev pub holding : St Call Eth.Globals
holding = record {
  globals = record { mtu = 1500 };
  log = record { call = Call.dev_alloc_skb 40; reply = record success { ptr = addr 9 } } ∷ [];
}

my_netdev_rx-Ends_example :
    Receive.Ends whole granting holding [] (Eth.my_netdev_rx whole granting holding)
unfolding nested
my_netdev_rx-Ends_example = my_netdev_rx-Ends whole granting holding [] (λ l. refl) refl

-- The byte behind a buffer of 34 bytes is read.
cut_off_overruns : Faults out_of_bounds (Eth.my_netdev_rx cut_off granting holding)
cut_off_overruns = my_netdev_rx-out_of_bounds cut_off granting holding refl refl refl

abbrev eth_start : St Call Eth.Globals
eth_start = start (record { mtu = 0 })

abbrev eth_loaded : St Call Eth.Globals
eth_loaded = state_of (Eth.my_netdev_init granting eth_start)

abbrev eth_used : St Call Eth.Globals
eth_used = state_of (EthLives.serve (EthLives.receive whole.bytes) granting eth_loaded)

abbrev eth_sent : St Call Eth.Globals
eth_sent = state_of (EthLives.serve (EthLives.send whole.bytes) granting eth_used)

abbrev eth_removed : St Call Eth.Globals
eth_removed = state_of (Eth.my_netdev_exit granting eth_sent)

-- Loaded, used for a packet in each direction, and removed.
eth_module-Counts_example : EthLives.Counts false eth_removed
unfolding held count EthLives.packets EthLives.serve Eth.my_netdev_init Eth.my_netdev_exit
    Eth.my_netdev_ops
eth_module-Counts_example =
    eth_module-Counts granting eth_start false eth_removed
      (record { allocates = λ n l. refl; memory = λ n l. refl }) (refl, refl, refl)
      (rmmod
        (operate (EthLives.send whole.bytes)
          (operate (EthLives.receive whole.bytes) (insmod fresh refl refl) refl) refl)
        refl)

abbrev net_start : St Call Spi.Globals
net_start = start (record { my_spi_dev = null })

abbrev net_loaded : St Call Spi.Globals
net_loaded = state_of (Spi.my_netdev_init granting net_start)

abbrev net_opened : St Call Spi.Globals
net_opened = state_of (Spi.my_netdev_open granting net_loaded)

abbrev net_sent : St Call Spi.Globals
net_sent = state_of (Lives.serve (Lives.send (replicate 6 3) "10.0.0.1") granting net_opened)

abbrev net_removed : St Call Spi.Globals
net_removed = state_of (Spi.my_netdev_exit granting net_sent)

abbrev granting-IsSound : Lives.IsSound granting
granting-IsSound = record {
  transfers = λ l. refl;
  allocates = λ n l. refl;
  fills = λ l. omega arith;
}

-- Loaded, opened, used for one packet and removed.
net_module-Counts_example : Lives.Counts false net_removed
unfolding held count Lives.packets Spi.my_netdev_init Spi.my_netdev_exit Spi.my_netdev_ops
    Lives.serve
net_module-Counts_example =
    net_module-Counts granting net_start false net_removed granting-IsSound (refl, refl, refl)
      (rmmod
        (operate (Lives.send (replicate 6 3) "10.0.0.1")
          (operate Lives.up (insmod fresh refl refl) refl) refl)
        refl)

abbrev given : St Call Spi.Globals
given = record net_opened { log = holding.log }

my_netdev_rx-Sends_example :
    Returns
      (Queues (replicate 6 3) granting given (addr 9) [])
      (Spi.my_netdev_rx (replicate 6 3) "10.0.0.1" (addr 9) granting given)
unfolding nested
my_netdev_rx-Sends_example =
    my_netdev_rx-Sends (replicate 6 3) "10.0.0.1" (addr 9) granting given [] (λ l. refl) (λ l. refl)
      (λ l. omega arith) refl
