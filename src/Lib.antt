-- ===== src/Lib.antt =====
-- A verification library for the Linux device drivers of this repository and the user programs that
-- go with them.
--
-- The program. The repository holds kernel modules, each in one C file, and user programs that open
-- the devices. A module registers itself when it is loaded, answers calls of the kernel while it is
-- loaded, and gives back what it registered when it is removed. A user program opens a device or a
-- socket, exchanges some bytes and prints them. The modules and the programs share no code; each
-- talks to the kernel or to the C library by calls only.
--
-- How the code is modelled. Machine.antt has the monad of all the code: a computation is given the
-- answers of the environment and a state, and ends in a result, in `exit`, or in a fault such as a
-- read behind a buffer or the use of a null pointer. The state has the static variables of the file
-- and the log of all calls made so far, newest first, with their answers. The answers are a function
-- of the log and the call: theorems hold for every such function, hence however the kernel, the
-- device or the library behaves. A call of a driver stands in Kernel.antt, of a user program in
-- Posix.antt, with its arguments; what each call hands out or takes back by its documentation is the
-- instance of `Tracked` there. Machine/Resources.antt computes from a log what is still held: `nested`
-- asks that things are given back newest first, `held` in any order, and both are `none` if
-- something is given back that is not held. Kernel/Lifecycle.antt has the lives of a module: loaded,
-- operated any number of times and removed, in any order that the kernel allows; each load starts with
-- the static variables as the file sets them. It has an induction
-- rule, `Life-invariant`, that the files named Lives and Lifecycle use. Kernel/History.antt
-- and Posix/History.antt read off a log which call failed last, and what was read or printed.
-- Machine/Resources/Bag.antt forgets the order of what is held, by a quotient.
-- NetDriver/Counts.antt and Machine/Resources/Tally.antt count what a network driver holds, where the
-- order says nothing.
--
-- The files, with the code that each is about:
--   Base            names of the standard library, signed numbers, lists of bytes, C strings.
--   CharDriver/Can, Wifi, Bluetooth
--                   MyCanDriver.c, Wi-fi_device_driver.c and MyBlutooth_Device_Driver.c.
--   CharDriver/Esp32    MyWi-fiDriver.c. `create_device` and `register_operations` are the later
--                   parts of esp32_init, after its first and second test.
--   CharDriver/I2c      I2c_driver_test.c.
--   CharDriver/Ioctl    Ioctl_kernel_device_driver.c. `value` is kept as its four bytes, since a copy
--                   from the user may be cut short. _IOW and _IOR are parameters.
--   CharDriver/SpiChar  CharSpiKS.c.
--   BusDriver/Spi       Spi_kernel_space_test_v1_1.c.
--   BusDriver/Usb       USB_device_driver_v1_1.c.
--   BusDriver/Uart      UART_as_char_driver_registration.c.
--   NetDriver/Eth       net_eth.c. A packet is its address and its bytes.
--   NetDriver/Spi       netSpi.c. `build_packet` fills the three headers and the payload.
--   UserProgram/*       Wi-fi_userSpace.c, Uart_userSpace_v1_1.c, I2c_userSpace_testV1_0.c,
--                   Usb_userSpace_test_v1_1.c, MyCanUserSpace.c, Bluetooth_userSpace.c,
--                   Spi_userSpace_test_v1_0.c, in Scan Wifi-userSpace.c, and in RawSocket net_usp.c, the
--                   sending part up to where its text breaks off.
--   UserProgram/Hello    hello_test.c.
--   UserProgram/RawSocket/Receiver    the receiving part of net_usp.c, a program that the file keeps in a
--                   comment. `turns` runs its endless loop any number of times.
--   CharDriver/Ioctl/Threads    cuts etx_ioctl into its single calls, for threads that run it at once.
--                   A copy from or to the user is one step. Atomic has the register that they are
--                   measured by.
--   CharDriver/Ioctl/Values    the device as a variable of type int32_t.
--   NetDriver/Spi/Sessions    brings the interface of netSpi.c up and down again and again.
--   CharDriver/FixedNumber    compares the three drivers of the second line above.
--   Modules         loads the twelve modules in one kernel. Their functions are run one at a time, in any
--                   order; Kernel/Together has the rule for it, Kernel/Together/Drain
--                   that for removing all of them, and CharDriver/Together,
--                   BusDriver/Together and the files named Shared what it asks of each module, with what
--                   a module leaves behind that it does not give back. The static character devices of
--                   different modules are not told apart there, only counted, and so are the
--                   registrations of the two network drivers. A device node is known by its number
--                   alone, so the I2C driver is given a kernel that makes its node.
--   UserProgram/Wifi/Attached    puts the Wi-Fi program on a driver's device, as the file of the path that
--                   it opens: the driver's state after
--                   the program's calls is computed from these. Device has the Wi-Fi driver there,
--                   Esp32Device the driver of MyWi-fiDriver.c.
--   UserProgram/RawSocket/Reception    brings the packets of the sending part of net_usp.c to its
--                   receiving part.
--   UserProgram/RawSocket/Delivery    hands the packets of net_usp.c to the driver of net_eth.c.
--   NetDriver/Eth/Forward, Arrival    send a packet through the driver of net_eth.c again and again, and
--                   hand what comes out to its receiving function.
--   BusDriver/Usb/Reports    puts the USB driver under a kernel that searches its table; the search is a
--                   parameter with its documented properties.
--   Tests           runs at concrete answers.
-- A function of the model has the name of the C function; where it is a part of one, its comment says
-- which. Files below these hold the proofs and are named for what they prove.
--
-- Bounds. Addresses, sizes and counts are natural numbers, results are integers; the one arithmetic on
-- a narrow integer that the code does on data, the time to live, wraps at 2 ^ 8. No function needs
-- fuel: each loop runs over a list or counts down a number that is known when it starts, but for the
-- receiver's endless loop, which is run for any number of turns. Memory of a
-- local array before the program writes it is a parameter, `stack`.
--
-- Not modelled: the lines behind the receiver's endless loop; e1000.h, a header of another
-- project; and the files that hold links or notes. The kernel, the C library, BlueZ and
-- libnl are calls, with their answers from the environment; functions that run
-- at the same time are modelled for etx_ioctl only.
pub mod Base
pub mod Machine
pub mod Kernel
pub mod CharDriver
pub mod BusDriver
pub mod NetDriver
pub mod Modules
pub mod Posix
pub mod UserProgram
mod Tests
