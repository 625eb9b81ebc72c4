-- ===== src/Lib.antt =====
-- libhackrf, the host library that drives a HackRF software-defined radio over USB.
--
-- The program. An application calls the functions of src/lib/hackrf/hackrf.c, which
-- include/hackrf.h declares. The library keeps a libusb context and a count of open devices.
-- Opening a device configures it, claims its interface and allocates four bulk transfers over one
-- buffer. Control requests then set the radio up: each validates its arguments, makes one control
-- transfer and turns the answer into a result code. Streaming starts a thread that lets libusb hand
-- finished transfers to a callback, which passes them to the application and submits them again,
-- until an error, the application or a stop ends it. The sweep client plans tuning steps over
-- ranges of frequencies, starts the stream and reads the blocks that come back.
--
-- The files.
--   Prelude    the names of the standard library that are used, Boolean tests, lists, texts, integers.
--   Bytes      numbers as bytes in either byte order, and the macro TO_LE.
--   Errors     enum hackrf_error, its numbers and hackrf_error_name.
--   Platform   what libusb, malloc and pthread are asked: a record of functions that is a parameter
--              of every definition that uses one. Platform/Action has the globals g_libusb_context,
--              open_devices and last_libusb_error with the log of all calls; a function of the
--              library is a state-passing action on them. Platform/Codes has hackrf_vendor_request,
--              and Platform/Handles replays the log to tell which handles of libusb are open.
--   Filter     the table max2837_ft and hackrf_compute_baseband_filter_bw, also _round_down_lt.
--   Requests   the control requests, by group: Version (USB_API_REQUIRED), Registers, Flash
--              (spiflash and cpld), Tuning (set_freq, set_freq_explicit, set_sample_rate_manual),
--              Gains, Info, InitSweep, Boards (operacake, clkout, reset, checksum). Commands
--              gathers those that make one transfer, Protocol describes what each promises, and
--              Refines compares the two. Tuning/Fraction has hackrf_set_sample_rate.
--   Device     struct hackrf_device. Transfers has the four transfers, Streaming the thread and
--              the calls that start and stop it (Streaming/Flight counts the transfers that libusb
--              has), Lifecycle init, exit, open and close, Lifecycle/Serial opening by serial
--              number, and Lists the list of devices (Lists/Serials has its serial numbers, and
--              Lists/Reopen opens a device by one of them).
--   Sweep      the sweep client, src/lib/hackrf/hackrf_sweep.c: the checks and the plan of
--              hackrf_sweep, Blocks (rx_callback), Receive (a run of it, with signals in between),
--              Transform (the powers of a block, with floats and fftw as parameters),
--              Start (how the device is started and shut down), Run (hackrf_sweep as a whole, and
--              hackRFSweepThread, which no code calls before it), Rows (which bins of a
--              transformed block go where), Printing (the text that is printed of a transfer) and
--              Numbers (parse_u32). It uses the parts above as the code does.
--   Application  what an application may do with the library: any sequence of the calls that `Act`
--              names on any number of devices, with the rounds of the streaming threads in between.
--              It is the environment of the code and no code of the repository.
--   Service    the check of the sweep service, src/lib/hackrf/hackrf_sweep_svc.c.
--   Utils      src/lib/utils.c: reading a line, and the commands of the two prompts.
--   Names      the tables of board and filter names in src/lib/hackrf/hackrf.c.
--   Enums      the enums of boards, paths, ports and styles, include/hackrf.h.
--   Messages   numbers as text and bytes, include/common_hackrf.h.
--   Admin      how src/adm/hackrf_admin.c connects to a device.
--   Bluetooth  the scan for Bluetooth devices, src/comm/bluetooth.c.
--   Client     the connection to a server and a message to it, src/comm/client.c.
--   Tests      a platform on which everything works, runs of the code, and the results at concrete
--              inputs.
-- A function hackrf_f of the code is f here, except where that is no longer unique. A device that a
-- function changes is an argument and comes back with the result; what a function writes through a
-- pointer comes back likewise.
--
-- Parameters and bounds. The platform's functions take the log of all earlier calls, so every
-- answer may differ from the one before, and nothing is supposed of them except where a theorem
-- says so. The user's callback is a function from its address. A pointer is a number, and 0 is
-- NULL. Integers are natural numbers with the wrap-around of their C type written out where a
-- result may pass it. The byte order of the host is a parameter. The loop of hackrf_cpld_write runs
-- on fuel: one step for each chunk of 512 bytes and one for the last test. The thread's loop runs
-- over a list of rounds, each with the completions that one call of libusb delivers, since libusb
-- decides how many there are.
--
-- Steps and threads. An interleaving is a sequence of whole calls and whole completions; the data
-- races inside a call, on fields that the code marks volatile, are not modelled. A stop waits in
-- pthread_join until the thread has ended: that call is modelled at this moment, and the rounds that
-- the thread runs while the stop waits are steps before it, behind one that asks for the exit.
--
-- A double is a natural number over a power of two, and each operation on doubles rounds to 53
-- bits, half to even, as IEEE 754 asks; the rates of hackrf_set_sample_rate are those from 1 Hz up
-- to 2 ^ 27 Hz. In Sweep/Transform, where no value of a float matters, the operations on floats and
-- doubles and the transforms of fftw are parameters. A text is the list of its characters, and
-- strtoul of the C library works on it. What the loop of hackrf_sweep finds in each round is a list
-- that is given, since other threads and the clock decide it.
--
-- Not modelled. The bytes that a transfer carries to the application and the memory that a failed
-- open leaks are left out. Of the sweep client, the values of the window and messages on stderr are
-- left out, and the inverse FFT and its input are definitions of their own, which the walk over the
-- blocks does not call. The threads of the socket client, the plugins, most of the administration
-- tool and of include/common_hackrf.h are input and output, or do not compile.
pub mod Prelude
pub mod Bytes
pub mod Errors
pub mod Platform
pub mod Filter
pub mod Requests
pub mod Device
pub mod Sweep
pub mod Application
pub mod Service
pub mod Utils
pub mod Names
pub mod Enums
pub mod Messages
pub mod Admin
pub mod Bluetooth
pub mod Client
pub mod Tests
