-- ===== src/Lib.antt =====
-- gs_usb_user: a verification library for the user-space driver of CAN adapters that speak the gs_usb
-- protocol (driver/src/gsusb.c, bittiming.c, gsusb_proto.h and driver/include/gsusb.h), its tools
-- (driver/tools) and its Lua binding (sdk/lua/gsusb/lua_gsusb.c).
--
-- The program. A device holds a number of CAN channels behind one USB interface. A client opens the
-- device, sets the bit timing of a channel (bittiming.c finds the registers, a control transfer sends
-- them), starts it, and then sends frames with bulk OUT transfers and takes received frames from the
-- queue of the channel. One reader thread per device, which the first started channel creates and the
-- last stopped one ends, reads the bulk IN endpoint and pushes each frame onto the queue of the channel
-- that the packet names. A full queue drops its oldest frame. The tools are programs over this library;
-- the Lua binding hands its contexts, devices and channels to a script as userdata.
--
-- The files, and the code that they model:
--   Base (Tests, Lists, Words, Bits, Int)  shared names; Boolean tests, lists, C words and memory, signed
--     numbers
--   Wire (HwMode, Feature, WireFlag)  gsusb_proto.h: codes, flags, sizes, gs_put_le32, gs_get_le32
--   Wire/RoundTrip, Wire/HostFrame  laws of the two helpers; the layout of struct gs_host_frame
--   Dlc, Dlc/Laws  gsusb_len2dlc_* and gsusb_dlc2len_* of gsusb.c
--   Status, Status/Laws  enum gsusb_error, map_libusb_err, gsusb_strerror
--   Frame, Frame/Id  gsusb_frame and its flags, from gsusb.h; the parts of a CAN id
--   Rxq, Rxq/Invariant, Rxq/Refine  rxq_init, rxq_push and the pop in gsusb_channel_recv; the invariant
--     of the ring; the list that the ring stands for
--   Device, Device/Invariant, Device/Parse  struct gsusb_channel, struct gsusb_dev, gsusb_channel_get
--     and the parsers of the bit-timing limits
--   Rx, Rx/Safety, Rx/Effect  handle_rx_packet
--   Usb  libusb and pthreads as parameters; ctrl_out and ctrl_in
--   Tx, Tx/Encode, Tx/Send, Tx/Loopback, Tx/Loopback/Stamped  gsusb_channel_send, and what the
--     receive path makes of its bytes, without and with a hardware timestamp
--   Lifecycle (ModeFlag, Mode, Started, Start, Stop, Calls, Race, Threads)  gsusb_channel_start and
--     gsusb_channel_stop, sequences of them, one interleaving of two threads, and all interleavings of any
--     number of threads with the reader
--   Control, Control/Bitrate  the other requests on a channel
--   Recv, Recv/Outcome  gsusb_channel_recv
--   Timing, Timing/Split, Timing/Solution, Timing/Search, Timing/Result, Timing/Hang,
--     Timing/Optimal, Timing/Halts  bittiming.c
--   Reader, Reader/Outcome  reader_thread_fn
--   Open, Open/Ends, Open/Fresh, Open/Outcome  gsusb_open, from the host configuration on
--   Open/Find, Open/Device, Open/Ledger, Open/Resources  gsusb_open before that: the device and its
--     endpoints, and what is acquired and given back, by a ledger that each call of libusb is entered in
--   Open/Limits, Open/Gives, Open/Keeps  what an open device has of the answers of the device; every way
--     out of gsusb_open; what its requests keep of the world
--   Close, Close/Resets  gsusb_close
--   Tools/Text, Tools/Text/Numbers  strtoul, atoi and sscanf, as the C standard describes them
--   Tools/Args, Tools/Args/Selection  the loops over the options in driver/tools
--   Tools/Parse (Message, Hex, RoundTrip, Safety)  parse_frame of
--     driver/tools/gsusb_send.c; the syntax that it documents
--   Tools/Common, Tools/Common/FirstKnown, Tools/Common/Gives  driver/tools/common.h; gsusb_init,
--     gsusb_exit
--   Tools/Session (Outcome, Calls, Steady)  what the tools do before and behind their loops, and the calls
--     of the driver in it; what the loops hear of a channel that stays started
--   Tools/Send (Main, Selection, Rounds, Refusal, Termination, Steps, Success)  main of
--     driver/tools/gsusb_send.c
--   Tools/React (Main, Responses, Termination)  driver/tools/gsusb_react.c
--   Tools/Dump (Main, Ids, Termination)  driver/tools/gsusb_dump.c
--   Tools/Info (Scan, Scan/Agreement, Scan/Reopening, Main, Outcome)  driver/tools/gsusb_info.c
--   Lua  the Lua API as a parameter
--   Lua/Marshal, Lua/Marshal/RoundTrip  push_frame and check_frame of sdk/lua/gsusb/lua_gsusb.c
--   Lua/Handles (Table, Owners, Outcome, Safety)  the userdata of
--     sdk/lua/gsusb/lua_gsusb.c and their lifetimes
--   Lua/Methods, Lua/Methods/Forward  the methods of a channel of sdk/lua/gsusb/lua_gsusb.c
--   Lua/Module  luaopen_gsusb, and the numbers that the methods of a device return
--   Examples  concrete data, and a run of each theorem that has hypotheses
--
-- How state is modelled. A pointer to a channel is its index in the list of channels of the device;
-- `ch->dev` is the device passed beside it. A function that writes through a pointer returns the new
-- value. Each section of code under a lock is one step, and the locks themselves are left out. A C
-- buffer is a list of bytes, and an access outside it is `none` or a fault. A C integer is a natural
-- number with its wrap-around written out; `long` in bittiming.c is unbounded. `double` is a parameter
-- with no laws, so what is proved of the calculator holds for any rounding; where it prefers one setting
-- to another, that its comparisons order the settings is a hypothesis.
--
-- Fuel. Only the loop of `gsusb_calc_bittiming` runs on fuel, because its counter may wrap; it needs
-- no more than the prescalers between `brp_min` and `brp_max` and one for the last test. `recv`
-- recurses on the list of its waits, the reader thread and the loops of the tools on the list of their
-- turns, and the rounds of gsusb_send on those that are left.
--
-- Not modelled: memory that is freed, apart from the objects that Lua holds; what the tools write to
-- the error output, and what gsusb_react prints; and the SDKs in Lua and in Python, which wrap the C
-- library. libusb, pthreads, getopt_long and the Lua API are parameters of the model: of getopt_long
-- nothing is assumed.
pub mod Base
pub mod Wire
pub mod Dlc
pub mod Status
pub mod Frame
pub mod Rxq
pub mod Device
pub mod Rx
pub mod Usb
pub mod Tx
pub mod Lifecycle
pub mod Control
pub mod Recv
pub mod Reader
pub mod Open
pub mod Close
pub mod Timing
pub mod Tools
pub mod Lua
pub mod Examples
