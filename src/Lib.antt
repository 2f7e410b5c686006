-- ===== src/Lib.antt =====
-- Servant: an AF_XDP runtime that runs eBPF programs on packets in user space, and the channel over
--   which it hands packets to an application. This library models its C code and proves what makes
--   it correct.
--
-- The program. `src/servant.c` sets up an AF_XDP socket (`src/sockets.c`), the maps, the passing of
-- packets and the engine (`src/brain.c`), runs the packet loop, and gives everything back. The
-- loop, `src/heart.c`, polls the receive ring of the socket, runs the compiled eBPF program on each
-- packet, and by its verdict gives the frame back to the kernel (DROP), sends it (SEND), or passes
-- its bytes to an application (PASS) through `src/interpose_link.c` or `src/udp_socket.c`. The link
-- is a channel in shared memory, `src/vchannel.c`. On its other side `src/interpose/interpose.c`
-- stands before libc in the application: its `epoll_ctl` and `epoll_wait` report the messages of
-- the channel for the descriptors of port 8080, and its `recvfrom` reads them. The eBPF programs
-- reach maps of the kernel by name or index through the tables of `src/map.c`;
-- `src/userspace_maps.c` fills the maps that a program has in user space.
--
-- The files.
-- Prelude: what the components share. Prelude/Results has how a C call ends (it returns, an
--   assertion aborts, it exits, or it is undefined), Prelude/Int C's signed results, Prelude/Lists
--   arrays and `memcpy`, Prelude/Text strings and `atoi`.
-- Channel: `src/vchannel.c` and `src/vchannel.h`. `SharedChannel` is `struct _shared_channel` with
--   its rings and slots, `VChannel` `struct vchannel`; `tx_msg`, `rx_msg` and `count_msg` are
--   `vc_tx_msg`, `vc_rx_msg` and `vc_count_msg`. Channel/Connect has `connect_shared_channel` and
--   `disconnect` by the answers of the system, Channel/Ring the interface of the rings of
--   `src/llring.h`, and Channel/ListRing an instance of it; Channel/Link is the set-up of
--   `src/interpose_link.c`. Channel/Stream has the invariant of one direction, Channel/Send and
--   Channel/Receive that the calls keep it, Channel/Session the refinement to a queue.
-- Maps: `src/map.c` and `src/map.h`. An `Entry` is one index of the arrays `map_names`, `map_fds`
--   and so on; Maps/Setup is `setup_map_system`, by the maps that the kernel lists. Maps/Lookup
--   compares the two lookups, Maps/Setup/Place, Dense and Gap follow the table through the setup.
-- Interpose: `src/interpose/interpose.c` built with RECVFROM. `EpollData` is an entry of `epdata`;
--   `epoll_ctl`, `epoll_wait` and `recvfrom` have the names of the source. Interpose/Init has
--   `init`, and `ensure_init` as the steps of any number of threads over `init_cnt` and
--   `init_done`.
-- Heart: `src/heart.c`, with `src/defs.h` and `src/include/packet_context.h`. Heart/Xsk is the
--   interface of libbpf's rings and Heart/ListRings an instance. `complete_tx`, `poll_rx_queue`,
--   `drop_batch` and `tx_batch` (`drop` and `tx`) stand in Heart, `apply_action`, `pump_batch` and
--   `pump_packets` in Heart/Actions, the set-up of `src/udp_socket.c` in Heart/Udp, and
--   `apply_mix_action` in Heart/Mix. Heart/Frames counts where the frames of the memory are: held by
--   the loop, in a ring, or with the kernel, whose steps stand between the rounds.
-- Delivery: the loop of `src/heart.c`, the channel of `src/vchannel.c` and the `recvfrom` of
--   `src/interpose/interpose.c` one behind the other; Delivery/Batch is what a batch passes,
--   Delivery/Drain what an application that reads the channel empty takes out, and Delivery/Served
--   its loop, with the `epoll_wait` that reports each packet. Delivery/Linked begins at the set-up.
-- Config: `src/config.c` and `src/config.h`. `Config.Config` is `struct config` and `Opt` a result
--   of `getopt_long`; Config/Options has what a command line makes of the maps
--   and sizes.
-- Brain: `src/brain.c`, and the numbers of the helpers in `src/include/servant_engine.h`.
--   `read_turn` is a turn of the loop of `readfile`; `load_program` is `setup_ubpf_engine` behind
--   it. A list of the resources held goes through the functions.
-- Sockets: `src/sockets.c`. `populate` and `fill_frames` are the part of `setup_socket` that fills
--   the fill ring; the answers of libbpf and of the kernel are a record, `Host`.
--   Sockets/Frames has the set-up followed by the loop.
-- UserMaps: `src/userspace_maps.c`. `UbpfMaps` is the interface of the maps of ubpf, and
--   UserMaps/ListMaps an instance.
-- Servant: `src/servant.c`. Servant/Main has `main` and what stands behind its labels and gotos,
--   each phase by the definition of its component; `Ending` is how it ends and what it leaves.
-- Programs: the eBPF programs of `examples/benchmarks/echo.c`, `examples/dump_packet/ubpf.c` and
--   `examples/userspace_maps/ubpf.c`, on the bytes of a packet; Programs/Process has
--   `examples/benchmarks/packet_processing.c`, Programs/HeadRoom
--   `examples/benchmarks/adjust_pkt_size.c`, Programs/IncHead `test_inc_pkt_head.c` beside it,
--   Programs/TailCall `tail_call.c` and Programs/StateCopy `state_overhead.c`. Programs/KernelMap
--   is the pair of `examples/kernel_map_example/`, the program of the kernel and the one of the
--   engine, over the map they share; Programs/HashMap is `examples/benchmarks/hash_map.c` with the
--   loader that fills its map; Programs/Loader is `examples/dump_packet/loader.c` and the loader of
--   the benchmarks, from the arguments to the handler of the interrupt; Programs/Report is
--   `examples/benchmarks/report_tput.c`.
--
-- Bounds. Fields of 32 and 64 bits wrap where the code computes with them. The loop of `readfile`
-- runs on fuel, and two turns are enough: `fread` gives everything at once, and then nothing. The
-- loops of `mymemcpy` have fuel for each byte and one turn more; the fuel of `tail_call.c` is the
-- number of tail calls that the kernel allows. All other loops run over lists or to a count. The
-- waiting loop of `epoll_wait` and the loop of `pump_packets` have no bound in the source; they run
-- over the list of the rounds that the world grants, and for `epoll_wait` none is that the loop
-- still goes on.
--
-- Parameters. The rings of `src/llring.h`, which is a copy of another project's code, and the rings
-- of libbpf are records of operations with the behaviour that their comments promise. The compiled
-- eBPF program is any function of the packet and the memory. The maps of ubpf in user space are a
-- record of operations with the behaviour that lookups and updates promise, and so is a hash map of
-- the kernel. The kernel's part between two rounds of the loop is any step that moves frames and
-- loses none. The interface that a loader attaches to is a value that the calls change. Results of
-- system calls, of libbpf and of the loading of a program are arguments. Memory barriers and the
-- interleaving of the two processes inside a call are not modelled: each call of the channel is one
-- step. The steps of `ensure_init` are those of its reads and writes of shared memory, in one order
-- for all threads.
--
-- Not modelled: messages, statistics and the histogram of `src/duration_hist.h`, which no file
-- includes; the code that is compiled out (`sendmsg` of the interposed calls, VM_CALL_BATCHING,
-- USE_POLL); the XDP programs that only redirect a packet, the benchmarks that only measure a
-- call, and the division of a count into a printed rate; the ring of `src/llring.h` and
-- `test/ctest.h`, which are copies of other projects' code.
pub mod Prelude
pub mod Channel
pub mod Maps
pub mod Interpose
pub mod Heart
pub mod Config
pub mod Brain
pub mod Sockets
pub mod UserMaps
pub mod Servant
pub mod Delivery
pub mod Programs
