-- ===== src/Lib.antt =====
-- A publish/subscribe broker for UDP, in two variants that share no code at run time.
--
-- bpf_broker/bpf_broker_kern.c runs in the kernel. Its XDP program, xdp_broker, parses each frame,
-- looks up the topic of a PUBLISH, and sends the datagram on to the topic's subscriber if there is
-- just one; otherwise tc_ingress_broker clones it for all. bpf_broker/bpf_broker_proto.c runs in
-- user space: main receives REGISTER, SUBSCRIBE and FLUSH over UDP, and add_topic, add_subscriber
-- and flush_topic fill the maps that the kernel reads. bpf_broker/bpf_broker_user.c loads the two
-- programs, attaches them to the interfaces and pins the maps for the service.
--
-- bpf_broker_xdp/bpf_broker_kern.c is another XDP program, for a driver that makes copies of a
-- frame and runs the program on each. bpf_broker_xdp/bpf_broker_proto.c is its service, which
-- keeps the subscribers of a topic in an array, and bpf_broker_xdp/bpf_broker_user.c its loader.
--
-- Prelude holds the Boolean tests and the lists over native numbers that all parts share. Frame is
-- a frame as a list of bytes, with loads and stores of little-endian words at the offsets of
-- struct ethhdr, struct iphdr and struct udphdr; pointers are offsets and data_end is the length.
-- Checksum has compute_ip_checksum and compute_udp_checksum, Parse has parse_udp_packet,
-- refresh_headers, starts_with and extract_topic_id, Rewrite the assignments that readdress a
-- frame, and Xdp the program xdp_broker. Tc is tc_ingress_broker with its callback_fn, which run
-- where xdp_broker passes a frame and clone it for each subscriber; the helpers of the kernel that
-- change a packet are its parameters, and Works (Tc/Clones) is what their documentation says of
-- them for the sizes and flags that the code passes. CloneTx is the program of bpf_broker_xdp,
-- which shares Parse and Rewrite.
--
-- Maps is what the programs rely on of BPF hash maps: lookup, update, deletion, the first key and
-- the order of an iteration are fields of a record, with their documented laws, and Maps/Assoc is
-- an association list that has them; Maps/Arrays is the same for BPF arrays. Proto/Text has the C
-- strings, Proto/Store the maps that the service owns, Proto/Service the three operations, and
-- Proto/Handler a round of main's loop; Proto/Startup is main before its loop and the loop as a
-- whole, on a list of what recvfrom gives. Proto/View is what both services keep: for each
-- registered topic the list of its subscribers, in the order of their subscriptions, with the
-- steps that one datagram can make. The hash maps of bpf_broker keep it up to order and repetition
-- (IsViewOf in Proto/Service/Viewed). Proto/Polling is poll_rps_loop. A return of 0 or -1 is `ok`
-- or `failed`. A read past the end of an array has the result `overread`; nothing is said of what
-- the program does from there. What the kernel answers during a call (whether a map can be opened
-- by its id, the id of a new map) is an argument. Broker puts the service and the programs of the
-- kernel together: tables_of and topics_of are what the one leaves for the others. Broker/Ingress
-- is the path of a packet: `ingress` runs the XDP program and, on what it passes, the program at
-- tc ingress, which is the order in which bpf_broker/bpf_broker_user.c attaches them;
-- Broker/Fanout and Broker/Silence follow a PUBLISH along it after a SUBSCRIBE and after a FLUSH,
-- and Broker/Startup has the services open what the loaders pin.
--
-- ArrayProto is the service of bpf_broker_xdp in the same manner. Its arrays keep a view with
-- order and repetition (Represents in ArrayProto/View). ArrayProto/Simulation has a round of the
-- loop as a step of the view, and ArrayProto/Delivery what the cloning program makes of the maps.
--
-- Loader is the two loaders: Loader/Tables their tables, Loader/Main their mains, with the wait
-- for a signal as a list of what sigwait gives. Loader/Kernel is what they ask of the kernel:
-- programs on interfaces, and pins by name under /sys/fs/bpf, with bpf_obj_get for the services.
-- Any of these calls may fail, and where the code does not look at what a removal returns,
-- `detached` goes on in the old state; Loader/Removal follows the removals at the end.
-- Loader/Ended and Loader/EndedArray are the two mains as a whole. The object file and libc's
-- strtol and if_nametoindex are records of answers.
--
-- Numbers of 32 and 16 bits are native numbers with their wrap-around written out. The loop of
-- flush_topic over a hash map runs on fuel, and more fuel than the topic has subscribers is
-- enough, since each round deletes one. The label `retry` of the loader runs on fuel too, and 2 is
-- enough, since a name that has been unpinned is free. All other loops are bounded in the code: 10
-- words of an IP header, 128 or 1024 words of a datagram, 20 characters of a topic, the count of a
-- topic.
--
-- Not modelled: bpf_printk_ip, which is called nowhere, the reply's way through sendto, and
-- everything printed; of bpf_broker_xdp/bpf_broker_kern.c the parsing and the IP checksum, which
-- repeat those of bpf_broker/bpf_broker_kern.c and are modelled there. The maps are read and
-- written by one party at a time.
pub mod Prelude
pub mod Frame
pub mod Checksum
pub mod Parse
pub mod Rewrite
pub mod Xdp
mod Tests
pub mod Maps
pub mod Proto
pub mod Broker
pub mod ArrayProto
pub mod CloneTx
pub mod Loader
pub mod Tc
